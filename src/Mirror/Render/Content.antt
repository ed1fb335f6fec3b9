-- ===== src/Mirror/Render/Content.antt =====
-- `renderFile` of internal/mirror/mirror.go: what is on disk afterwards.
use distributed_configs_fs.Base.{
  ◌≡◌, subst, refl, sym, ◌∙◌, ap, ◌≢◌, inl, inr, Text, text_eq, List, [], ◌∷◌, All, ◌==◌, Option,
  none, some, if◌then◌else◌, arith,
}
use distributed_configs_fs.Core.Error.{Result, ok, err, Result-cases, not_found}
use distributed_configs_fs.Core.Entry.{Meta, hash_content}
use distributed_configs_fs.Effect.{lift, some_or, pure, ◌>>=◌, ◌>>◌}
use distributed_configs_fs.Effect.Runs.{
  Ends, Runs, Runs-both, Runs-weaken, Runs-reads, Runs-then, Runs-tests, end_any, end_both, end_ok,
}
use distributed_configs_fs.Store.State.{BlobRow, Db}
use distributed_configs_fs.Store.Table.{take_row}
use distributed_configs_fs.Store.Ops.{blob, has_hash}
use distributed_configs_fs.Store.Outcome.{sql-cases}
use distributed_configs_fs.Syncer.State.{on_db}
use distributed_configs_fs.Mirror.Names.{tmp_name}
use distributed_configs_fs.Mirror.Disk.{Disk, node_at, lstat, read_file, find, follow_links}
use distributed_configs_fs.Mirror.Disk.Reads.{At, syscall-At}
use distributed_configs_fs.Mirror.Write.{write_atomic}
use distributed_configs_fs.Mirror.Write.Atomic.{IsPlain, write_atomic-IsAtomic}
use distributed_configs_fs.Mirror.State.{Mirror, on_disk, on_tree}
use distributed_configs_fs.Mirror.Render.{
  apply_meta, read_local, write_file, render_file, has_hash_already, unless_missing,
}
use distributed_configs_fs.Mirror.Render.Applied.{
  HasHash, IsRendered, read_local-At, Rendered, Hashed, on_disk-Runs, either-Runs, AnyEnd,
  apply_meta-Rendered,
}

-- Reading a file changes no node.
read_local-still :
    (sum256 : Text → Text) (p q : Text) (d : Disk)
    → node_at q (read_local sum256 p d).1 ≡ node_at q d
unfolding read_local lstat read_file find follow_links
read_local-still sum256 p q d = end_both (At q (node_at q d)) (read_local sum256 p d) (
    (Runs-then _ _ (Runs-then _ _ (syscall-At q _) λ u. Runs-reads _) λ i.
        Runs-then _ _ (Runs-reads _) λ v.
          Runs-then _ _
            (Runs-then _ _ (syscall-At q _) λ u.
              Runs-then _ _ (Runs-reads _) λ r.
                Runs-then _ _ (Runs-reads _) λ n. Runs-then _ _ (Runs-reads _) λ w. Runs-reads _)
            λ c. Runs-reads _).ends
      d refl)

module _ (sum256 : Text → Text) (e : Meta) where
  -- Every blob of the store has the hash under which it is stored.
  abbrev pub IsAddressed : Db → Type 0
  IsAddressed db = All (λ (b : BlobRow). hash_content sum256 b.content ≡ b.hash) db.blobs

  addressed :
      (hash : Text) (blobs : List BlobRow) {b : BlobRow}
      → All (λ (c : BlobRow). hash_content sum256 c.content ≡ c.hash) blobs
      → take_row (has_hash hash) blobs ≡ some b
      → hash_content sum256 b.content ≡ hash
  unfolding take_row
  addressed hash [] h f = cc
  addressed hash (c ∷ cs) {b} h f = elim (text_eq.dec c.hash hash) [
    | yes y ↦ let same : c ≡ b = ground (arith, f, y) in rw (sym same) (h.0 ∙ y)
    | no n ↦ addressed hash cs {b = b} h.1 (ground (arith, f, n))
  ]

  found_blob :
      (o : Option BlobRow) (db : Db)
      → take_row (has_hash e.hash) db.blobs ≡ o
      → IsAddressed db
      → Ends
          (λ content d. hash_content sum256 content ≡ e.hash)
          (λ d. Unit)
          ((some_or not_found o >>= λ b. pure b.content) db)
  unfolding ◌>>=◌
  found_blob none db f h = tt
  found_blob (some b) db f h = addressed e.hash db.blobs h f

  blob-Runs :
      Runs IsAddressed (blob e.hash) (λ content d. hash_content sum256 content ≡ e.hash) (λ d. Unit)
  unfolding blob ◌>>=◌
  blob-Runs = record {
    ends = λ db h. elim (sql-cases db) [
      | inl (fs, f) ↦ rw f tt
      | inr (fs, f) ↦ rw f (found_blob _ (record db { faults = fs }) refl h)
    ];
  }

  abbrev Addressed : Mirror → Type 0
  Addressed s = IsAddressed s.tree.db

  load-Runs :
      Runs Addressed
        (on_tree (on_db (blob e.hash)))
        (λ content s. hash_content sum256 content ≡ e.hash)
        AnyEnd
  unfolding AnyEnd
  load-Runs = record {
    ends = λ s h.
        let j = blob-Runs.ends s.tree.db h in
        elim (Result-cases (blob e.hash s.tree.db).0) [
          | inl (c, f) ↦ rw f (rw f at j)
          | inr (x, f) ↦ rw f tt
        ];
  }

  -- At the path of the scratch file stands nothing, a regular file or a directory.
  abbrev Plain : Mirror → Type 0
  Plain s = IsPlain (node_at (tmp_name e.path) s.disk)

  write-Runs :
      (content : Text)
      → tmp_name e.path ≢ e.path
      → hash_content sum256 content ≡ e.hash
      → Runs
          (λ d. IsPlain (node_at (tmp_name e.path) d))
          (write_atomic e.path content e.mode)
          (λ u. Hashed sum256 e)
          (λ d. Unit)
  write-Runs content other same = record {
    ends = λ d plain.
        let j = (write_atomic-IsAtomic e.path content e.mode d e.path other other plain).0 in
        elim (Result-cases (write_atomic e.path content e.mode d).0) [
          | inl (u, f) ↦
              let (n, g, c, k) = (rw f at j) in rw f (n, g, ap (hash_content sum256) c ∙ same, k)
          | inr (x, f) ↦ rw f tt
        ];
  }

  abbrev Prepared : Mirror → Type 0
  Prepared s = Addressed s × Plain s

  -- Loading a blob leaves the directory alone.
  load-Plain : Runs Plain (on_tree (on_db (blob e.hash))) (λ content. Plain) Plain
  load-Plain = record { ends = λ s h. end_any Plain (on_tree (on_db (blob e.hash)) s) h }

  write_file-Rendered :
      tmp_name e.path ≢ e.path
      → Runs Prepared (write_file e) (λ u s. Rendered sum256 e s.disk) AnyEnd
  unfolding write_file AnyEnd
  write_file-Rendered other =
      Runs-then _ _ (Runs-weaken _ (λ c s h. h) (λ s h. tt) (Runs-both _ load-Runs load-Plain))
        λ content. record {
          ends = λ s h.
              (Runs-then (on_disk (write_atomic e.path content e.mode)) (λ u. apply_meta e)
                  (on_disk-Runs _ (write-Runs content other h.0))
                  λ u. apply_meta-Rendered sum256 e).ends
                s h.1;
        }

  -- What `renderFile` has read: with a hash, what is there has it.
  abbrev Read : Result Text → Mirror → Type 0
  Read (ok h) s = Prepared s × HasHash sum256 e.path h s.disk
  Read (err x) s = Prepared s

  read_local-Read :
      (s : Mirror)
      → Prepared s
      → Read (read_local sum256 e.path s.disk).0 (on_disk (read_local sum256 e.path) s).1
  read_local-Read s h =
      let j = (read_local-At sum256 e.path (node_at e.path s.disk)).ends s.disk refl in
      let plain : IsPlain (node_at (tmp_name e.path) (read_local sum256 e.path s.disk).1) =
        subst IsPlain (sym (read_local-still sum256 e.path (tmp_name e.path) s.disk)) h.1 in
      elim (Result-cases (read_local sum256 e.path s.disk).0) [
        | inl (x, f) ↦ let (a, (n, b, c, k)) = (rw f at j) in rw f ((h.0, plain), (n, a ∙ b, c, k))
        | inr (x, f) ↦ rw f (h.0, plain)
      ]

  go_on-Rendered :
      tmp_name e.path ≢ e.path
      → (local : Result Text)
      → Runs
          (Read local)
          (if has_hash_already e.hash local
            then apply_meta e
            else lift (unless_missing local) >> write_file e)
          (λ u s. Rendered sum256 e s.disk)
          AnyEnd
  unfolding AnyEnd
  go_on-Rendered other (err x) =
      Runs-then _ _ (Runs-tests _ λ s h. tt) λ u. write_file-Rendered other
  go_on-Rendered other (ok h) =
      either-Runs (h == e.hash)
        (λ t. record {
          ends = λ s r.
              let same : h ≡ e.hash = ground (arith, t) in
              (apply_meta-Rendered sum256 e).ends s (r.1.0, r.1.1, r.1.2 ∙ same, r.1.3);
        })
        λ f.
          Runs-then _ _ (Runs-tests (λ s. ok tt) λ s r. tt)
            λ u. record { ends = λ s r. (write_file-Rendered other).ends s r.0 }

-- A file that `renderFile` reports as rendered is on disk as a regular file with the content that
-- the tree has for it, as its hash tells, and with its permission bits, whatever was there before
-- and whatever failed on the way to set the owner: the blobs of the store are stored under their
-- hashes, the scratch file's name is not the file's own, and nothing stands under it at first, or a
-- regular file or a directory.
pub render_file_renders :
    (sum256 : Text → Text) (e : Meta) (m : Mirror)
    → All (λ (b : BlobRow). hash_content sum256 b.content ≡ b.hash) m.tree.db.blobs
    → tmp_name e.path ≢ e.path
    → IsPlain (node_at (tmp_name e.path) m.disk)
    → (render_file sum256 e m).0 ≡ ok tt
    → IsRendered sum256 e (render_file sum256 e m).1.disk
unfolding render_file ◌>>=◌ AnyEnd
render_file_renders sum256 e m h other plain r =
    end_ok (λ u s. IsRendered sum256 e s.disk) (λ s. Unit) (render_file sum256 e m) tt r
      ((go_on-Rendered sum256 e other (read_local sum256 e.path m.disk).0).ends
        (on_disk (read_local sum256 e.path) m).1 (read_local-Read sum256 e m (h, plain)))
