-- ===== src/Mirror/Render/Keeping.antt =====
-- What `render` of internal/mirror/mirror.go keeps while it writes the entries out.
use distributed_configs_fs.Base.{
  ◌≡◌, refl, ◌≢◌, ◌⊎◌, inl, inr, Bool, true, false, Text, text_eq, nat_eq, List, [], ◌∷◌, All, map,
  ◌==◌, if◌then◌else◌,
}
use distributed_configs_fs.Core.Error.{Result, ok, err}
use distributed_configs_fs.Core.Entry.{Meta, kind_dir, kind_file}
use distributed_configs_fs.Effect.{Exec, reads, lift, pure, ◌>>=◌}
use distributed_configs_fs.Effect.Runs.{Runs, Runs-then, Runs-reads, Runs-modify, end_both, end_any}
use distributed_configs_fs.Store.State.{EntryRow, Db, meta, sql}
use distributed_configs_fs.Store.Table.Every.{All-select, All-order_by}
use distributed_configs_fs.Store.Ops.{get, live, blob, is_live, by_path}
use distributed_configs_fs.Store.Outcome.{sql-cases}
use distributed_configs_fs.Syncer.State.{on_db}
use distributed_configs_fs.Mirror.Names.{tmp_name}
use distributed_configs_fs.Mirror.Disk.{Disk, node_at}
use distributed_configs_fs.Mirror.Disk.Links.{Unled, Unled-none, Clear, Spares, Leaves-chmod}
use distributed_configs_fs.Mirror.Disk.Leaves.{
  Leaves-reads, Leaves-then, Leaves-lchown, Leaves-lstat, Leaves-read_file,
}
use distributed_configs_fs.Mirror.Write.Leaves.{Leaves-make_all, Leaves-write_atomic}
use distributed_configs_fs.Mirror.State.{Mirror, on_disk, on_tree, result_of, logged, is_inflight}
use distributed_configs_fs.Mirror.Render.{
  apply_meta, after_chown, render_dir, read_local, write_file, render_file, render_entry,
  render_entries, has_hash_already, unless_missing,
}

All-metas :
    (P : Meta → Type 0) (rows : List EntryRow) → All (λ r. P (meta r)) rows → All P (map meta rows)
All-metas P [] h = tt
All-metas P (r ∷ rows) h = (h.0, All-metas P rows h.1)

abbrev pub Rows : List EntryRow → Db → Type 0
Rows rows db = db.entries ≡ rows

module _ (rows : List EntryRow) where
  sql-Rows : Runs (Rows rows) sql (λ u. Rows rows) (Rows rows)
  sql-Rows = record {
    ends = λ db h. elim (sql-cases db) [ inl (fs, e) ↦ rw e h | inr (fs, e) ↦ rw e h ];
  }

  blob-Rows : (hash : Text) → Runs (Rows rows) (blob hash) (λ a. Rows rows) (Rows rows)
  unfolding blob
  blob-Rows hash =
      Runs-then _ _ sql-Rows
        λ u. Runs-then _ _ (Runs-reads _) λ r. Runs-then _ _ (Runs-reads _) λ b. Runs-reads _

  pub get-Rows : (p : Text) → Runs (Rows rows) (get p) (λ a. Rows rows) (Rows rows)
  unfolding get
  get-Rows p =
      Runs-then _ _ sql-Rows
        λ u. Runs-then _ _ (Runs-reads _) λ r. Runs-then _ _ (Runs-reads _) λ b. Runs-reads _

  pub live_same : Runs (Rows rows) live (λ es. Rows rows) (Rows rows)
  unfolding live
  live_same = Runs-then _ _ sql-Rows λ u. Runs-reads _

  pub live-Rows :
      (P : Meta → Type 0)
      → All (λ r. P (meta r)) rows
      → Runs (Rows rows) live (λ es db. Rows rows db × All P es) (Rows rows)
  unfolding live
  live-Rows P h = Runs-then _ _ sql-Rows λ u. record {
    ends =
        λ db e. (e, rw e (All-metas P _ (All-order_by _ by_path _ (All-select _ is_live rows h))));
  }

module _ (q : Text) (start : Mirror) where
  -- The path is as at the start, and so are the claims and the rows of the tree.
  abbrev pub Kept : Mirror → Type 0
  Kept m =
      Clear q (node_at q start.disk) m.disk
      × (m.inflight ≡ start.inflight)
      × (m.tree.db.entries ≡ start.tree.db.entries)

  abbrev pub Keeping : {A : Type 0} → Exec Mirror A → Type 0
  Keeping m = Runs Kept m (λ a. Kept) Kept

  pub then_Keeping :
      {A B : Type 0} (m : Exec Mirror A) (next : A → Exec Mirror B)
      → Keeping m
      → ((a : A) → Keeping (next a))
      → Keeping (m >>= next)
  then_Keeping m next k l = Runs-then m next k l

  pub reads_Keeping : {A : Type 0} (f : Mirror → Result A) → Keeping (reads f)
  reads_Keeping f = Runs-reads f

  pub if_Keeping :
      {A : Type 0} (b : Bool) {m n : Exec Mirror A}
      → (b ≡ true → Keeping m)
      → (b ≡ false → Keeping n)
      → Keeping (if b then m else n)
  if_Keeping true k l = k refl
  if_Keeping false k l = l refl

  pub logged-Keeping : {A : Type 0} (m : Exec Mirror A) → Keeping m → Keeping (logged m)
  logged-Keeping m k = record { ends = λ s h. end_both Kept (m s) (k.ends s h) }

  result_of-Keeping : {A : Type 0} (m : Exec Mirror A) → Keeping m → Keeping (result_of m)
  result_of-Keeping m k = record { ends = λ s h. end_both Kept (m s) (k.ends s h) }

  pub on_disk-Keeping :
      {A : Type 0} (m : Exec Disk A) → Spares q (node_at q start.disk) m → Keeping (on_disk m)
  on_disk-Keeping m k = record {
    ends = λ s h. end_any Kept (on_disk m s) (end_both _ (m s.disk) (k.ends s.disk h.0), h.1, h.2);
  }

  pub on_db-Keeping :
      {A : Type 0} (m : Exec Db A)
      → Runs
          (Rows start.tree.db.entries)
          m
          (λ a. Rows start.tree.db.entries)
          (Rows start.tree.db.entries)
      → Keeping (on_tree (on_db m))
  on_db-Keeping m k = record {
    ends = λ s h.
        end_any Kept (on_tree (on_db m) s)
          (h.0, h.1, end_both _ (m s.tree.db) (k.ends s.tree.db h.2));
  }

  module _ (e : Meta) (other : e.path ≢ q) (other' : tmp_name e.path ≢ q) where
    apply_meta-Keeping : Keeping (apply_meta e)
    unfolding apply_meta
    apply_meta-Keeping =
        then_Keeping _ _ (on_disk-Keeping _ (Leaves-chmod q _ e.path e.mode other)) λ u.
          then_Keeping _ _ (reads_Keeping _) λ can.
            then_Keeping _ _
              (if_Keeping can
                (λ c. result_of-Keeping _ (
                  on_disk-Keeping _
                    (Leaves-lchown q _ (Unled q) (Unled-none q) e.path other e.uid e.gid)))
                (λ c. reads_Keeping _))
              λ r. Runs-modify _ (chown_kept r)
      where
        chown_kept : (r : Result (Unit {0})) (m : Mirror) → Kept m → Kept (after_chown r m)
        chown_kept (ok u) m h = h
        chown_kept (err x) m h = h

    render_dir-Keeping : Keeping (render_dir e)
    unfolding render_dir
    render_dir-Keeping =
        then_Keeping _ _
          (on_disk-Keeping _ (Leaves-make_all q _ (Unled q) (Unled-none q) e.path e.mode))
          λ u. apply_meta-Keeping

    write_file-Keeping : Keeping (write_file e)
    unfolding write_file
    write_file-Keeping = then_Keeping _ _ (on_db-Keeping _ (blob-Rows _ e.hash)) λ content.
        then_Keeping _ _
          (on_disk-Keeping _ (Leaves-write_atomic q _ e.path content e.mode other other'))
          λ u. apply_meta-Keeping

    render_file-Keeping : (sum256 : Text → Text) → Keeping (render_file sum256 e)
    unfolding render_file read_local
    render_file-Keeping sum256 =
        then_Keeping _ _
          (result_of-Keeping _ (
            on_disk-Keeping _ (
              Leaves-then q _ (Unled q) (Unled-none q) _ _
                (Leaves-lstat q _ (Unled q) (Unled-none q) e.path)
                λ info.
                  Leaves-then q _ (Unled q) (Unled-none q) _ _
                    (Leaves-reads q _ (Unled q) (Unled-none q) _)
                    λ u.
                      Leaves-then q _ (Unled q) (Unled-none q) _ _
                        (Leaves-read_file q _ (Unled q) (Unled-none q) e.path)
                        λ c. Leaves-reads q _ (Unled q) (Unled-none q) _)))
          λ local.
            if_Keeping (has_hash_already e.hash local) (λ c. apply_meta-Keeping)
              λ c.
                then_Keeping (lift (unless_missing local)) (λ u. write_file e) (reads_Keeping _)
                  λ u. write_file-Keeping

  -- An entry that `render` may meet.
  abbrev pub May : Meta → Type 0
  May e = (tmp_name e.path ≢ q) × ((is_inflight q start ≡ true) ⊎ (e.path ≢ q))

  pub still_claimed :
      (m : Mirror) (p : Text) → Kept m → p ≡ q → is_inflight q start ≡ true → is_inflight p m ≡ true
  unfolding is_inflight
  still_claimed m p h e c = rw (e, h.1) c

  module _ (sum256 : Text → Text) where
    render_kind-Keeping :
        (e : Meta)
        → e.path ≢ q
        → tmp_name e.path ≢ q
        → Keeping (
            if e.kind == kind_dir
            then logged (render_dir e)
            else if e.kind == kind_file
            then logged (render_file sum256 e)
            else pure tt)
    render_kind-Keeping e other other' =
        if_Keeping (e.kind == kind_dir) (λ c. logged-Keeping _ (render_dir-Keeping e other other'))
          λ c.
            if_Keeping (e.kind == kind_file)
              (λ d. logged-Keeping _ (render_file-Keeping e other other' sum256))
              λ d. reads_Keeping _

    render_entry-Keeping : (e : Meta) → May e → Keeping (render_entry sum256 e)
    unfolding render_entry is_inflight ◌>>=◌
    render_entry-Keeping e may = elim (text_eq.dec e.path q) [
      | no n ↦ record {
        ends = λ m h.
            (if_Keeping (is_inflight e.path m) (λ c. reads_Keeping (λ s. ok tt))
                λ c. render_kind-Keeping e n may.0).ends
              m h;
      }
      | yes y ↦ record {
        ends = λ m h. elim may.1 [
          | inl c ↦ rw (still_claimed m e.path h y c) h
          | inr n ↦ absurd (n y)
        ];
      }
    ]

    pub render_entries-Keeping : (es : List Meta) → All May es → Keeping (render_entries sum256 es)
    unfolding render_entries
    render_entries-Keeping [] h = reads_Keeping _
    render_entries-Keeping (e ∷ es) h =
        then_Keeping _ _ (render_entry-Keeping e h.0) λ u. render_entries-Keeping es h.1
