-- ===== src/Syncer/Local/Writes.antt =====
-- PutFile of internal/syncer/syncer.go: the entry and the other rows after a write, a second
-- offer of the same file, and failures.
use distributed_configs_fs.Base.{
  ℕ, ◌+◌, ◌≡◌, refl, ◌∙◌, ap, ◌≢◌, ◌⊎◌, inl, inr, Bool, true, false, pos, ltz, Text, List, [], ◌∷◌,
  length, some, arith, if◌then◌else◌, Bool-cases, text_eq, nat_eq, ◌==◌,
}
use distributed_configs_fs.Core.Error.{Error, Result, ok, err, Result-cases}
use distributed_configs_fs.Core.Paths.Canonical.{sanitize_path_exact}
use distributed_configs_fs.Effect.{◌>>=◌}
use distributed_configs_fs.Core.Entry.{Meta, hash_content, kind_file}
use distributed_configs_fs.Core.Paths.{sanitize_path, sanitize_mode}
use distributed_configs_fs.Store.State.{EntryRow, Db, row_of, meta}
use distributed_configs_fs.Store.Table.{take_row, upsert_all}
use distributed_configs_fs.Store.Table.Keys.{is_some, take_row-upsert}
use distributed_configs_fs.Store.Ops.{at_path, has_hash, stamp}
use distributed_configs_fs.Store.Outcome.{written}
use distributed_configs_fs.Syncer.State.{Config, Service}
use distributed_configs_fs.Syncer.Local.{put_file, holds_file}
use distributed_configs_fs.Syncer.Outcome.{committed, db-committed, lookup_succeeds}
use distributed_configs_fs.Syncer.Content.{HasContent, IsServable, current-HasContent}
use distributed_configs_fs.Syncer.Servable.{put_file-IsServable}
use distributed_configs_fs.Syncer.Local.Ends.{
  current_at, ticked, new_file, stored_blob, FileEnd, failed, unchanged, half, stored,
  put_file-FileEnd,
}

-- The row that a batch of one entry leaves behind.
abbrev pub row_at : ℕ → Meta → EntryRow
row_at position m = record (row_of m) { seq = pos position }

-- Storing one entry sets the row of its path and no other.
pub take_row-written :
    (m : Meta) (fs : List Bool) (db : Db) (q : Text)
    → take_row (at_path q) (written (m ∷ []) fs db).entries
      ≡ (if m.path == q then some (row_at (db.seq + 1) m) else take_row (at_path q) db.entries)
unfolding stamp upsert_all row_of
take_row-written m fs db q =
    take_row-upsert (λ (r : EntryRow). r.path) q (row_at (db.seq + 1) m) db.entries

-- The node holds the file at the path: an entry that is live, of the content, mode and owner.
abbrev pub HoldsFile : (Text → Text) → Text → Text → ℕ → ℕ → ℕ → Service → Type 0
HoldsFile sum256 path content mode uid gid t =
    let m = (current_at path t).0 in
    ((current_at path t).1 ≡ true)
    × (m.deleted ≡ false)
    × (m.kind ≡ kind_file)
    × (m.hash ≡ hash_content sum256 content)
    × (m.mode ≡ sanitize_mode mode)
    × (m.uid ≡ uid)
    × (m.gid ≡ gid)

-- The test of PutFile for a write that changes nothing.
pub held_file :
    (m : Meta) (have : Bool) (hash : Text) (mode uid gid : ℕ)
    → holds_file m have hash mode uid gid ≡ true
    → (have ≡ true)
      × (m.deleted ≡ false)
      × (m.kind ≡ kind_file)
      × (m.hash ≡ hash)
      × (m.mode ≡ mode)
      × (m.uid ≡ uid)
      × (m.gid ≡ gid)
unfolding holds_file
held_file m have hash mode uid gid h = (
  ground (arith, h),
  ground (arith, h),
  ground (arith, h),
  ground (arith, h),
  ground (arith, h),
  ground (arith, h),
  ground (arith, h),
)

pub file_held :
    (sum256 : Text → Text) (path content : Text) (mode uid gid : ℕ) (t : Service)
    → HoldsFile sum256 path content mode uid gid t
    → holds_file
        (current_at path t).0
        (current_at path t).1
        (hash_content sum256 content)
        (sanitize_mode mode)
        uid
        gid
      ≡ true
unfolding holds_file
file_held sum256 path content mode uid gid t (a, b, c, d, e, f, g) =
    rw (a, b, c, d, e, f, g) (ground arith)

module _ (sum256 : Text → Text) (cfg : Config) (path content : Text) (mode uid gid : ℕ)
    (s : Service) where
  abbrev Put : Result (Unit {0}) × Service
  Put = put_file sum256 cfg path content mode uid gid s

  abbrev Holds : Service → Type 0
  Holds = HoldsFile sum256 path content mode uid gid

  abbrev Others : Service → Type 0
  Others t =
      (q : Text) → q ≢ path → take_row (at_path q) t.db.entries ≡ take_row (at_path q) s.db.entries

  module _ (fs gs : List Bool) where
    abbrev pub entry : Meta
    entry = new_file sum256 cfg path content mode uid gid (current_at path s).0 s

    abbrev pub before : Service
    before = ticked (stored_blob sum256 cfg path content mode uid gid fs s)

    abbrev pub final : Service
    final = committed cfg (entry ∷ []) gs before

    pub row_of_final :
        (q : Text)
        → take_row (at_path q) final.db.entries ≡ (
            if path == q
            then some (row_at (s.db.seq + 1) entry)
            else take_row (at_path q) s.db.entries)
    row_of_final q =
        ap (λ (db : Db). take_row (at_path q) db.entries) (db-committed cfg entry [] gs before)
        ∙ take_row-written entry gs before.db q

    final-Holds : Holds final
    unfolding row_of meta
    final-Holds =
        let here : path == path ≡ true = ground arith in
        rw (row_of_final path, here) (refl, refl, refl, refl, refl, refl, refl)

    final-Others : Others final
    final-Others q h = rw (row_of_final q) (ground arith)

  -- A write that is not refused is of a canonical path and within the limit.
  pub put_file-accepts :
      Put.0 ≡ ok tt
      → (sanitize_path path ≡ ok path) × (ltz cfg.max_file_size (pos (length content)) ≡ false)
  unfolding put_file ◌>>=◌
  put_file-accepts h = elim (Result-cases (sanitize_path path)) [
    | inr (e, bad) ↦ cc (rw (bad, ◌>>=◌) at h)
    | inl (clean, good) ↦ elim (Bool-cases (ltz cfg.max_file_size (pos (length content)))) [
      | inl big ↦ cc (rw (good, big, ◌>>=◌) at h)
      | inr small ↦
          let same : clean ≡ path = ((sanitize_path_exact path clean).0 good).0 in
          (good ∙ ap ok same, small)
    ]
  ]

  end-Holds :
      (end : Result (Unit {0}) × Service)
      → FileEnd sum256 cfg path content mode uid gid s end
      → end.0 ≡ ok tt
      → Holds end.1 × Others end.1
  end-Holds end (failed fs e) h = cc (ap (λ r. r.0) e)
  end-Holds end (half fs gs e) h = cc (ap (λ r. r.0) e)
  end-Holds end (unchanged fs held e) h = rw e (held_file _ _ _ _ _ _ held, λ q n. refl)
  end-Holds end (stored fs gs e) h = rw e (final-Holds fs gs, final-Others fs gs)

pub put_file_held :
    (sum256 : Text → Text) (cfg : Config) (path content : Text) (mode uid gid : ℕ) (s : Service)
    → (put_file sum256 cfg path content mode uid gid s).0 ≡ ok tt
    → let t = (put_file sum256 cfg path content mode uid gid s).1 in
      HoldsFile sum256 path content mode uid gid t
      × ((q : Text)
          → q ≢ path
          → take_row (at_path q) t.db.entries ≡ take_row (at_path q) s.db.entries)
put_file_held sum256 cfg path content mode uid gid s h =
    let (clean, small) = put_file-accepts sum256 cfg path content mode uid gid s h in
    end-Holds sum256 cfg path content mode uid gid s _
      (put_file-FileEnd sum256 cfg path content mode uid gid s clean small) h

-- What a live file at a path needs is there.
held-blob :
    (sum256 : Text → Text) (path content : Text) (mode uid gid : ℕ) (t : Service)
    → hash_content sum256 content ≢ []
    → HoldsFile sum256 path content mode uid gid t
    → HasContent t.db (current_at path t).0
    → is_some (take_row (has_hash (hash_content sum256 content)) t.db.blobs) ≡ true
held-blob sum256 path content mode uid gid t n (a, b, c, d, e, f, g) h =
    let full : hash_content sum256 content == [] ≡ false = ground (arith, n) in
    let k = rw (b, c, d, full) at h in ground (arith, k)

-- On a node in whose store no live file lacks its blob, a write that succeeds, of content whose
-- hash is not the empty string, leaves at its path a live file with this hash, the mode, sanitized,
-- and the owner that were offered, and in the store a blob under this hash; it changes the row of
-- no other path.
pub put_file_holds :
    (sum256 : Text → Text) (cfg : Config) (path content : Text) (mode uid gid : ℕ) (s : Service)
    (q : Text)
    → hash_content sum256 content ≢ []
    → IsServable s.db
    → (put_file sum256 cfg path content mode uid gid s).0 ≡ ok tt
    → let t = (put_file sum256 cfg path content mode uid gid s).1 in
      HoldsFile sum256 path content mode uid gid t
      × (is_some (take_row (has_hash (hash_content sum256 content)) t.db.blobs) ≡ true)
      × ((q ≡ path) ⊎ (take_row (at_path q) t.db.entries ≡ take_row (at_path q) s.db.entries))
put_file_holds sum256 cfg path content mode uid gid s q n w h =
    let (held, others) = put_file_held sum256 cfg path content mode uid gid s h in
    let t : Service = (put_file sum256 cfg path content mode uid gid s).1 in
    (
      held,
      held-blob sum256 path content mode uid gid t n held (
          current-HasContent path t.db
            (put_file-IsServable sum256 cfg path content mode uid gid s w)),
      elim (text_eq.dec q path) [ yes e ↦ inl e | no m ↦ inr (others q m) ],
    )

put_file_again :
    (sum256 : Text → Text) (cfg : Config) (path content : Text) (mode uid gid : ℕ) (t : Service)
    → sanitize_path path ≡ ok path
    → ltz cfg.max_file_size (pos (length content)) ≡ false
    → HoldsFile sum256 path content mode uid gid t
    → t.db.faults ≡ []
    → put_file sum256 cfg path content mode uid gid t ≡ (ok tt, t)
unfolding put_file ◌>>=◌
put_file_again sum256 cfg path content mode uid gid t clean small h f =
    rw (clean, small)
      (rw (lookup_succeeds path t f) (rw (file_held sum256 path content mode uid gid t h)))

-- After a write that has succeeded, and where the database does not fail, offering the same file
-- again changes nothing at all: the clock stands still, no entry is stamped anew, nobody is woken
-- and nothing is announced.
pub put_file_twice :
    (sum256 : Text → Text) (cfg : Config) (path content : Text) (mode uid gid : ℕ) (s : Service)
    → (put_file sum256 cfg path content mode uid gid s).0 ≡ ok tt
    → let t = (put_file sum256 cfg path content mode uid gid s).1 in
      t.db.faults ≡ [] → put_file sum256 cfg path content mode uid gid t ≡ (ok tt, t)
put_file_twice sum256 cfg path content mode uid gid s h f =
    let (clean, small) = put_file-accepts sum256 cfg path content mode uid gid s h in
    put_file_again sum256 cfg path content mode uid gid _ clean small
      (put_file_held sum256 cfg path content mode uid gid s h).0 f

end-failure :
    (sum256 : Text → Text) (cfg : Config) (path content : Text) (mode uid gid : ℕ) (s : Service)
    (end : Result (Unit {0}) × Service) {e : Error}
    → FileEnd sum256 cfg path content mode uid gid s end
    → end.0 ≡ err e
    → (end.1.db.entries ≡ s.db.entries) × (end.1.announced ≡ s.announced) × (end.1.subs ≡ s.subs)
end-failure sum256 cfg path content mode uid gid s end (failed fs e) h = rw e (refl, refl, refl)
end-failure sum256 cfg path content mode uid gid s end (half fs gs e) h = rw e (refl, refl, refl)
end-failure sum256 cfg path content mode uid gid s end (unchanged fs held e) h =
    cc (ap (λ r. r.0) e)
end-failure sum256 cfg path content mode uid gid s end (stored fs gs e) h = cc (ap (λ r. r.0) e)

-- A write that fails, for whatever reason, changes no entry, announces nothing and wakes nobody.
pub put_file_failure :
    (sum256 : Text → Text) (cfg : Config) (path content : Text) (mode uid gid : ℕ) (s : Service)
    {e : Error}
    → (put_file sum256 cfg path content mode uid gid s).0 ≡ err e
    → let t = (put_file sum256 cfg path content mode uid gid s).1 in
      (t.db.entries ≡ s.db.entries) × (t.announced ≡ s.announced) × (t.subs ≡ s.subs)
unfolding put_file ◌>>=◌
put_file_failure sum256 cfg path content mode uid gid s h =
    elim (Result-cases (sanitize_path path)) [
      | inr (e, bad) ↦ rw (bad, ◌>>=◌) (refl, refl, refl)
      | inl (clean, good) ↦ elim (Bool-cases (ltz cfg.max_file_size (pos (length content)))) [
        | inl big ↦ rw (good, big, ◌>>=◌) (refl, refl, refl)
        | inr small ↦
            let same : clean ≡ path = ((sanitize_path_exact path clean).0 good).0 in
            end-failure sum256 cfg path content mode uid gid s _
              (put_file-FileEnd sum256 cfg path content mode uid gid s (good ∙ ap ok same) small) h
      ]
    ]
