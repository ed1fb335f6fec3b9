-- ===== src/Syncer/Local/Live.antt =====
-- internal/syncer/syncer.go: writes that make no tombstone leave a path live that is live.
use distributed_configs_fs.Base.{
  ℕ, ◌≡◌, refl, inl, inr, Bool, true, false, Text, text_eq, [], ◌∷◌, Option, some, ◌==◌,
  if◌then◌else◌,
}
use distributed_configs_fs.Core.Error.{ok}
use distributed_configs_fs.Core.Entry.{Meta}
use distributed_configs_fs.Effect.{Exec, ◌>>=◌}
use distributed_configs_fs.Effect.Keeps.{Keeps, Keeps-reads, Keeps-then}
use distributed_configs_fs.Store.State.{EntryRow, Db, row_of, sql}
use distributed_configs_fs.Store.Table.{take_row}
use distributed_configs_fs.Store.Ops.{at_path, put_blob, get, live, blob}
use distributed_configs_fs.Store.Outcome.{sql-cases}
use distributed_configs_fs.Syncer.State.{Config, Service, on_db, clock_now}
use distributed_configs_fs.Syncer.Local.{
  lookup, commit, new_version, put_file, write_file, put_dir, write_dir,
}
use distributed_configs_fs.Syncer.Local.Writes.{take_row-written}
use distributed_configs_fs.Syncer.Outcome.{lookup-cases, commit-cases, db-committed, put_blob-cases}

-- The store has a row at the path, and it is no tombstone.
abbrev pub IsLive : Text → Service → Type 0
IsLive q s = (r : EntryRow) × (take_row (at_path q) s.db.entries ≡ some r) × (r.deleted ≡ false)

either_live :
    (b : Bool) (r : EntryRow) (o : Option EntryRow)
    → r.deleted ≡ false
    → ((x : EntryRow) × (o ≡ some x) × (x.deleted ≡ false))
    → (x : EntryRow) × ((if b then some r else o) ≡ some x) × (x.deleted ≡ false)
either_live true r o h k = (r, refl, h)
either_live false r o h k = k

module _ (q : Text) where
  if_IsLive :
      {A : Type 0} (b : Bool) {m n : Exec Service A}
      → Keeps (IsLive q) m
      → Keeps (IsLive q) n
      → Keeps (IsLive q) (if b then m else n)
  if_IsLive true k l = k
  if_IsLive false k l = l

  sql-IsLive :
      Keeps
        (λ (db : Db).
          (r : EntryRow) × (take_row (at_path q) db.entries ≡ some r) × (r.deleted ≡ false))
        sql
  sql-IsLive = record {
    still = λ db h. elim (sql-cases db) [ inl (fs, e) ↦ rw e h | inr (fs, e) ↦ rw e h ];
  }

  pub get-IsLive : (p : Text) → Keeps (IsLive q) (on_db (get p))
  unfolding get
  get-IsLive p = record {
    still = λ s h.
        (Keeps-then _ _ sql-IsLive λ u.
            Keeps-then _ _ (Keeps-reads _)
              λ r. Keeps-then _ _ (Keeps-reads _) λ m. Keeps-reads _).still
          s.db h;
  }

  pub live-IsLive : Keeps (IsLive q) (on_db live)
  unfolding live
  live-IsLive = record {
    still = λ s h. (Keeps-then _ _ sql-IsLive λ u. Keeps-reads _).still s.db h;
  }

  pub blob-IsLive : (hash : Text) → Keeps (IsLive q) (on_db (blob hash))
  unfolding blob
  blob-IsLive hash = record {
    still = λ s h.
        (Keeps-then _ _ sql-IsLive λ u.
            Keeps-then _ _ (Keeps-reads _)
              λ r. Keeps-then _ _ (Keeps-reads _) λ m. Keeps-reads _).still
          s.db h;
  }

  lookup-IsLive : (p : Text) → Keeps (IsLive q) (lookup p)
  lookup-IsLive p = record {
    still = λ s h. elim (lookup-cases p s) [ inl (fs, e) ↦ rw e h | inr (fs, e) ↦ rw e h ];
  }

  put_blob-IsLive :
      (sum256 : Text → Text) (content : Text) → Keeps (IsLive q) (on_db (put_blob sum256 content))
  put_blob-IsLive sum256 content = record {
    still = λ s h. elim (put_blob-cases sum256 content s.db) [
      | inl (fs, e) ↦ rw e h
      | inr (fs, e) ↦ rw e h
    ];
  }

  new_version-IsLive : (cfg : Config) → Keeps (IsLive q) (new_version cfg)
  unfolding new_version clock_now ◌>>=◌
  new_version-IsLive cfg = record { still = λ s h. h }

  commit-IsLive :
      (cfg : Config) (m : Meta) → m.deleted ≡ false → Keeps (IsLive q) (commit cfg (m ∷ []))
  unfolding row_of
  commit-IsLive cfg m live = record {
    still = λ s h. elim (commit-cases cfg m [] s) [
      | inl (fs, e) ↦ rw e h
      | inr (fs, e) ↦
          rw (e, db-committed cfg m [] fs s)
            (rw (take_row-written m fs s.db q) (either_live (m.path == q) _ _ live h))
    ];
  }

  pub put_file-IsLive :
      (sum256 : Text → Text) (cfg : Config) (path content : Text) (mode uid gid : ℕ)
      → Keeps (IsLive q) (put_file sum256 cfg path content mode uid gid)
  unfolding put_file write_file
  put_file-IsLive sum256 cfg path content mode uid gid = Keeps-then _ _ (Keeps-reads _) λ clean.
      Keeps-then _ _ (Keeps-reads _) λ u. Keeps-then _ _ (lookup-IsLive clean) λ cur.
        if_IsLive _ (Keeps-reads (λ s. ok tt)) (
          Keeps-then _ _ (put_blob-IsLive sum256 content)
            λ h. Keeps-then _ _ (new_version-IsLive cfg) λ v. commit-IsLive cfg _ refl)

  pub put_dir-IsLive :
      (cfg : Config) (path : Text) (mode uid gid : ℕ)
      → Keeps (IsLive q) (put_dir cfg path mode uid gid)
  unfolding put_dir write_dir
  put_dir-IsLive cfg path mode uid gid = Keeps-then _ _ (Keeps-reads _) λ clean.
      Keeps-then _ _ (lookup-IsLive clean) λ cur.
        if_IsLive _ (Keeps-reads (λ s. ok tt))
          (Keeps-then _ _ (new_version-IsLive cfg) λ v. commit-IsLive cfg _ refl)
