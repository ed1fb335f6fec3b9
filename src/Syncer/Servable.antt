-- ===== src/Syncer/Servable.antt =====
-- The writes of internal/syncer/syncer.go and the content of the entries.
use distributed_configs_fs.Base.{
  ℕ, ◌+◌, refl, inl, inr, true, not, ◌||◌, ltz, Bool-cases, pos, Text, [], ◌∷◌, length, text_eq,
  nat_eq, arith,
}
use distributed_configs_fs.Core.Error.{Result-cases}
use distributed_configs_fs.Core.Entry.{Meta, zero_meta, hash_content, kind_file, kind_dir}
use distributed_configs_fs.Core.Clock.{Clock, tick}
use distributed_configs_fs.Core.Paths.{sanitize_path, sanitize_mode}
use distributed_configs_fs.Effect.{◌>>=◌}
use distributed_configs_fs.Store.Table.{take_row}
use distributed_configs_fs.Store.Outcome.{with_faults}
use distributed_configs_fs.Store.Ops.{at_path}
use distributed_configs_fs.Syncer.State.{Config, Service, clock_now, time_now}
use distributed_configs_fs.Syncer.Local.{
  commit, new_version, put_file, write_file, holds_file, put_dir, write_dir, holds_dir, set_attr,
  write_attr, same_attr, delete, write_tombstone,
}
use distributed_configs_fs.Syncer.Outcome.{
  in_db, current, lookup-cases, put_blob-cases, commit-cases, db-committed,
}
use distributed_configs_fs.Syncer.Content.{
  HasContent, IsServable, with_blob-HasContent, with_blob-IsServable, written-IsServable,
  current-HasContent,
}

-- Storing one entry whose content is at hand.
commit-IsServable :
    (cfg : Config) (m : Meta) (s : Service)
    → HasContent s.db m
    → IsServable s.db
    → IsServable (commit cfg (m ∷ []) s).1.db
commit-IsServable cfg m s h k = elim (commit-cases cfg m [] s) [
  | inl (fs, e) ↦ rw e k
  | inr (fs, e) ↦ rw (e, db-committed cfg m [] fs s) (written-IsServable (m ∷ []) fs s.db (h, tt) k)
]

module _ (sum256 : Text → Text) (cfg : Config) where
  write_file-IsServable :
      (path content : Text) (mode uid gid : ℕ) (cur : Meta) (s : Service)
      → IsServable s.db
      → IsServable (write_file sum256 cfg path content mode uid gid cur s).1.db
  unfolding write_file new_version clock_now ◌>>=◌
  write_file-IsServable path content mode uid gid cur s h =
      elim (put_blob-cases sum256 content s.db) [
        | inl (fs, e) ↦ rw e h
        | inr (fs, e) ↦
            let m : Meta = record zero_meta {
              path = path;
              kind = kind_file;
              hash = hash_content sum256 content;
              prev_hash = cur.hash;
              size = pos (length content);
              mode = mode;
              uid = uid;
              gid = gid;
              version = record { hlc = (tick s.clock).0; origin = cfg.node };
            } in
            rw e (
              commit-IsServable cfg m _
                (with_blob-HasContent sum256 content (with_faults fs s.db) m refl)
                (with_blob-IsServable sum256 content (with_faults fs s.db) h))
      ]

  pub put_file-IsServable :
      (path content : Text) (mode uid gid : ℕ) (s : Service)
      → IsServable s.db
      → IsServable (put_file sum256 cfg path content mode uid gid s).1.db
  unfolding put_file ◌>>=◌
  put_file-IsServable path content mode uid gid s h = elim (Result-cases (sanitize_path path)) [
    | inr (x, e) ↦ rw e h
    | inl (clean, e) ↦ elim (Bool-cases (ltz cfg.max_file_size (pos (length content)))) [
      | inl big ↦ rw (e, big) h
      | inr small ↦ elim (lookup-cases clean s) [
        | inl (fs, f) ↦ rw (e, small, f) h
        | inr (fs, f) ↦
            let (cur, have) = current (take_row (at_path clean) s.db.entries) in
            elim (Bool-cases
              (holds_file cur have (hash_content sum256 content) (sanitize_mode mode) uid gid)) [
                | inl held ↦ rw (e, small, f, held) h
                | inr new ↦
                    rw (e, small, f, new)
                      (write_file-IsServable clean content (sanitize_mode mode) uid gid cur
                        (in_db (with_faults fs s.db) s) h)
              ]
      ]
    ]
  ]

module _ (cfg : Config) where
  write_dir-IsServable :
      (path : Text) (mode uid gid : ℕ) (s : Service)
      → IsServable s.db
      → IsServable (write_dir cfg path mode uid gid s).1.db
  unfolding write_dir new_version clock_now ◌>>=◌
  write_dir-IsServable path mode uid gid s h =
      let m : Meta = record zero_meta {
        path = path;
        kind = kind_dir;
        mode = mode;
        uid = uid;
        gid = gid;
        version = record { hlc = (tick s.clock).0; origin = cfg.node };
      } in
      commit-IsServable cfg m (record s { clock = (tick s.clock).1 }) (ground arith) h

  write_tombstone-IsServable :
      (path : Text) (cur : Meta) (s : Service)
      → IsServable s.db
      → IsServable (write_tombstone cfg path cur s).1.db
  unfolding write_tombstone new_version clock_now time_now ◌>>=◌
  write_tombstone-IsServable path cur s h =
      let t : Clock = (tick s.clock).1 in
      let m : Meta = record zero_meta {
        path = path;
        kind = cur.kind;
        prev_hash = cur.hash;
        mode = cur.mode;
        uid = cur.uid;
        gid = cur.gid;
        version = record { hlc = (tick s.clock).0; origin = cfg.node };
        deleted = true;
        deleted_at = t.now t.reads;
      } in
      commit-IsServable cfg m (record s { clock = record t { reads = t.reads + 1 } }) (ground arith)
        h

  pub put_dir-IsServable :
      (path : Text) (mode uid gid : ℕ) (s : Service)
      → IsServable s.db
      → IsServable (put_dir cfg path mode uid gid s).1.db
  unfolding put_dir ◌>>=◌
  put_dir-IsServable path mode uid gid s h = elim (Result-cases (sanitize_path path)) [
    | inr (x, e) ↦ rw e h
    | inl (clean, e) ↦ elim (lookup-cases clean s) [
      | inl (fs, f) ↦ rw (e, f) h
      | inr (fs, f) ↦
          let (cur, have) = current (take_row (at_path clean) s.db.entries) in
          elim (Bool-cases (holds_dir cur have (sanitize_mode mode) uid gid)) [
            | inl held ↦ rw (e, f, held) h
            | inr new ↦
                rw (e, f, new)
                  (write_dir-IsServable clean (sanitize_mode mode) uid gid
                    (in_db (with_faults fs s.db) s) h)
          ]
    ]
  ]

  pub set_attr-IsServable :
      (path : Text) (mode uid gid : ℕ) (s : Service)
      → IsServable s.db
      → IsServable (set_attr cfg path mode uid gid s).1.db
  unfolding set_attr write_attr new_version clock_now ◌>>=◌
  set_attr-IsServable path mode uid gid s h = elim (Result-cases (sanitize_path path)) [
    | inr (x, e) ↦ rw e h
    | inl (clean, e) ↦ elim (lookup-cases clean s) [
      | inl (fs, f) ↦ rw (e, f) h
      | inr (fs, f) ↦
          let (cur, have) = current (take_row (at_path clean) s.db.entries) in
          elim (Bool-cases (not have || cur.deleted)) [
            | inl gone ↦ rw (e, f, gone) h
            | inr there ↦ elim (Bool-cases (same_attr cur (sanitize_mode mode) uid gid)) [
              | inl same ↦ rw (e, f, there, same) h
              | inr new ↦
                  rw (e, f, there, new)
                    (commit-IsServable cfg _
                      (record (in_db (with_faults fs s.db) s) { clock = (tick s.clock).1 })
                      (current-HasContent clean s.db h) h)
            ]
          ]
    ]
  ]

  pub delete-IsServable :
      (path : Text) (s : Service) → IsServable s.db → IsServable (delete cfg path s).1.db
  unfolding delete ◌>>=◌
  delete-IsServable path s h = elim (Result-cases (sanitize_path path)) [
    | inr (x, e) ↦ rw e h
    | inl (clean, e) ↦ elim (lookup-cases clean s) [
      | inl (fs, f) ↦ rw (e, f) h
      | inr (fs, f) ↦
          let (cur, have) = current (take_row (at_path clean) s.db.entries) in
          elim (Bool-cases (not have || cur.deleted)) [
            | inl gone ↦ rw (e, f, gone) h
            | inr there ↦
                rw (e, f, there)
                  (write_tombstone-IsServable clean cur (in_db (with_faults fs s.db) s) h)
          ]
    ]
  ]
