-- ===== src/Syncer/Local/Ends.antt =====
-- How PutFile and Delete can end, with the state in which each end leaves the node.
use distributed_configs_fs.Base.{
  ℕ, ◌≡◌, refl, inl, inr, Bool, true, false, pos, ltz, Text, List, [], ◌∷◌, length, Bool-cases,
}
use distributed_configs_fs.Core.Error.{Result, ok, err, database}
use distributed_configs_fs.Core.Entry.{Meta, zero_meta, hash_content, kind_file}
use distributed_configs_fs.Core.Clock.{tick}
use distributed_configs_fs.Core.Paths.{sanitize_path, sanitize_mode}
use distributed_configs_fs.Effect.{◌>>=◌}
use distributed_configs_fs.Store.Table.{take_row}
use distributed_configs_fs.Store.Ops.{at_path}
use distributed_configs_fs.Store.Outcome.{with_faults}
use distributed_configs_fs.Syncer.State.{Config, Service, clock_now}
use distributed_configs_fs.Syncer.Local.{new_version, put_file, write_file, holds_file}
use distributed_configs_fs.Syncer.Outcome.{
  in_db, current, lookup-cases, with_blob, put_blob-cases, committed, commit-cases,
}

-- What the node holds at a path.
abbrev pub current_at : Text → Service → Meta × Bool
current_at path s = current (take_row (at_path path) s.db.entries)

-- The node after one reading of its clock.
abbrev pub ticked : Service → Service
ticked s = record s { clock = (tick s.clock).1 }

abbrev pub changed_faults : List Bool → Service → Service
changed_faults fs s = in_db (with_faults fs s.db) s

module _ (sum256 : Text → Text) (cfg : Config) (path content : Text) (mode uid gid : ℕ) where
  -- The entry that a write makes in a state.
  abbrev pub new_file : Meta → Service → Meta
  new_file cur s = record zero_meta {
    path = path;
    kind = kind_file;
    hash = hash_content sum256 content;
    prev_hash = cur.hash;
    size = pos (length content);
    mode = sanitize_mode mode;
    uid = uid;
    gid = gid;
    version = record { hlc = (tick s.clock).0; origin = cfg.node };
  }

  abbrev pub stored_blob : List Bool → Service → Service
  stored_blob fs s = in_db (with_blob sum256 content (with_faults fs s.db)) s

  -- The ends of a write of a canonical path.
  pub data FileEnd (s : Service) (end : Result (Unit {0}) × Service) : Type 0 where
    failed : (fs : List Bool) → end ≡ (err database, changed_faults fs s) → FileEnd s end
    unchanged :
        (fs : List Bool)
        → holds_file
            (current_at path s).0
            (current_at path s).1
            (hash_content sum256 content)
            (sanitize_mode mode)
            uid
            gid
          ≡ true
        → end ≡ (ok tt, changed_faults fs s)
        → FileEnd s end
    half :
        (fs gs : List Bool)
        → end ≡ (err database, changed_faults gs (ticked (stored_blob fs s)))
        → FileEnd s end
    stored :
        (fs gs : List Bool)
        → end ≡ (
          ok tt,
          committed cfg (new_file (current_at path s).0 s ∷ []) gs (ticked (stored_blob fs s)),
        )
        → FileEnd s end

  abbrev step_past : List Bool → List Bool → Service → Service
  step_past fs gs s = stored_blob gs (changed_faults fs s)

  write_file-end :
      (s : Service) (fs : List Bool)
      → FileEnd s (
          write_file sum256 cfg path content
            (sanitize_mode mode)
            uid
            gid
            (current_at path s).0
            (changed_faults fs s))
  unfolding write_file new_version clock_now ◌>>=◌
  write_file-end s fs = elim (put_blob-cases sum256 content (with_faults fs s.db)) [
    | inl (gs, e) ↦ failed gs (rw e)
    | inr (gs, e) ↦
        elim (commit-cases cfg (new_file (current_at path s).0 s) [] (ticked (step_past fs gs s))) [
          | inl (hs, f) ↦ half gs hs (rw (e, f))
          | inr (hs, f) ↦ stored gs hs (rw (e, f))
        ]
  ]

  -- A canonical path and a content within the limit: the write ends in one of the four ways.
  pub put_file-FileEnd :
      (s : Service)
      → sanitize_path path ≡ ok path
      → ltz cfg.max_file_size (pos (length content)) ≡ false
      → FileEnd s (put_file sum256 cfg path content mode uid gid s)
  unfolding put_file ◌>>=◌
  put_file-FileEnd s p q =
      rw (p, q)
        (elim (lookup-cases path s) [
          | inl (fs, e) ↦ rw e (failed fs refl)
          | inr (fs, e) ↦
              rw e
                (elim (Bool-cases (
                  holds_file (current_at path s).0 (current_at path s).1
                    (hash_content sum256 content) (sanitize_mode mode) uid gid)) [
                      | inl h ↦ rw h (unchanged fs h refl)
                      | inr h ↦ rw h (write_file-end s fs)
                    ])
        ])
