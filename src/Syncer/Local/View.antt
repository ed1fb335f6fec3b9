-- ===== src/Syncer/Local/View.antt =====
-- The live files of a node as a map from paths to files, and what PutFile of
-- internal/syncer/syncer.go does to it.
use native.Mathlib.Decide.{ℕ_discrete}
use distributed_configs_fs.Base.{
  ℕ, ◌≡◌, refl, sym, ◌∙◌, ap, inl, inr, Bool, true, false, not, ◌&&◌, pos, ltz, Text, text_eq,
  nat_eq, List, [], ◌∷◌, length, ◌==◌, Option, none, some, if◌then◌else◌, Bool-cases, arith,
}
use distributed_configs_fs.Core.Error.{Error, ok, err, Result-cases}
use distributed_configs_fs.Core.Entry.{Meta, kind_file, hash_content}
use distributed_configs_fs.Core.Paths.{sanitize_path, sanitize_mode}
use distributed_configs_fs.Core.Paths.Canonical.{sanitize_path_exact}
use distributed_configs_fs.Effect.{◌>>=◌}
use distributed_configs_fs.Store.State.{Db, row_of, meta}
use distributed_configs_fs.Store.Ops.{put_blob}
use distributed_configs_fs.Store.Outcome.{sql_succeeds}
use distributed_configs_fs.Syncer.State.{Config, Service, clock_now}
use distributed_configs_fs.Syncer.Local.{put_file, write_file, holds_file, delete, new_version}
use distributed_configs_fs.Syncer.Local.Ends.{current_at, ticked, new_file, stored_blob}
use distributed_configs_fs.Syncer.Local.Writes.{final, row_of_final}
use distributed_configs_fs.Syncer.Outcome.{db-committed, lookup_succeeds}
use distributed_configs_fs.Syncer.Pull.{is_ok}
use distributed_configs_fs.Syncer.Pull.Preserved.{commit_succeeds}

-- A file as a user of the tree sees it.
pub record File : Type 0 where
  pub hash : Text
  pub mode : ℕ
  pub uid : ℕ
  pub gid : ℕ

abbrev pub file_of : Meta × Bool → Option File
file_of (m, have) =
    if have && not m.deleted && m.kind == kind_file
    then some (record { hash = m.hash; mode = m.mode; uid = m.uid; gid = m.gid })
    else none

-- The live file at a path of a node.
abbrev pub view : Service → Text → Option File
view s q = file_of (current_at q s)

unfoldable pub accepts : Text → Bool
accepts path = is_ok (sanitize_path path)

pub accepted : (path clean : Text) → sanitize_path path ≡ ok clean → accepts path ≡ true
unfolding accepts
accepted path clean e = ap is_ok e

pub refused : (path : Text) (x : Error) → sanitize_path path ≡ err x → accepts path ≡ false
unfolding accepts
refused path x e = ap is_ok e

pub data Command : Type 0 where
  put_command : (path content : Text) (mode uid gid : ℕ) → Command
  delete_command : Text → Command

module _ (sum256 : Text → Text) (cfg : Config) where
  unfoldable pub run_command : Command → Service → Service
  run_command (put_command path content mode uid gid) s =
      (put_file sum256 cfg path content mode uid gid s).1
  run_command (delete_command path) s = (delete cfg path s).1

  unfoldable pub run_commands : List Command → Service → Service
  run_commands [] s = s
  run_commands (c ∷ cs) s = run_commands cs (run_command c s)

  -- The same on a map: a path that is refused and a content over the limit change nothing.
  unfoldable pub on_map : Command → (Text → Option File) → Text → Option File
  on_map (put_command path content mode uid gid) files q =
      if accepts path && not (ltz cfg.max_file_size (pos (length content))) && path == q
      then some (record {
        hash = hash_content sum256 content;
        mode = sanitize_mode mode;
        uid = uid;
        gid = gid;
      })
      else files q
  on_map (delete_command path) files q = if accepts path && path == q then none else files q

  unfoldable pub all_on_map : List Command → (Text → Option File) → Text → Option File
  all_on_map [] files = files
  all_on_map (c ∷ cs) files = all_on_map cs (on_map c files)

  write_file_succeeds :
      (path content : Text) (mode uid gid : ℕ) (s : Service)
      → s.db.faults ≡ []
      → write_file sum256 cfg path content (sanitize_mode mode) uid gid (current_at path s).0 s
        ≡ (ok tt, final sum256 cfg path content mode uid gid s s.db.faults s.db.faults)
  unfolding write_file put_blob new_version clock_now ◌>>=◌
  write_file_succeeds path content mode uid gid s f = rw (sql_succeeds s.db f) (
      rw
        (commit_succeeds cfg (new_file sum256 cfg path content mode uid gid (current_at path s).0 s)
          [] (ticked (stored_blob sum256 cfg path content mode uid gid s.db.faults s)) f)
        refl)

  module _ (path content : Text) (mode uid gid : ℕ) (s : Service) (q : Text) where
    abbrev new_view : File
    new_view = record {
      hash = hash_content sum256 content;
      mode = sanitize_mode mode;
      uid = uid;
      gid = gid;
    }

    view_held :
        (cur : Meta × Bool)
        → holds_file cur.0 cur.1 (hash_content sum256 content) (sanitize_mode mode) uid gid ≡ true
        → file_of cur ≡ some new_view
    unfolding holds_file
    view_held (m, have) h =
        let there : have ≡ true = ground (arith, h) in
        let live : m.deleted ≡ false = ground (arith, h) in
        let kind : m.kind == kind_file ≡ true = ground (arith, h) in
        let hash : m.hash ≡ hash_content sum256 content = ground (arith, h) in
        let modes : m.mode ≡ sanitize_mode mode = ground (arith, h) in
        let uids : m.uid ≡ uid = ground (arith, h) in
        let gids : m.gid ≡ gid = ground (arith, h) in
        rw (there, live, kind) (rw (hash, modes, uids, gids) refl)

    held_q :
        holds_file
            (current_at path s).0
            (current_at path s).1
            (hash_content sum256 content)
            (sanitize_mode mode)
            uid
            gid
          ≡ true
        → view s q ≡ (if path == q then some new_view else view s q)
    held_q h = elim (text_eq.dec path q) [
      | yes y ↦
          let e : path == q ≡ true = ground (arith, y) in
          rw e (rw (sym y) (view_held (current_at path s) h))
      | no n ↦ let e : path == q ≡ false = ground (arith, n) in rw e refl
    ]

    stored_q :
        (fs gs : List Bool)
        → view (final sum256 cfg path content mode uid gid s fs gs) q
          ≡ (if path == q then some new_view else view s q)
    unfolding row_of meta ℕ_discrete
    stored_q fs gs = elim (Bool-cases (path == q)) [
      | inl e ↦ rw (row_of_final sum256 cfg path content mode uid gid s fs gs q, e) refl
      | inr e ↦ rw (row_of_final sum256 cfg path content mode uid gid s fs gs q, e) refl
    ]

    pub put_view :
        s.db.faults ≡ []
        → view (put_file sum256 cfg path content mode uid gid s).1 q
          ≡ on_map (put_command path content mode uid gid) (view s) q
    unfolding put_file on_map ◌>>=◌
    put_view f = elim (Result-cases (sanitize_path path)) [
      | inr (e, bad) ↦ rw (bad, refused path e bad) refl
      | inl (clean, good) ↦
          let p : sanitize_path path ≡ ok path =
            good ∙ ap ok ((sanitize_path_exact path clean).0 good).0 in
          let a = accepted path path p in
          elim (Bool-cases (ltz cfg.max_file_size (pos (length content)))) [
            | inl big ↦ rw (p, a, big) refl
            | inr small ↦
                rw (p, a, small)
                  (rw (lookup_succeeds path s f)
                    (elim (Bool-cases (
                      holds_file (current_at path s).0 (current_at path s).1
                        (hash_content sum256 content) (sanitize_mode mode) uid gid)) [
                          | inl h ↦ rw h (held_q h)
                          | inr h ↦
                              rw (h, write_file_succeeds path content mode uid gid s f)
                                (stored_q s.db.faults s.db.faults)
                        ]))
          ]
    ]

    pub put_faults :
        s.db.faults ≡ [] → (put_file sum256 cfg path content mode uid gid s).1.db.faults ≡ []
    unfolding put_file ◌>>=◌
    put_faults f = elim (Result-cases (sanitize_path path)) [
      | inr (e, bad) ↦ rw bad f
      | inl (clean, good) ↦
          let p : sanitize_path path ≡ ok path =
            good ∙ ap ok ((sanitize_path_exact path clean).0 good).0 in
          elim (Bool-cases (ltz cfg.max_file_size (pos (length content)))) [
            | inl big ↦ rw (p, big) f
            | inr small ↦
                rw (p, small)
                  (rw (lookup_succeeds path s f)
                    (elim (Bool-cases (
                      holds_file (current_at path s).0 (current_at path s).1
                        (hash_content sum256 content) (sanitize_mode mode) uid gid)) [
                          | inl h ↦ rw h f
                          | inr h ↦
                              rw (h, write_file_succeeds path content mode uid gid s f)
                                (ap (λ (db : Db). db.faults)
                                    (db-committed cfg
                                      (new_file sum256 cfg path content mode uid gid
                                        (current_at path s).0 s)
                                      [] s.db.faults
                                      (ticked (
                                        stored_blob sum256 cfg path content mode uid gid s.db.faults
                                          s)))
                                  ∙ f)
                        ]))
          ]
    ]
