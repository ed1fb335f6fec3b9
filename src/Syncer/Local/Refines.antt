-- ===== src/Syncer/Local/Refines.antt =====
-- PutFile and Delete of internal/syncer/syncer.go implement a map from paths to files.
use mathlib.Core.Path.{fun_ext}
use distributed_configs_fs.Base.{
  ◌+◌, ◌≡◌, refl, sym, ◌∙◌, ap, inl, inr, Bool, true, false, not, ◌||◌, Text, text_eq, nat_eq, List,
  [], ◌∷◌, ◌==◌, none, if◌then◌else◌, Bool-cases, arith,
}
use distributed_configs_fs.Core.Error.{ok, Result-cases}
use distributed_configs_fs.Core.Clock.{tick}
use distributed_configs_fs.Core.Entry.{Meta, zero_meta}
use distributed_configs_fs.Core.Paths.{sanitize_path}
use distributed_configs_fs.Core.Paths.Canonical.{sanitize_path_exact}
use distributed_configs_fs.Effect.{◌>>=◌}
use distributed_configs_fs.Store.State.{Db, row_of, meta}
use distributed_configs_fs.Syncer.State.{Config, Service, clock_now, time_now}
use distributed_configs_fs.Syncer.Local.{delete, write_tombstone, new_version}
use distributed_configs_fs.Syncer.Local.Ends.{current_at}
use distributed_configs_fs.Syncer.Local.Writes.{take_row-written}
use distributed_configs_fs.Syncer.Outcome.{committed, db-committed, lookup_succeeds}
use distributed_configs_fs.Syncer.Pull.Preserved.{commit_succeeds}
use distributed_configs_fs.Syncer.Local.View.{
  file_of, view, accepted, refused, Command, put_command, delete_command, run_command, run_commands,
  on_map, all_on_map, put_view, put_faults,
}

module _ (sum256 : Text → Text) (cfg : Config) where
  module _ (path : Text) (s : Service) where
    abbrev tombstone : Meta → Meta
    tombstone cur = record zero_meta {
      path = path;
      kind = cur.kind;
      prev_hash = cur.hash;
      mode = cur.mode;
      uid = cur.uid;
      gid = cur.gid;
      version = record { hlc = (tick s.clock).0; origin = cfg.node };
      deleted = true;
      deleted_at = (tick s.clock).1.now (tick s.clock).1.reads;
    }

    abbrev read_twice : Service
    read_twice = record s { clock = record (tick s.clock).1 { reads = (tick s.clock).1.reads + 1 } }

    abbrev removed : Meta → Service
    removed cur = committed cfg (tombstone cur ∷ []) s.db.faults read_twice

    write_tombstone_succeeds :
        (cur : Meta) → s.db.faults ≡ [] → write_tombstone cfg path cur s ≡ (ok tt, removed cur)
    unfolding write_tombstone new_version clock_now time_now ◌>>=◌
    write_tombstone_succeeds cur f = rw (commit_succeeds cfg (tombstone cur) [] read_twice f) refl

    gone_q : (cur : Meta) (q : Text) → view (removed cur) q ≡ (if path == q then none else view s q)
    unfolding row_of meta
    gone_q cur q = elim (Bool-cases (path == q)) [
      | inl e ↦
          rw
            (
              db-committed cfg (tombstone cur) [] s.db.faults read_twice,
              take_row-written (tombstone cur) s.db.faults read_twice.db q,
              e,
            )
            refl
      | inr e ↦
          rw
            (
              db-committed cfg (tombstone cur) [] s.db.faults read_twice,
              take_row-written (tombstone cur) s.db.faults read_twice.db q,
              e,
            )
            refl
    ]

    absent : (cur : Meta × Bool) → not cur.1 || cur.0.deleted ≡ true → file_of cur ≡ none
    absent (m, have) h = ground (arith, h)

    absent_q :
        (q : Text)
        → not (current_at path s).1 || (current_at path s).0.deleted ≡ true
        → view s q ≡ (if path == q then none else view s q)
    absent_q q h = elim (text_eq.dec path q) [
      | yes y ↦
          let e : path == q ≡ true = ground (arith, y) in
          rw e (rw (sym y) (absent (current_at path s) h))
      | no n ↦ let e : path == q ≡ false = ground (arith, n) in rw e refl
    ]

    view-delete :
        (q : Text)
        → s.db.faults ≡ []
        → view (delete cfg path s).1 q ≡ on_map sum256 cfg (delete_command path) (view s) q
    unfolding delete on_map ◌>>=◌
    view-delete q f = elim (Result-cases (sanitize_path path)) [
      | inr (e, bad) ↦ rw (bad, refused path e bad) refl
      | inl (clean, good) ↦
          let p : sanitize_path path ≡ ok path =
            good ∙ ap ok ((sanitize_path_exact path clean).0 good).0 in
          let a = accepted path path p in
          rw (p, a)
            (rw (lookup_succeeds path s f)
              (elim (Bool-cases (not (current_at path s).1 || (current_at path s).0.deleted)) [
                | inl h ↦ rw h (absent_q q h)
                | inr h ↦
                    rw (h, write_tombstone_succeeds (current_at path s).0 f)
                      (gone_q (current_at path s).0 q)
              ]))
    ]

    delete_faults : s.db.faults ≡ [] → (delete cfg path s).1.db.faults ≡ []
    unfolding delete ◌>>=◌
    delete_faults f = elim (Result-cases (sanitize_path path)) [
      | inr (e, bad) ↦ rw bad f
      | inl (clean, good) ↦
          let p : sanitize_path path ≡ ok path =
            good ∙ ap ok ((sanitize_path_exact path clean).0 good).0 in
          rw p (
            rw (lookup_succeeds path s f)
              (elim (Bool-cases (not (current_at path s).1 || (current_at path s).0.deleted)) [
                | inl h ↦ rw h f
                | inr h ↦
                    rw (h, write_tombstone_succeeds (current_at path s).0 f)
                      (ap (λ (db : Db). db.faults)
                          (db-committed cfg (tombstone (current_at path s).0) [] s.db.faults
                            read_twice)
                        ∙ f)
              ]))
    ]

  command_view :
      (c : Command) (s : Service)
      → s.db.faults ≡ []
      → (view (run_command sum256 cfg c s) ≡ on_map sum256 cfg c (view s))
        × ((run_command sum256 cfg c s).db.faults ≡ [])
  unfolding run_command
  command_view (put_command path content mode uid gid) s f = (
    fun_ext λ q. put_view sum256 cfg path content mode uid gid s q f,
    put_faults sum256 cfg path content mode uid gid s [] f,
  )
  command_view (delete_command path) s f =
      (fun_ext λ q. view-delete path s q f, delete_faults path s f)

  -- On a database that does not fail, any sequence of writes and deletions of files does to the
  -- live files of a node what it does to a map from paths to files: a write puts the file with its
  -- hash, its sanitized mode and its owner in place, a deletion takes it away, and one that is
  -- refused changes nothing.
  pub run_commands_refines :
      (cs : List Command) (s : Service)
      → s.db.faults ≡ []
      → view (run_commands sum256 cfg cs s) ≡ all_on_map sum256 cfg cs (view s)
  unfolding run_commands all_on_map
  run_commands_refines [] s f = refl
  run_commands_refines (c ∷ cs) s f =
      let (same, steady) = command_view c s f in
      run_commands_refines cs (run_command sum256 cfg c s) steady
      ∙ ap (all_on_map sum256 cfg cs) same
