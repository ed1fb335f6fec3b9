-- ===== src/Syncer/Pull/Preserved.antt =====
-- applyRemote of internal/syncer/antientropy.go on a page with a conflicting entry.
use distributed_configs_fs.Base.{
  ℕ, ◌+◌, ◌-◌, ◌≡◌, refl, ◌≢◌, ◌∙◌, ap, sym, inl, inr, Bool, true, ltb, Bool-cases, ℤ, pos, Text,
  List, [], ◌∷◌, ◌++◌, length, length-append, text_eq, Option, none, some, arith,
}
use distributed_configs_fs.Core.Error.{ok}
use distributed_configs_fs.Core.Entry.{Meta, Timestamp}
use distributed_configs_fs.Core.Clock.{Observed, adopted, observe, tick}
use distributed_configs_fs.Core.Paths.{conflict_name}
use distributed_configs_fs.Effect.{◌>>=◌}
use distributed_configs_fs.Store.State.{Db, EntryRow, row_of, meta, transaction}
use distributed_configs_fs.Store.Table.{select, take_row}
use distributed_configs_fs.Store.Table.Keys.{count-is_some, take_row-upsert_all, key-take_row}
use distributed_configs_fs.Store.Outcome.{written, sql_succeeds}
use distributed_configs_fs.Store.Ops.{apply, apply_batch, stamp, has_blob, has_hash, at_path}
use distributed_configs_fs.Syncer.State.{Config, Service, PeerClient, clock_observe, clock_now}
use distributed_configs_fs.Syncer.Local.{commit, new_version}
use distributed_configs_fs.Syncer.Local.Ends.{current_at}
use distributed_configs_fs.Syncer.Outcome.{current, lookup_succeeds, committed, db-committed}
use distributed_configs_fs.Syncer.Resolve.{resolve, conflict}
use distributed_configs_fs.Syncer.Content.{HasContent}
use distributed_configs_fs.Syncer.Pull.{
  Page, new_page, advance, keep, needs_blob, is_ok, validate, ensure_blob, conflict_copy,
  fetch_or_defer, store_remote, decide, resolve_remote, apply_entry, apply_entries, commit_page,
  apply_remote,
}

pub apply_succeeds :
    (m : Meta) (ms : List Meta) (db : Db)
    → db.faults ≡ []
    → apply (m ∷ ms) db ≡ (ok (pos (db.seq + length (m ∷ ms))), written (m ∷ ms) db.faults db)
unfolding apply transaction apply_batch ◌>>=◌
apply_succeeds m ms db h =
    let back : db.seq + length (m ∷ ms) - length (m ∷ ms) ≡ db.seq = omega arith in
    rw (sql_succeeds db h, sql_succeeds (record db { seq = db.seq + length (m ∷ ms) }) h, back) refl

pub commit_succeeds :
    (cfg : Config) (m : Meta) (ms : List Meta) (s : Service)
    → s.db.faults ≡ []
    → commit cfg (m ∷ ms) s ≡ (ok tt, committed cfg (m ∷ ms) s.db.faults s)
unfolding commit ◌>>=◌
commit_succeeds cfg m ms s h = rw (apply_succeeds m ms s.db h) refl

module _ (sum256 : Text → Text) (cfg : Config) (peer : PeerClient) (addr : Text)
    (remote : Meta) where
  store_remote_held :
      (page : Page) (s : Service)
      → s.db.faults ≡ []
      → HasContent s.db remote
      → store_remote sum256 cfg peer addr remote page s ≡ (ok (keep remote page), s)
  unfolding store_remote ensure_blob has_blob fetch_or_defer ◌>>=◌
  store_remote_held page s h k = elim (Bool-cases (needs_blob remote)) [
    | inr plain ↦ rw plain refl
    | inl filed ↦
        let c = count-is_some (has_hash remote.hash) s.db.blobs in
        let there : ltb 0 (length (select (has_hash remote.hash) s.db.blobs)) ≡ true =
          ground arith in
        rw (filed, sql_succeeds s.db h, there) refl
  ]

  -- The copy of the entry that loses, stamped by the clock of the state.
  abbrev pub copy_of : Service → Meta
  copy_of s =
      let local : Meta = (current_at remote.path s).0 in
      record local {
        path = conflict_name local.path local.version.origin local.version.hlc.wall;
        prev_hash = [];
        seq = pos 0;
        version = record { hlc = (tick s.clock).0; origin = cfg.node };
      }

  abbrev pub next_tick : Service → Service
  next_tick s = record s { clock = (tick s.clock).1 }

  abbrev pub has_seen : Service → Service
  has_seen s = record s { clock = (observe s.clock remote.version.hlc).1 }

  abbrev page_of_two : Service → Page
  page_of_two s = keep remote (record new_page { batch = copy_of s ∷ []; conflict = 1 })

  resolve_remote_conflict :
      (o : Observed) (t : Timestamp) (s : Service)
      → s.db.faults ≡ []
      → o ≡ adopted t
      → resolve (current_at remote.path s).0 (current_at remote.path s).1 remote ≡ conflict
      → HasContent s.db remote
      → resolve_remote sum256 cfg peer addr remote new_page o s ≡ (ok (page_of_two s), next_tick s)
  unfolding resolve_remote decide conflict_copy new_version clock_now ◌>>=◌
  resolve_remote_conflict o t s f a c k =
      rw (a, lookup_succeeds remote.path s f, c)
        (store_remote_held (record new_page { batch = copy_of s ∷ []; conflict = 1 }) (next_tick s)
          f k)

  apply_entry_conflict :
      (t : Timestamp) (s : Service)
      → s.db.faults ≡ []
      → validate cfg remote ≡ ok tt
      → (observe s.clock remote.version.hlc).0 ≡ adopted t
      → resolve (current_at remote.path s).0 (current_at remote.path s).1 remote ≡ conflict
      → HasContent s.db remote
      → apply_entry sum256 cfg peer addr remote new_page s
        ≡ (ok (page_of_two (has_seen s)), next_tick (has_seen s))
  unfolding apply_entry clock_observe ◌>>=◌
  apply_entry_conflict t s f v a c k = rw v (resolve_remote_conflict _ t (has_seen s) f a c k)

  batch_of_two : (s : Service) → (page_of_two s).batch ≡ copy_of s ∷ remote ∷ []
  unfolding advance
  batch_of_two s = refl

  commit_two :
      (page : Page) (a b : Meta) (s : Service)
      → s.db.faults ≡ []
      → page.batch ≡ a ∷ b ∷ []
      → commit_page sum256 cfg peer page s
        ≡ (ok page.safe, committed cfg (a ∷ b ∷ []) s.db.faults s)
  unfolding commit_page ◌>>=◌
  commit_two page a b s f e = rw (e, commit_succeeds cfg a (b ∷ []) s f) refl

  apply_remote_conflict :
      (t : Timestamp) (s : Service)
      → s.db.faults ≡ []
      → validate cfg remote ≡ ok tt
      → (observe s.clock remote.version.hlc).0 ≡ adopted t
      → resolve (current_at remote.path s).0 (current_at remote.path s).1 remote ≡ conflict
      → HasContent s.db remote
      → apply_remote sum256 cfg peer addr (remote ∷ []) s ≡ (
        ok (page_of_two (has_seen s)).safe,
        committed cfg (copy_of (has_seen s) ∷ remote ∷ []) s.db.faults (next_tick (has_seen s)),
      )
  unfolding apply_remote apply_entries ◌>>=◌
  apply_remote_conflict t s f v a c k = rw (apply_entry_conflict t s f v a c k) (
      commit_two (page_of_two (has_seen s)) (copy_of (has_seen s)) remote (next_tick (has_seen s)) f
        (batch_of_two (has_seen s)))

longer : (p : Text) (c : ℕ) (x : Text) → p ++ (c ∷ x) ≢ p
longer p c x e =
    let same : length (p ++ (c ∷ x)) ≡ length p = ap (λ (t : Text). length t) e in
    absurd (omega (arith, length-append p (c ∷ x), same))

conflict_name-other : (p node : Text) (at : ℤ) → conflict_name p node at ≢ p
unfolding conflict_name
conflict_name-other p node at e = longer p _ _ e

-- Only an entry that is there can be in conflict, and it has its own path.
conflict_path :
    (o : Option EntryRow) (q : Text) (rows : List EntryRow) (remote : Meta)
    → take_row (at_path q) rows ≡ o
    → resolve (current o).0 (current o).1 remote ≡ conflict
    → (current o).0.path ≡ q
unfolding resolve meta
conflict_path none q rows remote e c = cc c
conflict_path (some r) q rows remote e c = key-take_row (λ (x : EntryRow). x.path) q rows e

-- Of two entries that are stored together, each is found at its path, provided that these differ.
two_found :
    (a b : Meta) (fs : List Bool) (db : Db)
    → a.path ≢ b.path
    → let rows = (written (a ∷ b ∷ []) fs db).entries in
      (take_row (at_path a.path) rows ≡ some (record (row_of a) { seq = pos (db.seq + 1) }))
      × (take_row (at_path b.path) rows ≡ some (record (row_of b) { seq = pos (db.seq + 1 + 1) }))
unfolding stamp row_of
two_found a b fs db n =
    let rows : List EntryRow = stamp db.seq (a ∷ b ∷ []) in
    let e = take_row-upsert_all (λ (x : EntryRow). x.path) a.path rows db.entries in
    let f = take_row-upsert_all (λ (x : EntryRow). x.path) b.path rows db.entries in
    (e ∙ ground arith, f ∙ ground arith)

module _ (sum256 : Text → Text) (cfg : Config) (peer : PeerClient) (addr : Text)
    (remote : Meta) where
  -- A page with one valid entry whose timestamp is adopted and whose content, if any, is at hand,
  -- and which `resolve` finds in conflict with the local entry, is applied without an error on a
  -- database that does not fail. Then the remote entry stands at its path, but for its position in
  -- the feed, and what stands beside it under the name of a conflict copy has the local content, is
  -- deleted if the local entry was, and is a write of this node.
  pub apply_remote_preserves :
      (t : Timestamp) (s : Service)
      → s.db.faults ≡ []
      → validate cfg remote ≡ ok tt
      → (observe s.clock remote.version.hlc).0 ≡ adopted t
      → resolve (current_at remote.path s).0 (current_at remote.path s).1 remote ≡ conflict
      → HasContent s.db remote
      → let local = (current_at remote.path s).0 in
        let end = apply_remote sum256 cfg peer addr (remote ∷ []) s in
        let beside =
          (current_at
            (conflict_name local.path local.version.origin local.version.hlc.wall)
            end.1).0 in
        (is_ok end.0 ≡ true)
        × (record (current_at remote.path end.1).0 { seq = remote.seq } ≡ remote)
        × (beside.hash ≡ local.hash)
        × (beside.deleted ≡ local.deleted)
        × (beside.version.origin ≡ cfg.node)
  unfolding meta row_of
  apply_remote_preserves t s f v a c k =
      let local : Meta = (current_at remote.path s).0 in
      let copied : Meta =
        copy_of sum256 cfg peer addr remote (has_seen sum256 cfg peer addr remote s) in
      let last : Service =
        next_tick sum256 cfg peer addr remote (has_seen sum256 cfg peer addr remote s) in
      let at : local.path ≡ remote.path = conflict_path _ remote.path s.db.entries remote refl c in
      let other : copied.path ≢ remote.path = λ e.
        conflict_name-other local.path local.version.origin local.version.hlc.wall (e ∙ sym at) in
      let (p, q) = two_found copied remote s.db.faults s.db other in
      rw
        (
          apply_remote_conflict sum256 cfg peer addr remote t s f v a c k,
          db-committed cfg copied (remote ∷ []) s.db.faults last,
          q,
          p,
        )
        (refl, refl, refl, refl, refl)
