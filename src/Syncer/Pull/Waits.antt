-- ===== src/Syncer/Pull/Waits.antt =====
-- applyRemote of internal/syncer/antientropy.go: an entry whose content cannot be fetched.
use distributed_configs_fs.Base.{
  ◌≡◌, refl, ◌∙◌, inl, inr, true, ℤ, pos, ◌<ℤ◌, Text, List, ◌∷◌, ◌++◌, All,
}
use distributed_configs_fs.Core.Error.{Result, ok, err, Result-cases}
use distributed_configs_fs.Core.Entry.{Meta}
use distributed_configs_fs.Core.Clock.{adopted}
use distributed_configs_fs.Effect.{◌>>=◌}
use distributed_configs_fs.Syncer.State.{Config, Service, PeerClient, clock_observe}
use distributed_configs_fs.Syncer.Resolve.{Decision, skip, accept, conflict, resolve}
use distributed_configs_fs.Syncer.Pull.{
  Page, new_page, needs_blob, is_ok, validate, conflict_copy, fetch_or_defer, store_remote, decide,
  resolve_remote, apply_entry, apply_entries, apply_remote,
}
use distributed_configs_fs.Base.{ℕ, ltz, length, false, ltb, ◌≢◌}
use distributed_configs_fs.Core.Entry.{Timestamp}
use distributed_configs_fs.Core.Clock.{observe}
use distributed_configs_fs.Store.Table.{take_row, select}
use distributed_configs_fs.Store.Table.Keys.{is_some, count-is_some}
use distributed_configs_fs.Store.Outcome.{sql-cases}
use distributed_configs_fs.Store.Ops.{has_blob, has_hash}
use distributed_configs_fs.Syncer.Outcome.{lookup-cases}
use distributed_configs_fs.Syncer.Local.{new_version}
use distributed_configs_fs.Syncer.Local.Ends.{current_at}
use distributed_configs_fs.Syncer.State.{clock_now}
use distributed_configs_fs.Syncer.Pull.{fetch_blob, ensure_blob}
use distributed_configs_fs.Syncer.Pull.Bookmark.{
  Returns, apply_entries-append, apply_remote_excludes_deferred,
}

-- Nothing has been fetched.
abbrev Fails : Result (Unit {0}) → Type 0
Fails (ok u) = ⊥
Fails (err e) = Unit

module _ (sum256 : Text → Text) (cfg : Config) (peer : PeerClient) (addr : Text)
    (remote : Meta) where
  -- The peer does not hand the content over: each request for it fails, or what is sent is longer
  -- than the limit.
  abbrev pub IsWithheld : Type 0
  IsWithheld =
      (n : ℕ) (content : Text)
      → peer.blob n addr remote.hash ≡ ok content
      → ltz cfg.max_file_size (pos (length content)) ≡ true

  -- The store has no blob for the entry.
  abbrev pub IsAbsent : Service → Type 0
  IsAbsent s = is_some (take_row (has_hash remote.hash) s.db.blobs) ≡ false

  fetch_blob-Fails :
      (s : Service) → IsWithheld → Fails (fetch_blob sum256 cfg peer addr remote.hash s).0
  unfolding fetch_blob ◌>>=◌
  fetch_blob-Fails s w = elim (Result-cases (peer.blob s.requests addr remote.hash)) [
    | inl (c, e) ↦ let big = w s.requests c e in rw (e, big) tt
    | inr (x, e) ↦ rw e tt
  ]

  ensure_blob-Fails :
      (s : Service)
      → IsWithheld
      → IsAbsent s
      → Fails (ensure_blob sum256 cfg peer addr remote.hash s).0
  unfolding ensure_blob has_blob ◌>>=◌
  ensure_blob-Fails s w a = elim (sql-cases s.db) [
    | inl (fs, e) ↦ rw e tt
    | inr (fs, e) ↦
        let none_there : ltb 0 (length (select (has_hash remote.hash) s.db.blobs)) ≡ false =
          count-is_some (has_hash remote.hash) s.db.blobs ∙ a in
        rw (e, none_there) (fetch_blob-Fails _ w)
  ]

  abbrev Deferred : Result Page → Type 0
  Deferred = Returns (λ p. p.deferred ≡ true)

  store_remote-Deferred :
      (page : Page) (s : Service)
      → needs_blob remote ≡ true
      → IsWithheld
      → IsAbsent s
      → Deferred (store_remote sum256 cfg peer addr remote page s).0
  unfolding store_remote fetch_or_defer ◌>>=◌
  store_remote-Deferred page s n w a =
      let f = ensure_blob-Fails s w a in
      elim (Result-cases (ensure_blob sum256 cfg peer addr remote.hash s).0) [
        | inl (u, e) ↦ absurd (rw e at f)
        | inr (x, e) ↦ rw (n, e) refl
      ]

  decide-Deferred :
      (page : Page) (local : Meta) (d : Decision) (s : Service)
      → d ≢ skip
      → needs_blob remote ≡ true
      → IsWithheld
      → IsAbsent s
      → Deferred (decide sum256 cfg peer addr remote page local d s).0
  unfolding decide conflict_copy new_version clock_now ◌>>=◌
  decide-Deferred page local skip s d n w a = absurd (d refl)
  decide-Deferred page local accept s d n w a = store_remote-Deferred page s n w a
  decide-Deferred page local conflict s d n w a = store_remote-Deferred _ _ n w a

  resolve_remote-Deferred :
      (page : Page) (t : Timestamp) (s : Service)
      → resolve (current_at remote.path s).0 (current_at remote.path s).1 remote ≢ skip
      → needs_blob remote ≡ true
      → IsWithheld
      → IsAbsent s
      → Deferred (resolve_remote sum256 cfg peer addr remote page (adopted t) s).0
  unfolding resolve_remote ◌>>=◌
  resolve_remote-Deferred page t s d n w a = elim (lookup-cases remote.path s) [
    | inl (fs, e) ↦ rw e tt
    | inr (fs, e) ↦ rw e (decide-Deferred page _ _ _ d n w a)
  ]

  apply_entry-Deferred :
      (page : Page) (t : Timestamp) (s : Service)
      → is_ok (validate cfg remote) ≡ true
      → (observe s.clock remote.version.hlc).0 ≡ adopted t
      → resolve (current_at remote.path s).0 (current_at remote.path s).1 remote ≢ skip
      → needs_blob remote ≡ true
      → IsWithheld
      → IsAbsent s
      → Deferred (apply_entry sum256 cfg peer addr remote page s).0
  unfolding apply_entry clock_observe ◌>>=◌
  apply_entry-Deferred page t s v o d n w a = rw (v, o) (resolve_remote-Deferred page t _ d n w a)

  -- A page of a peer's feed holds, after entries of lower positions, an entry at a positive
  -- position that is valid and that the node, as it stands after the entries before it, would
  -- store: its timestamp is adopted and it is not skipped. Its content is not in the store, and the
  -- peer does not hand it over: each request fails, or what is sent is longer than the limit. If
  -- the page is applied without an error, the position that may be bookmarked is below that of the
  -- entry, whatever follows it in the page.
  pub apply_remote_waits :
      (before rest : List Meta) (s : Service) (t : Timestamp) (safe : ℤ)
      → All (λ m. m.seq <ℤ remote.seq) before
      → pos 0 <ℤ remote.seq
      → is_ok (validate cfg remote) ≡ true
      → needs_blob remote ≡ true
      → IsWithheld
      → let s1 = (apply_entries sum256 cfg peer addr before new_page s).1 in
        (observe s1.clock remote.version.hlc).0 ≡ adopted t
        → resolve (current_at remote.path s1).0 (current_at remote.path s1).1 remote ≢ skip
        → IsAbsent s1
        → (apply_remote sum256 cfg peer addr (before ++ remote ∷ rest) s).0 ≡ ok safe
        → safe <ℤ remote.seq
  unfolding apply_remote ◌>>=◌ apply_entries
  apply_remote_waits before rest s t safe h p v n w o d a e3 =
      let s1 : Service = (apply_entries sum256 cfg peer addr before new_page s).1 in
      elim (Result-cases (apply_entries sum256 cfg peer addr before new_page s).0) [
        | inr (x, e) ↦ cc (rw (apply_entries-append, e) at e3)
        | inl (page, e1) ↦
            let deferred = apply_entry-Deferred page t s1 v o d n w a in
            elim (Result-cases (apply_entry sum256 cfg peer addr remote page s1).0) [
              | inr (x, e) ↦ cc (rw (apply_entries-append, e1, e) at e3)
              | inl (next, e2) ↦
                  apply_remote_excludes_deferred sum256 cfg peer addr before rest remote s page next
                    safe h p e1 e2 (rw e2 at deferred) e3
            ]
      ]
