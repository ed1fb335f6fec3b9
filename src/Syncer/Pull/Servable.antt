-- ===== src/Syncer/Pull/Servable.antt =====
-- applyRemote of internal/syncer/antientropy.go: the content of the entries that it stores.
use distributed_configs_fs.Base.{
  ℕ, ◌≡◌, refl, inl, inr, ltz, ltb, Bool-cases, pos, Text, List, [], ◌∷◌, All, All-map, All-append,
  length, arith,
}
use distributed_configs_fs.Core.Error.{Result, ok, err, Result-cases}
use distributed_configs_fs.Core.Entry.{Meta, hash_content}
use distributed_configs_fs.Core.Clock.{Observed, adopted, clock_drift}
use distributed_configs_fs.Effect.{◌>>=◌}
use distributed_configs_fs.Store.State.{Db}
use distributed_configs_fs.Store.Table.{select}
use distributed_configs_fs.Store.Table.Keys.{count-is_some}
use distributed_configs_fs.Store.Outcome.{with_faults, sql-cases}
use distributed_configs_fs.Store.Ops.{has_blob, has_hash}
use distributed_configs_fs.Syncer.State.{Config, Service, PeerClient, clock_observe, clock_now}
use distributed_configs_fs.Syncer.Local.{new_version}
use distributed_configs_fs.Syncer.Outcome.{lookup-cases, put_blob-cases, commit-cases, db-committed}
use distributed_configs_fs.Syncer.Resolve.{Decision, skip, accept, conflict}
use distributed_configs_fs.Syncer.Content.{
  HasContent, IsServable, HasContent-with_blob, with_blob-HasContent, with_blob-IsServable,
  written-IsServable, current-HasContent,
}
use distributed_configs_fs.Syncer.Pull.{
  Page, new_page, advance, keep, needs_blob, is_ok, validate, fetch_blob, ensure_blob,
  conflict_copy, fetch_or_defer, store_remote, decide, resolve_remote, apply_entry, apply_entries,
  commit_page, apply_remote,
}

-- What the client checks of every blob before it hands it on.
abbrev pub IsVerified : (Text → Text) → PeerClient → Type 0
IsVerified sum256 peer =
    (n : ℕ) (addr hash content : Text)
    → peer.blob n addr hash ≡ ok content
    → hash_content sum256 content ≡ hash

-- The entries can be served, and so could those of the page.
abbrev Ready : Db → List Meta → Type 0
Ready db batch = IsServable db × All (HasContent db) batch

abbrev ReadyAfter : Result Page × Service → Type 0
ReadyAfter (ok p, s) = Ready s.db p.batch
ReadyAfter (err e, s) = IsServable s.db

batch-advance : (remote : Meta) (page : Page) → (advance remote page).batch ≡ page.batch
unfolding advance
batch-advance remote page = ground arith

module _ (sum256 : Text → Text) (cfg : Config) (peer : PeerClient) (v : IsVerified sum256 peer)
    (addr : Text) where
  -- After a fetch nothing is lost; if it succeeds, the content is there.
  abbrev AfterFetch : Meta → List Meta → Result (Unit {0}) × Service → Type 0
  AfterFetch remote batch (ok _, s) = Ready s.db batch × HasContent s.db remote
  AfterFetch remote batch (err e, s) = Ready s.db batch

  fetch_blob-AfterFetch :
      (remote : Meta) (batch : List Meta) (s : Service)
      → Ready s.db batch
      → AfterFetch remote batch (fetch_blob sum256 cfg peer addr remote.hash s)
  unfolding fetch_blob ◌>>=◌
  fetch_blob-AfterFetch remote batch s h =
      elim (Result-cases (peer.blob s.requests addr remote.hash)) [
        | inr (x, e) ↦ rw e h
        | inl (content, e) ↦ elim (Bool-cases (ltz cfg.max_file_size (pos (length content)))) [
          | inl big ↦ rw (e, big) h
          | inr small ↦ elim (put_blob-cases sum256 content s.db) [
            | inl (fs, f) ↦ rw (e, small, f) h
            | inr (fs, f) ↦
                rw (e, small, f)
                  (
                    (
                      with_blob-IsServable sum256 content (with_faults fs s.db) h.0,
                      All-map batch (λ m k. HasContent-with_blob sum256 content s.db m k) h.1,
                    ),
                    with_blob-HasContent sum256 content s.db remote
                        (v _ addr remote.hash content e),
                  )
          ]
        ]
      ]

  ensure_blob-AfterFetch :
      (remote : Meta) (batch : List Meta) (s : Service)
      → Ready s.db batch
      → AfterFetch remote batch (ensure_blob sum256 cfg peer addr remote.hash s)
  unfolding ensure_blob has_blob ◌>>=◌
  ensure_blob-AfterFetch remote batch s h = elim (sql-cases s.db) [
    | inl (fs, e) ↦ rw e h
    | inr (fs, e) ↦ elim (Bool-cases (ltb 0 (length (select (has_hash remote.hash) s.db.blobs)))) [
      | inl there ↦
          let c = count-is_some (has_hash remote.hash) s.db.blobs in rw (e, there) (h, ground arith)
      | inr absent ↦ rw (e, absent) (fetch_blob-AfterFetch remote batch _ h)
    ]
  ]

  keep-Ready :
      (remote : Meta) (page : Page) (db : Db)
      → Ready db page.batch
      → HasContent db remote
      → Ready db (keep remote page).batch
  keep-Ready remote page db h k =
      rw (batch-advance remote _) (h.0, All-append (HasContent db) page.batch remote h.1 k)

  store_remote-Ready :
      (remote : Meta) (page : Page) (s : Service)
      → Ready s.db page.batch
      → ReadyAfter (store_remote sum256 cfg peer addr remote page s)
  unfolding store_remote ◌>>=◌ fetch_or_defer
  store_remote-Ready remote page s h = elim (Bool-cases (needs_blob remote)) [
    | inr plain ↦ rw plain (keep-Ready remote page s.db h (rw plain refl))
    | inl filed ↦
        let f = ensure_blob-AfterFetch remote page.batch s h in
        elim (Result-cases (ensure_blob sum256 cfg peer addr remote.hash s).0) [
          | inl (u, e) ↦
              rw (filed, e)
                (let g = rw e at f in
                  keep-Ready remote page (ensure_blob sum256 cfg peer addr remote.hash s).1.db g.0
                    g.1)
          | inr (x, e) ↦ rw (filed, e) (let g = rw e at f in g)
        ]
  ]

  decide-Ready :
      (remote : Meta) (page : Page) (local : Meta) (d : Decision) (s : Service)
      → HasContent s.db local
      → Ready s.db page.batch
      → ReadyAfter (decide sum256 cfg peer addr remote page local d s)
  unfolding decide ◌>>=◌ conflict_copy new_version clock_now
  decide-Ready remote page local skip s k h = rw (batch-advance remote page) h
  decide-Ready remote page local accept s k h = store_remote-Ready remote page s h
  decide-Ready remote page local conflict s k h =
      store_remote-Ready remote _ _ (h.0, All-append (HasContent s.db) page.batch _ h.1 k)

  resolve_remote-Ready :
      (remote : Meta) (page : Page) (o : Observed) (s : Service)
      → Ready s.db page.batch
      → ReadyAfter (resolve_remote sum256 cfg peer addr remote page o s)
  unfolding resolve_remote ◌>>=◌
  resolve_remote-Ready remote page clock_drift s h = rw (batch-advance remote page) h
  resolve_remote-Ready remote page (adopted t) s h = elim (lookup-cases remote.path s) [
    | inl (fs, e) ↦ rw e h.0
    | inr (fs, e) ↦
        rw e (decide-Ready remote page _ _ _ (current-HasContent remote.path s.db h.0) h)
  ]

  apply_entry-Ready :
      (remote : Meta) (page : Page) (s : Service)
      → Ready s.db page.batch
      → ReadyAfter (apply_entry sum256 cfg peer addr remote page s)
  unfolding apply_entry clock_observe ◌>>=◌
  apply_entry-Ready remote page s h = elim (Bool-cases (is_ok (validate cfg remote))) [
    | inl e ↦ rw e (resolve_remote-Ready remote page _ _ h)
    | inr e ↦ rw (e, batch-advance remote page) h
  ]

  apply_entries-Ready :
      (entries : List Meta) (page : Page) (s : Service)
      → Ready s.db page.batch
      → ReadyAfter (apply_entries sum256 cfg peer addr entries page s)
  unfolding apply_entries ◌>>=◌
  apply_entries-Ready [] page s h = h
  apply_entries-Ready (m ∷ ms) page s h =
      let f = apply_entry-Ready m page s h in
      elim (Result-cases (apply_entry sum256 cfg peer addr m page s).0) [
        | inl (p, e) ↦ rw e (let g = rw e at f in apply_entries-Ready ms p _ g)
        | inr (x, e) ↦ rw e (let g = rw e at f in g)
      ]

  commit_batch-IsServable :
      (batch : List Meta) (page : Page) (s : Service)
      → page.batch ≡ batch
      → Ready s.db batch
      → IsServable (commit_page sum256 cfg peer page s).1.db
  unfolding commit_page ◌>>=◌
  commit_batch-IsServable [] page s b h = rw b h.0
  commit_batch-IsServable (m ∷ ms) page s b h = elim (commit-cases cfg m ms s) [
    | inl (fs, e) ↦ rw (b, e) h.0
    | inr (fs, e) ↦
        rw (b, e, db-committed cfg m ms fs s) (written-IsServable (m ∷ ms) fs s.db h.1 h.0)
  ]

  -- Whatever a peer serves whose blobs have been checked against their hashes, and whatever fails
  -- on the way: if every live file with a hash had its blob in the store before a page is applied,
  -- every such file has it afterwards.
  pub apply_remote-IsServable :
      (entries : List Meta) (s : Service)
      → IsServable s.db
      → IsServable (apply_remote sum256 cfg peer addr entries s).1.db
  unfolding apply_remote ◌>>=◌
  apply_remote-IsServable entries s h =
      let f = apply_entries-Ready entries new_page s (h, tt) in
      elim (Result-cases (apply_entries sum256 cfg peer addr entries new_page s).0) [
        | inl (p, e) ↦ rw e (let g = rw e at f in commit_batch-IsServable p.batch p _ refl g)
        | inr (x, e) ↦ rw e (let g = rw e at f in g)
      ]
