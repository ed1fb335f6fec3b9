-- ===== src/Syncer/Pull.antt =====
-- internal/syncer/antientropy.go: applying what a peer serves.
pub mod Bookmark
pub mod Waits
pub mod Servable
pub mod Preserved
pub mod Terminates
use distributed_configs_fs.Base.{
  ℕ, zero, suc, ◌+◌, Bool, true, false, not, ◌&&◌, ◌||◌, ℤ, pos, ltz, ltb, leb, maxz, ◌-ℤ◌, wrap64,
  Text, List, [], ◌∷◌, ◌++◌, length, ◌==◌, nat_eq, text_eq, if◌then◌else◌,
}
use distributed_configs_fs.Core.Error.{Error, Result, ok, err, invalid, too_large, guard}
use distributed_configs_fs.Core.Entry.{Meta, Timestamp, valid, kind_file, kind_dir}
use distributed_configs_fs.Core.Clock.{Observed, adopted, clock_drift}
use distributed_configs_fs.Core.Paths.{sanitize_path, conflict_name}
use distributed_configs_fs.Effect.{Exec, pure, lift, gets, modify, ensure, ◌>>=◌, ◌>>◌}
use distributed_configs_fs.Store.Ops.{
  Summary, has_blob, put_blob, peer_seq, set_peer_seq, gc_tombstones, gc_blobs,
}
use distributed_configs_fs.Store.Ops
use distributed_configs_fs.Store.Table
use distributed_configs_fs.Syncer.State.{
  Config, Service, PeerClient, DigestResponse, ManifestResponse, on_db, request, attempt,
  clock_observe, time_now,
}
use distributed_configs_fs.Syncer.Local.{lookup, commit, new_version}
use distributed_configs_fs.Syncer.Resolve.{Decision, skip, accept, conflict, resolve}

-- A character that encoding/hex decodes, in either case.
abbrev pub is_hex : ℕ → Bool
is_hex c = leb b'0' c && leb c b'9' || leb b'a' c && leb c b'f' || leb b'A' c && leb c b'F'

unfoldable pub all_hex : Text → Bool
all_hex [] = true
all_hex (c ∷ s) = is_hex c && all_hex s

-- The checks on a hash that is not empty.
hash_is_well_formed : Text → Bool
unfolding all_hex
hash_is_well_formed hash = hash == [] || length hash == 64 && all_hex hash

module _ (cfg : Config) where
  unfoldable pub validate : Meta → Result (Unit {0})
  unfolding valid hash_is_well_formed
  validate m = elim (sanitize_path m.path) [
    | err e ↦ err e
    | ok _ ↦
        if not (valid m.kind)
        then err invalid
        else if m.version.origin == []
        then err invalid
        else if ltz cfg.max_file_size m.size
        then err too_large
        else if not (hash_is_well_formed m.hash)
        then err invalid
        else if m.kind == kind_dir && not (m.hash == [])
        then err invalid
        else ok tt
  ]

abbrev pub is_ok {ℓ} : {A : Type ℓ} → Result A → Bool
is_ok (ok a) = true
is_ok (err e) = false

-- The page under way: the entries to store, the conflicts seen, the feed position that may be
-- bookmarked, and whether an entry has been deferred.
pub record Page : Type 0 where
  pub batch : List Meta
  pub conflict : ℕ
  pub safe : ℤ
  pub deferred : Bool

abbrev pub new_page : Page
new_page = record { batch = []; conflict = 0; safe = pos 0; deferred = false }

-- `advance`
unfoldable pub advance : Meta → Page → Page
advance m page = if page.deferred then page else record page { safe = maxz page.safe m.seq }

abbrev pub keep : Meta → Page → Page
keep m page = advance m (record page { batch = page.batch ++ m ∷ [] })

-- Whether the content of an entry has to be at hand before the entry is stored.
abbrev pub needs_blob : Meta → Bool
needs_blob m = m.kind == kind_file && not m.deleted && not (m.hash == [])

module _ (sum256 : Text → Text) (cfg : Config) (peer : PeerClient) where
  unfoldable pub fetch_blob : Text → Text → Exec Service (Unit {0})
  fetch_blob addr hash = do
    content ← request (λ n. peer.blob n addr hash)
    ensure (not (ltz cfg.max_file_size (pos (length content)))) too_large
    on_db (put_blob sum256 content)
    pure tt

  unfoldable pub ensure_blob : Text → Text → Exec Service (Unit {0})
  ensure_blob addr hash = do
    have ← on_db (has_blob hash)
    if have then pure tt else fetch_blob addr hash

  unfoldable pub conflict_copy : Meta → Exec Service Meta
  conflict_copy local = do
    version ← new_version cfg
    pure (record local {
      path = conflict_name local.path local.version.origin local.version.hlc.wall;
      prev_hash = [];
      seq = pos 0;
      version = version;
    })

  unfoldable pub fetch_or_defer : Meta → Page → Result (Unit {0}) → Page
  fetch_or_defer remote page (ok _) = keep remote page
  fetch_or_defer remote page (err e) = record page { deferred = true }

  -- The end of one round of the loop of `applyRemote`: fetch the content, keep the entry.
  unfoldable pub store_remote : Text → Meta → Page → Exec Service Page
  store_remote addr remote page =
      if needs_blob remote
      then (attempt (ensure_blob addr remote.hash) >>= λ r. pure (fetch_or_defer remote page r))
      else pure (keep remote page)

  unfoldable pub decide : Text → Meta → Page → Meta → Decision → Exec Service Page
  decide addr remote page local skip = pure (advance remote page)
  decide addr remote page local accept = store_remote addr remote page
  decide addr remote page local conflict = do
    copy_of ← conflict_copy local
    store_remote addr remote
        (record page { batch = page.batch ++ copy_of ∷ []; conflict = page.conflict + 1 })

  unfoldable pub resolve_remote : Text → Meta → Page → Observed → Exec Service Page
  resolve_remote addr remote page clock_drift = pure (advance remote page)
  resolve_remote addr remote page (adopted _) = do
    (local, have) ← lookup remote.path
    decide addr remote page local (resolve local have remote)

  -- One round of the loop of `applyRemote`.
  unfoldable pub apply_entry : Text → Meta → Page → Exec Service Page
  apply_entry addr remote page =
      if is_ok (validate cfg remote)
      then (clock_observe remote.version.hlc >>= resolve_remote addr remote page)
      else pure (advance remote page)

  unfoldable pub apply_entries : Text → List Meta → Page → Exec Service Page
  apply_entries addr [] page = pure page
  apply_entries addr (remote ∷ entries) page =
      apply_entry addr remote page >>= apply_entries addr entries

  unfoldable pub commit_page : Page → Exec Service ℤ
  commit_page page = elim page.batch [
    | [] ↦ pure page.safe
    | m ∷ ms ↦ (commit cfg (m ∷ ms) >>= λ _. pure page.safe)
  ]

  unfoldable pub apply_remote : Text → List Meta → Exec Service ℤ
  apply_remote addr entries = apply_entries addr entries new_page >>= commit_page

  -- One page in the loop of `syncPeer`: `next` goes on from a cursor and a bookmark.
  unfoldable pub store_page :
      (ℤ → ℤ → Exec Service Bool)
      → Text
      → Text
      → ℤ
      → ManifestResponse
      → List Meta
      → Exec Service Bool
  store_page next node addr bookmark page [] = pure true
  store_page next node addr bookmark page (m ∷ ms) = do
    safe ← apply_remote addr (m ∷ ms)
    let mark = maxz bookmark safe
    now ← time_now
    on_db (set_peer_seq node addr mark now)
    if page.more then next page.head mark else pure true

  -- The loop of `syncPeer` over the pages of the peer's feed, with fuel for the number of pages;
  -- `false` means that the fuel ran out.
  unfoldable pub sync_pages : ℕ → Text → Text → ℤ → ℤ → Exec Service Bool
  sync_pages zero node addr cursor bookmark = pure false
  sync_pages (suc fuel) node addr cursor bookmark = do
    page ← request (λ n. peer.manifest n addr cursor)
    store_page (sync_pages fuel node addr) node addr bookmark page page.entries

  -- `syncPeer`
  unfoldable pub sync_peer : ℕ → Text → Text → Exec Service Bool
  sync_peer fuel node addr = do
    remote ← request (λ n. peer.digest n addr)
    local ← on_db (Ops.digest sum256)
    if local.digest == remote.digest
        then (do now ← time_now; on_db (set_peer_seq node addr remote.head now); pure true)
        else (do
          since ← on_db (peer_seq node)
          let from = if ltz remote.head since then pos 0 else since
          sync_pages fuel node addr from from)

module _ (cfg : Config) where
  unfoldable pub collect_blobs : Result ℕ → Exec Service (Unit {0})
  collect_blobs (ok _) = attempt (on_db gc_blobs) >>= λ _. pure tt
  collect_blobs (err e) = pure tt

  -- The janitor. Its errors are logged, and it returns none.
  unfoldable pub collect : Exec Service (Unit {0})
  collect = do
    now ← time_now
    tombstones ← attempt (on_db (gc_tombstones (wrap64 (now -ℤ cfg.tombstone_ttl))))
    collect_blobs tombstones

abbrev pub is_syncing : List Text → Text → Bool
is_syncing [] node = false
is_syncing (busy ∷ rest) node = if busy == node then true else is_syncing rest node

-- `triggerSync` up to the start of the pull: whether one starts, and the peers with one in flight.
unfoldable pub trigger_sync : Config → Text → Text → Service → Bool × Service
trigger_sync cfg node addr s =
    if node == [] || addr == [] || node == cfg.node
    then (false, s)
    else if is_syncing s.syncing node
    then (false, s)
    else (true, record s { syncing = node ∷ s.syncing })

-- `defer s.syncing.Delete(node)`
unfoldable pub finish_sync : Text → Service → Service
unfolding Table.select
finish_sync node s = record s { syncing = Table.select (λ busy. not (busy == node)) s.syncing }
