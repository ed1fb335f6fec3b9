-- ===== src/Syncer/Loop/Busy.antt =====
-- internal/syncer/antientropy.go: no pull and no collection touches the set of the peers with a pull
-- in flight.
use distributed_configs_fs.Base.{
  ℕ, zero, suc, ◌≡◌, refl, Bool, true, false, ℤ, pos, maxz, ltz, Text, text_eq, List, [], ◌∷◌, ◌==◌,
  if◌then◌else◌,
}
use distributed_configs_fs.Core.Error.{Result, ok, err}
use distributed_configs_fs.Core.Clock.{Observed, adopted, clock_drift}
use distributed_configs_fs.Core.Entry.{Meta}
use distributed_configs_fs.Effect.{Exec, ◌>>=◌}
use distributed_configs_fs.Effect.Keeps.{Keeps, Keeps-reads, Keeps-modify, Keeps-then}
use distributed_configs_fs.Store.State.{Db}
use distributed_configs_fs.Syncer.State.{
  Config, Service, PeerClient, ManifestResponse, on_db, request, attempt, clock_now, clock_observe,
  time_now, notify, announce,
}
use distributed_configs_fs.Syncer.Local.{lookup, commit, new_version}
use distributed_configs_fs.Syncer.Resolve.{Decision, skip, accept, conflict}
use distributed_configs_fs.Syncer.Pull.{
  Page, needs_blob, is_ok, validate, fetch_blob, ensure_blob, conflict_copy, store_remote, decide,
  resolve_remote, apply_entry, apply_entries, commit_page, apply_remote, store_page, sync_pages,
  sync_peer, collect, collect_blobs, new_page,
}

module _ (x : List Text) where
  abbrev Busy : Service → Type 0
  Busy s = s.syncing ≡ x

  abbrev KeepsBusy : {A : Type 0} → Exec Service A → Type 0
  KeepsBusy m = Keeps Busy m

  db_busy : {A : Type 0} (m : Exec Db A) → KeepsBusy (on_db m)
  db_busy m = record { still = λ s h. h }

  request_busy : {A : Type 0} (f : ℕ → Result A) → KeepsBusy (request f)
  request_busy f = record { still = λ s h. h }

  attempt_busy : {A : Type 0} (m : Exec Service A) → KeepsBusy m → KeepsBusy (attempt m)
  attempt_busy m k = record { still = λ s h. k.still s h }

  if_busy :
      {A : Type 0} (b : Bool) {m n : Exec Service A}
      → KeepsBusy m
      → KeepsBusy n
      → KeepsBusy (if b then m else n)
  if_busy true k l = k
  if_busy false k l = l

  time_now_busy : KeepsBusy time_now
  unfolding time_now
  time_now_busy = record { still = λ s h. h }

  lookup_busy : (p : Text) → KeepsBusy (lookup p)
  unfolding lookup
  lookup_busy p = record { still = λ s h. h }

  new_version_busy : (cfg : Config) → KeepsBusy (new_version cfg)
  unfolding new_version clock_now ◌>>=◌
  new_version_busy cfg = record { still = λ s h. h }

  announce-Busy :
      (b : Bool) (head : ℤ) (s : Service)
      → Busy s
      → Busy ((if b then announce head else (λ t. t)) s)
  announce-Busy true head s h = h
  announce-Busy false head s h = h

  commit_busy : (cfg : Config) (ms : List Meta) → KeepsBusy (commit cfg ms)
  unfolding commit notify
  commit_busy cfg ms = Keeps-then _ _ (db_busy _) λ head.
      Keeps-then _ _ (Keeps-modify _ λ s h. h)
        λ u. Keeps-modify _ (announce-Busy cfg.has_peers head)

  module _ (sum256 : Text → Text) (cfg : Config) (peer : PeerClient) where
    ensure_blob_busy : (addr hash : Text) → KeepsBusy (ensure_blob sum256 cfg peer addr hash)
    unfolding ensure_blob fetch_blob
    ensure_blob_busy addr hash = Keeps-then _ _ (db_busy _) λ have. if_busy have (Keeps-reads _) (
        Keeps-then _ _ (request_busy _) λ content.
          Keeps-then _ _ (Keeps-reads _) λ u. Keeps-then _ _ (db_busy _) λ v. Keeps-reads _)

    store_remote_busy :
        (addr : Text) (m : Meta) (page : Page)
        → KeepsBusy (store_remote sum256 cfg peer addr m page)
    unfolding store_remote
    store_remote_busy addr m page =
        if_busy (needs_blob m)
          (Keeps-then _ _ (attempt_busy _ (ensure_blob_busy addr m.hash)) λ r. Keeps-reads _)
          (Keeps-reads _)

    decide_busy :
        (addr : Text) (m : Meta) (page : Page) (local : Meta) (d : Decision)
        → KeepsBusy (decide sum256 cfg peer addr m page local d)
    unfolding decide conflict_copy
    decide_busy addr m page local skip = Keeps-reads _
    decide_busy addr m page local accept = store_remote_busy addr m page
    decide_busy addr m page local conflict =
        Keeps-then _ _ (Keeps-then _ _ (new_version_busy cfg) λ v. Keeps-reads _)
          λ copy_of. store_remote_busy addr m _

    resolve_remote_busy :
        (addr : Text) (m : Meta) (page : Page) (o : Observed)
        → KeepsBusy (resolve_remote sum256 cfg peer addr m page o)
    unfolding resolve_remote
    resolve_remote_busy addr m page clock_drift = Keeps-reads _
    resolve_remote_busy addr m page (adopted t) =
        Keeps-then _ _ (lookup_busy m.path) λ cur. decide_busy addr m page cur.0 _

    observe_busy : (m : Meta) → KeepsBusy (clock_observe m.version.hlc)
    unfolding clock_observe
    observe_busy m = record { still = λ s h. h }

    apply_entry_busy :
        (addr : Text) (m : Meta) (page : Page) → KeepsBusy (apply_entry sum256 cfg peer addr m page)
    unfolding apply_entry
    apply_entry_busy addr m page =
        if_busy (is_ok (validate cfg m))
          (Keeps-then _ _ (observe_busy m) λ o. resolve_remote_busy addr m page o) (Keeps-reads _)

    apply_entries_busy :
        (addr : Text) (ms : List Meta) (page : Page)
        → KeepsBusy (apply_entries sum256 cfg peer addr ms page)
    unfolding apply_entries
    apply_entries_busy addr [] page = Keeps-reads _
    apply_entries_busy addr (m ∷ ms) page =
        Keeps-then _ _ (apply_entry_busy addr m page) λ p. apply_entries_busy addr ms p

    batch_busy :
        (batch : List Meta) (page : Page)
        → page.batch ≡ batch
        → KeepsBusy (commit_page sum256 cfg peer page)
    unfolding commit_page
    batch_busy [] page e = rw e (Keeps-reads _)
    batch_busy (m ∷ ms) page e =
        rw e (Keeps-then _ _ (commit_busy cfg (m ∷ ms)) λ u. Keeps-reads (λ s. ok page.safe))

    commit_page_busy : (page : Page) → KeepsBusy (commit_page sum256 cfg peer page)
    commit_page_busy page = batch_busy page.batch page refl

    apply_remote_busy :
        (addr : Text) (ms : List Meta) → KeepsBusy (apply_remote sum256 cfg peer addr ms)
    unfolding apply_remote
    apply_remote_busy addr ms =
        Keeps-then _ _ (apply_entries_busy addr ms new_page) λ page. commit_page_busy page

    store_page_busy :
        (next : ℤ → ℤ → Exec Service Bool) (node addr : Text) (bookmark : ℤ)
        (page : ManifestResponse) (entries : List Meta)
        → ((cursor mark : ℤ) → KeepsBusy (next cursor mark))
        → KeepsBusy (store_page sum256 cfg peer next node addr bookmark page entries)
    unfolding store_page
    store_page_busy next node addr bookmark page [] k = Keeps-reads _
    store_page_busy next node addr bookmark page (m ∷ ms) k =
        Keeps-then _ _ (apply_remote_busy addr (m ∷ ms)) λ safe. Keeps-then _ _ time_now_busy λ now.
          Keeps-then _ _ (db_busy _)
            λ u. if_busy page.more (k page.head (maxz bookmark safe)) (Keeps-reads _)

    sync_pages_busy :
        (fuel : ℕ) (node addr : Text) (cursor bookmark : ℤ)
        → KeepsBusy (sync_pages sum256 cfg peer fuel node addr cursor bookmark)
    unfolding sync_pages
    sync_pages_busy zero node addr cursor bookmark = Keeps-reads _
    sync_pages_busy (suc fuel) node addr cursor bookmark = Keeps-then _ _ (request_busy _) λ page.
        store_page_busy _ node addr bookmark page page.entries (sync_pages_busy fuel node addr)

    pub sync_peer_busy :
        (fuel : ℕ) (node addr : Text) → KeepsBusy (sync_peer sum256 cfg peer fuel node addr)
    unfolding sync_peer
    sync_peer_busy fuel node addr = Keeps-then _ _ (request_busy _) λ remote.
        Keeps-then _ _ (db_busy _) λ local.
          if_busy (local.digest == remote.digest)
            (Keeps-then _ _ time_now_busy λ now. Keeps-then _ _ (db_busy _) λ u. Keeps-reads _)
            (Keeps-then _ _ (db_busy _) λ since.
              sync_pages_busy fuel node addr (if ltz remote.head since then pos 0 else since)
                (if ltz remote.head since then pos 0 else since))

  collect_blobs_busy : (cfg : Config) (r : Result ℕ) → KeepsBusy (collect_blobs cfg r)
  unfolding collect_blobs
  collect_blobs_busy cfg (ok n) = Keeps-then _ _ (attempt_busy _ (db_busy _)) λ v. Keeps-reads _
  collect_blobs_busy cfg (err e) = Keeps-reads _

  pub collect_busy : (cfg : Config) → KeepsBusy (collect cfg)
  unfolding collect
  collect_busy cfg =
      Keeps-then _ _ time_now_busy
        λ now. Keeps-then _ _ (attempt_busy _ (db_busy _)) λ r. collect_blobs_busy cfg r
