-- ===== src/Syncer/Pull/Terminates.antt =====
-- `syncPeer` of internal/syncer/antientropy.go against the server of internal/transport/server.go:
-- the loop over the pages comes to an end.
use distributed_configs_fs.Base.{
  ℕ, zero, suc, ◌+◌, ◌≡◌, refl, sym, ap, ◌∙◌, ◌≢◌, ◌≤◌, ◌<◌, inl, inr, Bool, true, false, ltb, ltz,
  ltb→lt, ℤ, int_eq, pos, maxz, Text, List, [], ◌∷◌, map, length, take, length-drop, take-take-suc,
  ◌==◌, text_eq, if◌then◌else◌, arith,
}
use distributed_configs_fs.Core.Error.{Result, ok, err, network, Result-cases}
use distributed_configs_fs.Core.Entry.{Meta}
use distributed_configs_fs.Effect.{Exec, pure, ◌>>=◌}
use distributed_configs_fs.Store.State.{EntryRow, Db, meta}
use distributed_configs_fs.Store.Table.{select, order_by, insert_by}
use distributed_configs_fs.Store.Table.Keys.{UniqueKeys}
use distributed_configs_fs.Store.Ops.{feed, is_since, by_seq}
use distributed_configs_fs.Syncer.State.{Config, Service, PeerClient, ManifestResponse}
use distributed_configs_fs.Syncer.Pull.{sync_peer, sync_pages, store_page}
use distributed_configs_fs.Transport.Server.{
  Response, body, status, manifest_page, max_manifest_page, page_of,
}
use distributed_configs_fs.Transport.Server.Pages.{feed-last_seq}
use distributed_configs_fs.Transport.Server.Paging.{manifest_page_succeeds, more_iff}

-- What the client makes of an answer.
abbrev pub received : Response ManifestResponse → Result ManifestResponse
received (body page) = ok page
received (status code) = err network

-- The peer answers every request for a page from these tables.
abbrev pub IsServedFrom : PeerClient → Text → Db → Type 0
IsServedFrom peer addr db =
    (n : ℕ) (since : ℤ)
    → peer.manifest n addr since ≡ received (manifest_page max_manifest_page since db).0

-- It does not report that the fuel ran out.
abbrev Finishes : Exec Service Bool → Type 0
Finishes m = (s : Service) → (m s).0 ≢ ok false

Finishes-then :
    {A : Type 0} (m : Exec Service A) (next : A → Exec Service Bool)
    → ((a : A) → Finishes (next a))
    → Finishes (m >>= next)
unfolding ◌>>=◌
Finishes-then m next k s = elim (Result-cases (m s).0) [
  | inl (a, e) ↦ rw e (k a (m s).1)
  | inr (x, e) ↦ rw e (λ f. cc)
]

Finishes-true : Finishes (pure true)
Finishes-true s e = cc

if_Finishes :
    (b : Bool) (m n : Exec Service Bool)
    → (b ≡ true → Finishes m)
    → (b ≡ false → Finishes n)
    → Finishes (if b then m else n)
if_Finishes true m n k l = k refl
if_Finishes false m n k l = l refl

-- Less of the feed is left after a page that is not the last one.
page_shrinks :
    (n : ℕ) (since : ℤ) (db : Db)
    → UniqueKeys (λ (r : EntryRow). r.seq) db.entries
    → 0 < n
    → (page_of n since (take (n + 1) (feed since db))).more ≡ true
    → length (feed (page_of n since (take (n + 1) (feed since db))).head db)
      < length (feed since db)
page_shrinks n since db unique h e =
    let rows : List Meta = feed since db in
    let one : n + 1 ≡ suc n = omega arith in
    let more : ltb n (length rows) ≡ true = sym (more_iff n rows) ∙ rw one at e in
    rw (one, take-take-suc n rows, feed-last_seq n since db unique)
      (omega (arith, h, length-drop n rows, ltb→lt n (length rows) more))

module _ (sum256 : Text → Text) (cfg : Config) (peer : PeerClient) (node addr : Text) where
  store_page-Finishes :
      (next : ℤ → ℤ → Exec Service Bool) (bookmark : ℤ) (page : ManifestResponse)
      (entries : List Meta)
      → (page.more ≡ true → (mark : ℤ) → Finishes (next page.head mark))
      → Finishes (store_page sum256 cfg peer next node addr bookmark page entries)
  unfolding store_page
  store_page-Finishes next bookmark page [] k = Finishes-true
  store_page-Finishes next bookmark page (m ∷ ms) k = Finishes-then _ _ λ safe.
      Finishes-then _ _ λ now.
        Finishes-then _ _ λ u.
          if_Finishes page.more _ _ (λ more. k more (maxz bookmark safe)) (λ last. Finishes-true)

  module _ (db : Db) (served : IsServedFrom peer addr db) (steady : db.faults ≡ [])
      (unique : UniqueKeys (λ (r : EntryRow). r.seq) db.entries) where
    abbrev page_at : ℤ → ManifestResponse
    page_at since = page_of max_manifest_page since (take (max_manifest_page + 1) (feed since db))

    answered : (n : ℕ) (since : ℤ) → peer.manifest n addr since ≡ ok (page_at since)
    answered n since =
        served n since
        ∙ ap (λ r. received r.0) (manifest_page_succeeds max_manifest_page since db steady)

    fewer :
        (fuel : ℕ) (since : ℤ)
        → length (feed since db) < suc fuel
        → (page_at since).more ≡ true
        → length (feed (page_at since).head db) < fuel
    fewer fuel since h e =
        omega (arith, h, page_shrinks max_manifest_page since db unique (omega arith) e)

    sync_pages-Finishes :
        (fuel : ℕ) (cursor bookmark : ℤ)
        → length (feed cursor db) < fuel
        → Finishes (sync_pages sum256 cfg peer fuel node addr cursor bookmark)
    unfolding sync_pages ◌>>=◌
    sync_pages-Finishes zero cursor bookmark h s = absurd (omega arith)
    sync_pages-Finishes (suc fuel) cursor bookmark h s = rw (answered s.requests cursor) (
        store_page-Finishes (sync_pages sum256 cfg peer fuel node addr) bookmark (page_at cursor)
          (page_at cursor).entries
          (λ more mark. sync_pages-Finishes fuel _ mark (fewer fuel cursor h more)) _)

length-select : (z : ℤ) (rows : List EntryRow) → length (select (is_since z) rows) ≤ length rows
unfolding select
length-select z [] = omega arith
length-select z (r ∷ rows) = ground (arith, length-select z rows)

length-insert_by :
    (r : EntryRow) (rows : List EntryRow) → length (insert_by by_seq r rows) ≡ suc (length rows)
unfolding insert_by
length-insert_by r [] = refl
length-insert_by r (q ∷ rows) = ground (arith, length-insert_by r rows)

length-order_by : (rows : List EntryRow) → length (order_by by_seq rows) ≡ length rows
unfolding order_by
length-order_by [] = refl
length-order_by (r ∷ rows) = length-insert_by r _ ∙ ap suc (length-order_by rows)

length-meta : (rows : List EntryRow) → length (map meta rows) ≡ length rows
length-meta [] = refl
length-meta (r ∷ rows) = ap suc (length-meta rows)

-- The feed is no longer than the table.
length-feed : (z : ℤ) (db : Db) → length (feed z db) ≤ length db.entries
unfolding feed
length-feed z db =
    let rows = select (is_since z) db.entries in
    omega
      (arith, length-meta (order_by by_seq rows), length-order_by rows, length-select z db.entries)

-- Against a peer that serves its feed from tables that do not change or fail in the meantime, and
-- whose rows have distinct feed positions, fuel for one page more than there are rows is enough:
-- the pull ends, with an error or having read the feed to its end, whatever this node holds and
-- whatever fails on its side.
pub sync_peer_terminates :
    (sum256 : Text → Text) (cfg : Config) (peer : PeerClient) (node addr : Text) (db : Db)
    (fuel : ℕ) (s : Service)
    → IsServedFrom peer addr db
    → db.faults ≡ []
    → UniqueKeys (λ (r : EntryRow). r.seq) db.entries
    → length db.entries < fuel
    → (sync_peer sum256 cfg peer fuel node addr s).0 ≢ ok false
unfolding sync_peer
sync_peer_terminates sum256 cfg peer node addr db fuel s served steady unique h =
    Finishes-then _ _
      (λ remote. Finishes-then _ _ (λ local.
        if_Finishes (local.digest == remote.digest) _ _
          (λ same. Finishes-then _ _ λ now. Finishes-then _ _ λ u. Finishes-true)
          (λ differ. Finishes-then _ _ λ since.
            sync_pages-Finishes sum256 cfg peer node addr db served steady unique fuel _ _
              (omega (arith, h, length-feed (if ltz remote.head since then pos 0 else since) db)))))
      s
