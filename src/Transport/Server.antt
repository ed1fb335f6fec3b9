-- ===== src/Transport/Server.antt =====
-- internal/transport/server.go: what the handlers of the peer API answer. A body is what the
-- handler hands to `sealed` or `sealedBytes`.
pub mod Pages
pub mod Paging
use distributed_configs_fs.Base.{
  ℕ, suc, ◌+◌, Bool, true, false, not, ◌&&◌, ◌||◌, ltb, ℤ, pos, Text, List, [], ◌∷◌, length, take,
  ◌==◌, nat_eq, if◌then◌else◌, Option, none, some,
}
use distributed_configs_fs.Core.Error.{Error, Result, ok, err}
use distributed_configs_fs.Core.Entry.{Meta}
use distributed_configs_fs.Effect.{Exec, pure, gets, ◌>>=◌, ◌>>◌}
use distributed_configs_fs.Store.State.{Db}
use distributed_configs_fs.Store.Ops.{Summary, manifest_since, blob}
use distributed_configs_fs.Store.Ops
use distributed_configs_fs.Syncer.State.{DigestResponse, ManifestResponse}
use distributed_configs_fs.Syncer.Pull.{all_hex}
use distributed_configs_fs.Transport.Number.{parse_seq}
use distributed_configs_fs.Transport.Auth.{Request, verify}

abbrev pub max_manifest_page : ℕ
max_manifest_page = 2000

-- 200 with a body, or a bare status.
pub data Response {ℓ} (A : Type ℓ) : Type ℓ where
  body : A → Response A
  status : ℕ → Response A

abbrev pub answer : {A B : Type 0} → (A → Response B) → ℕ → Result A → Response B
answer f code (ok a) = f a
answer f code (err e) = status code

unfoldable pub get_digest : (Text → Text) → Db → Response DigestResponse × Db
unfolding Ops.digest
get_digest sum256 db =
    let (r, db') = Ops.digest sum256 db in
    (
      answer (λ d. body (record { digest = d.digest; entries = d.entries; head = d.head })) 500 r,
      db',
    )

-- The feed position after the last entry of a page; `since` where it has none.
unfoldable pub last_seq : ℤ → List Meta → ℤ
last_seq since [] = since
last_seq since (m ∷ ms) = last_seq m.seq ms

abbrev pub page_of : ℕ → ℤ → List Meta → ManifestResponse
page_of max_page since entries =
    let page = take max_page entries in
    record { entries = page; head = last_seq since page; more = ltb max_page (length entries) }

-- The handler over the page size, which is `max_manifest_page` in the program: it asks the store
-- for one row more.
unfoldable pub manifest_page : ℕ → ℤ → Db → Response ManifestResponse × Db
unfolding manifest_since last_seq
manifest_page max_page since db =
    let (r, db') = manifest_since since (max_page + 1) db in
    (answer (λ entries. body (page_of max_page since entries)) 500 r, db')

unfoldable pub get_manifest : Text → Db → Response ManifestResponse × Db
unfolding manifest_page parse_seq
get_manifest raw = manifest_page max_manifest_page (parse_seq raw)

unfoldable pub get_blob : Text → Db → Response Text × Db
unfolding blob
get_blob hash db =
    if not (length hash == 64)
    then (status 400, db)
    else if not (all_hex hash)
    then (status 400, db)
    else (let (r, db') = blob hash db in (answer body 404 r, db'))

-- `authenticate`: the handler behind it runs only for a request that verifies.
unfoldable pub authenticate :
    {A : Type 0}
    → (Text → Text → Text)
    → Text
    → ℤ
    → Request
    → (Db → Response A × Db)
    → Db
    → Response A × Db
unfolding verify
authenticate mac key now r next db = elim (verify mac key now r) [
  | none ↦ (status 401, db)
  | some node ↦ next db
]
