-- ===== src/Transport/Server/Paging.antt =====
-- A puller that follows the pages of getManifest, internal/transport/server.go.
use distributed_configs_fs.Base.{
  ℕ, zero, suc, ◌+◌, ◌≡◌, ap, ◌<◌, ℤ, List, [], ◌++◌, length, take, drop, ltb, arith, Option, none,
  some, Bool-cases, inl, inr, int_eq, ltb→lt, length-take, length-drop, take_all, take-take-suc,
  take-append-drop, if◌then◌else◌,
}
use distributed_configs_fs.Core.Entry.{Meta}
use distributed_configs_fs.Effect.{◌>>=◌}
use distributed_configs_fs.Store.State.{EntryRow, Db}
use distributed_configs_fs.Store.Table.Keys.{UniqueKeys}
use distributed_configs_fs.Store.Ops.{feed, manifest_since}
use distributed_configs_fs.Store.Outcome.{sql_succeeds}
use distributed_configs_fs.Syncer.State.{ManifestResponse}
use distributed_configs_fs.Transport.Server.{
  Response, body, status, manifest_page, page_of, last_seq,
}
use distributed_configs_fs.Transport.Server.Pages.{feed-last_seq}

abbrev entries_before : List Meta → Option (List Meta) → Option (List Meta)
entries_before page none = none
entries_before page (some rest) = some (page ++ rest)

-- What a page answers, and the rest of the pages.
abbrev follow : (ℤ → Db → Option (List Meta)) → Response ManifestResponse × Db → Option (List Meta)
follow next (status code, db) = none
follow next (body page, db) =
    let rest = entries_before page.entries (next page.head db) in
    if page.more then rest else some page.entries

-- Page after page from the position `since`, as `syncPeer` asks for them; `none` if a request
-- fails or the fuel, one unit a page, runs out.
pub pull_pages : ℕ → ℕ → ℤ → Db → Option (List Meta)
pull_pages zero max_page since db = none
pull_pages (suc fuel) max_page since db =
    follow (pull_pages fuel max_page) (manifest_page max_page since db)

pub manifest_page_succeeds :
    (max_page : ℕ) (since : ℤ) (db : Db)
    → db.faults ≡ []
    → manifest_page max_page since db
      ≡ (body (page_of max_page since (take (max_page + 1) (feed since db))), db)
unfolding manifest_page manifest_since ◌>>=◌
manifest_page_succeeds max_page since db h = rw (sql_succeeds db h)

pub more_iff : (n : ℕ) (xs : List Meta) → ltb n (length (take (suc n) xs)) ≡ ltb n (length xs)
more_iff n xs = ground (arith, length-take (suc n) xs)

-- On a database that does not fail, whose rows have distinct feed positions, and with any positive
-- page size: asking for page after page from a position on, more often than there are rows to read,
-- returns every row past the position exactly once, in the order of the feed.
pub pull_pages_complete :
    (fuel max_page : ℕ) (since : ℤ) (db : Db)
    → db.faults ≡ []
    → UniqueKeys (λ (r : EntryRow). r.seq) db.entries
    → 0 < max_page
    → length (feed since db) < fuel
    → pull_pages fuel max_page since db ≡ some (feed since db)
unfolding pull_pages
pull_pages_complete zero max_page since db f u m h = absurd (omega arith)
pull_pages_complete (suc fuel) max_page since db f u m h =
    let rows : List Meta = feed since db in
    let one : max_page + 1 ≡ suc max_page = omega arith in
    let next : ℤ = last_seq since (take max_page rows) in
    let left : feed next db ≡ drop max_page rows = feed-last_seq max_page since db u in
    rw
      (
        manifest_page_succeeds max_page since db f,
        one,
        take-take-suc max_page rows,
        more_iff max_page rows,
      )
      (elim (Bool-cases (ltb max_page (length rows))) [
        | inl e ↦
            let fits : length (feed next db) < fuel =
              rw left (omega (arith, length-drop max_page rows, ltb→lt max_page (length rows) e)) in
            rw (e, pull_pages_complete fuel max_page next db f u m fits, left)
              (ap some (take-append-drop max_page rows))
        | inr e ↦ rw e (ap some (take_all max_page rows (ground arith)))
      ])
