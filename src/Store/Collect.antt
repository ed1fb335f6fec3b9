-- ===== src/Store/Collect.antt =====
-- internal/store/store.go: GCTombstones and GCBlobs.
use distributed_configs_fs.Base.{
  ℕ, ◌≡◌, ◌≢◌, ◌⊎◌, ◌∙◌, sym, Bool-cases, false, refl, inl, inr, true, not, ◌&&◌, ltz, ℤ, pos, Text,
  List, All, All-map, [], ◌∷◌, ◌==◌, text_eq, nat_eq, none, if◌then◌else◌, arith,
}
use distributed_configs_fs.Core.Error.{ok, err, database}
use distributed_configs_fs.Effect.{◌>>=◌}
use distributed_configs_fs.Store.State.{EntryRow, BlobRow, Db}
use distributed_configs_fs.Store.Table.{select, take_row}
use distributed_configs_fs.Store.Table.Keys.{UniqueKeys, take_row-select, keep_if}
use distributed_configs_fs.Store.Outcome.{sql-cases}
use distributed_configs_fs.Store.Ops.{
  at_path, has_hash, is_expired, is_referenced, gc_tombstones, gc_blobs,
}

pub kept_blob :
    (rows : List EntryRow) (hash : Text) (blobs : List BlobRow)
    → take_row (has_hash hash) (select (λ b. is_referenced rows b.hash) blobs)
      ≡ (if is_referenced rows hash then take_row (has_hash hash) blobs else none)
unfolding select take_row
kept_blob rows hash [] = ground arith
kept_blob rows hash (b ∷ blobs) = ground (arith, kept_blob rows hash blobs)

-- Every entry with a hash refers to it.
pub referenced :
    (rows : List EntryRow)
    → All (λ (r : EntryRow). not (r.hash == []) ≡ true → is_referenced rows r.hash ≡ true) rows
unfolding is_referenced
referenced [] = tt
referenced (q ∷ rows) =
    ((λ h. ground arith), All-map rows (λ r k h. let e = k h in ground arith) (referenced rows))

-- Some row of the list names the hash.
abbrev pub Names : Text → List EntryRow → Type 0
Names hash [] = ⊥
Names hash (r ∷ rows) = (r.hash ≡ hash) ⊎ Names hash rows

named :
    (hash : Text) (rows : List EntryRow)
    → is_referenced rows hash ≡ true
    → Names hash rows × (hash ≢ [])
unfolding is_referenced
named hash [] h = cc h
named hash (r ∷ rows) h = elim (text_eq.dec r.hash hash) [
  | yes y ↦ elim (text_eq.dec r.hash []) [
    | yes z ↦
        let k : is_referenced rows hash ≡ true = ground (arith, h, z) in
        let (a, b) = named hash rows k in (inr a, b)
    | no n ↦ (inl y, λ z. n (y ∙ z))
  ]
  | no n ↦
      let k : is_referenced rows hash ≡ true = ground (arith, h, n) in
      let (a, b) = named hash rows k in (inr a, b)
]

unnamed :
    (hash : Text) (rows : List EntryRow)
    → is_referenced rows hash ≡ false
    → (hash ≢ [])
    → All (λ (r : EntryRow). r.hash ≢ hash) rows
unfolding is_referenced
unnamed hash [] h n = tt
unnamed hash (r ∷ rows) h n = elim (text_eq.dec r.hash hash) [
  | yes y ↦ absurd (n (sym y ∙ ground (arith, h, y)))
  | no m ↦ (m, unnamed hash rows (ground (arith, h, m)) n)
]

collected :
    (rows : List EntryRow) (hash : Text) (blobs : List BlobRow)
    → let left = select (λ (b : BlobRow). is_referenced rows b.hash) blobs in
      (Names hash rows
        × (hash ≢ [])
        × (take_row (has_hash hash) left ≡ take_row (has_hash hash) blobs))
      ⊎ (((hash ≡ []) ⊎ All (λ (r : EntryRow). r.hash ≢ hash) rows)
          × (take_row (has_hash hash) left ≡ none))
collected rows hash blobs = elim (Bool-cases (is_referenced rows hash)) [
  | inl e ↦ let (a, b) = named hash rows e in inl (a, b, rw (kept_blob rows hash blobs, e) refl)
  | inr e ↦ inr (
    elim (text_eq.dec hash []) [ yes z ↦ inl z | no n ↦ inr (unnamed hash rows e n) ],
    rw (kept_blob rows hash blobs, e) refl,
  )
]

-- A collection of the blobs that succeeds does one of two things to the blob of a hash. If an entry
-- has this hash, be it a tombstone or a live entry, and the hash is not empty, the blob is as it
-- was; if the hash is empty or every entry has another one, there is no such blob any more. The
-- entries are as they were.
pub gc_blobs_exact :
    (db : Db) (hash : Text) {n : ℕ}
    → (gc_blobs db).0 ≡ ok n
    → let t = (gc_blobs db).1 in
      ((Names hash db.entries
          × (hash ≢ [])
          × (take_row (has_hash hash) t.blobs ≡ take_row (has_hash hash) db.blobs))
        ⊎ (((hash ≡ []) ⊎ All (λ (r : EntryRow). r.hash ≢ hash) db.entries)
            × (take_row (has_hash hash) t.blobs ≡ none)))
      × (t.entries ≡ db.entries)
unfolding gc_blobs ◌>>=◌
gc_blobs_exact db hash {n} h = elim (sql-cases db) [
  | inl (fs, e) ↦ let bad : err database ≡ ok n = rw e at h in cc bad
  | inr (fs, e) ↦ rw e (collected db.entries hash db.blobs, refl)
]

-- On a table with one row for each path, a collection of the tombstones that succeeds removes
-- exactly the deleted entries whose deletion has a time and whose time is before the cutoff; the
-- blobs and the counter stay as they were.
pub gc_tombstones_exact :
    (db : Db) (before : ℤ) (path : Text) {n : ℕ}
    → UniqueKeys (λ (r : EntryRow). r.path) db.entries
    → (gc_tombstones before db).0 ≡ ok n
    → let t = (gc_tombstones before db).1 in
      (take_row (at_path path) t.entries
        ≡ keep_if
            (λ r. not (r.deleted && ltz (pos 0) r.deleted_at && ltz r.deleted_at before))
            (take_row (at_path path) db.entries))
      × (t.blobs ≡ db.blobs)
      × (t.seq ≡ db.seq)
unfolding gc_tombstones ◌>>=◌
gc_tombstones_exact db before path {n} u h = elim (sql-cases db) [
  | inl (fs, e) ↦ let bad : err database ≡ ok n = rw e at h in cc bad
  | inr (fs, e) ↦ rw e (
    take_row-select (λ (r : EntryRow). r.path) (λ r. not (is_expired before r)) path db.entries u,
    refl,
    refl,
  )
]
