-- ===== src/Syncer/Content.antt =====
-- internal/syncer: entries and the content that they need.
use distributed_configs_fs.Base.{
  ℕ, ◌+◌, ◌≡◌, refl, inl, inr, Bool, true, not, ◌||◌, Bool-cases, pos, Text, List, [], ◌∷◌, All,
  All-map, length, ◌==◌, nat_eq, text_eq, arith,
}
use distributed_configs_fs.Core.Entry.{Meta, hash_content}
use distributed_configs_fs.Store.State.{EntryRow, BlobRow, Db, meta, row_of}
use distributed_configs_fs.Store.Table.{take_row, upsert_all}
use distributed_configs_fs.Store.Table.Every.{All-upsert}
use distributed_configs_fs.Store.Table.Keys.{is_some, take_row-insert_new}
use distributed_configs_fs.Store.Ops.{at_path, has_hash, same_path, stamp}
use distributed_configs_fs.Store.Outcome.{written}
use distributed_configs_fs.Syncer.Outcome.{with_blob, current}
use distributed_configs_fs.Syncer.Pull.{needs_blob}

-- Nothing is missing: the entry is no live file with content, or a blob with its hash is there.
abbrev pub has_content : List BlobRow → Meta → Bool
has_content blobs m = not (needs_blob m) || is_some (take_row (has_hash m.hash) blobs)

abbrev pub HasContent : Db → Meta → Type 0
HasContent db m = has_content db.blobs m ≡ true

-- Every entry can be served.
abbrev pub IsServable : Db → Type 0
IsServable db = All (λ (r : EntryRow). HasContent db (meta r)) db.entries

pub HasContent-with_blob :
    (sum256 : Text → Text) (content : Text) (db : Db) (m : Meta)
    → HasContent db m
    → HasContent (with_blob sum256 content db) m
HasContent-with_blob sum256 content db m h =
    let b : BlobRow = record {
      hash = hash_content sum256 content;
      size = pos (length content);
      content = content;
    } in
    let e = take_row-insert_new (λ (c : BlobRow). c.hash) m.hash b db.blobs in ground arith

pub with_blob-HasContent :
    (sum256 : Text → Text) (content : Text) (db : Db) (m : Meta)
    → hash_content sum256 content ≡ m.hash
    → HasContent (with_blob sum256 content db) m
with_blob-HasContent sum256 content db m h =
    let b : BlobRow = record {
      hash = hash_content sum256 content;
      size = pos (length content);
      content = content;
    } in
    let e = take_row-insert_new (λ (c : BlobRow). c.hash) m.hash b db.blobs in ground arith

pub with_blob-IsServable :
    (sum256 : Text → Text) (content : Text) (db : Db)
    → IsServable db
    → IsServable (with_blob sum256 content db)
with_blob-IsServable sum256 content db h =
    All-map db.entries (λ r k. HasContent-with_blob sum256 content db (meta r) k) h

stamped-content :
    (blobs : List BlobRow) (n : ℕ) (metas : List Meta) (rows : List EntryRow)
    → All (λ m. has_content blobs m ≡ true) metas
    → All (λ (r : EntryRow). has_content blobs (meta r) ≡ true) rows
    → All
        (λ (r : EntryRow). has_content blobs (meta r) ≡ true)
        (upsert_all same_path (stamp n metas) rows)
unfolding stamp upsert_all meta row_of
stamped-content blobs n [] rows h k = k
stamped-content blobs n (m ∷ ms) rows h k =
    stamped-content blobs (n + 1) ms _ h.1
      (All-upsert _ same_path (record (row_of m) { seq = pos (n + 1) }) rows h.0 k)

-- A batch of entries whose contents are at hand can be stored.
pub written-IsServable :
    (metas : List Meta) (fs : List Bool) (db : Db)
    → All (HasContent db) metas
    → IsServable db
    → IsServable (written metas fs db)
written-IsServable metas fs db h k = stamped-content db.blobs db.seq metas db.entries h k

found-HasContent :
    (blobs : List BlobRow) (path : Text) (rows : List EntryRow)
    → All (λ (r : EntryRow). has_content blobs (meta r) ≡ true) rows
    → has_content blobs (current (take_row (at_path path) rows)).0 ≡ true
unfolding take_row text_eq
found-HasContent blobs path [] h = refl
found-HasContent blobs path (r ∷ rows) h = elim (Bool-cases (r.path == path)) [
  | inl e ↦ rw e h.0
  | inr e ↦ rw e (found-HasContent blobs path rows h.1)
]

-- The entry at a path has its content, the zero value where there is none included.
pub current-HasContent :
    (path : Text) (db : Db)
    → IsServable db
    → HasContent db (current (take_row (at_path path) db.entries)).0
current-HasContent path db h = found-HasContent db.blobs path db.entries h
