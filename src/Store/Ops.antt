-- ===== src/Store/Ops.antt =====
-- The operations of `Store` in internal/store/store.go.
use distributed_configs_fs.Base.{
  ℕ, ◌+◌, ◌-◌, Bool, true, false, not, ◌&&◌, ℤ, pos, ltb, ltz, maxz, ◌+ℤ◌, int_eq, Text, ltt,
  text_eq, nat_eq, codes, Option, none, some, List, [], ◌∷◌, ◌++◌, map, length, take, ◌==◌,
  if◌then◌else◌,
}
use distributed_configs_fs.Core.Error.{not_found}
use distributed_configs_fs.Core.Entry.{Meta, hash_content, hex_encode}
use distributed_configs_fs.Core.Paths.{decimal, format_int}
use distributed_configs_fs.Effect.{Exec, pure, gets, modify, some_or, ◌>>=◌, ◌>>◌}
use distributed_configs_fs.Store.Table.{select, take_row, order_by, upsert, upsert_all, insert_new}
use distributed_configs_fs.Store.State.{
  EntryRow, BlobRow, PeerRow, Db, meta, row_of, sql, transaction,
}

abbrev pub at_path : Text → EntryRow → Bool
at_path path r = r.path == path

abbrev pub same_path : EntryRow → EntryRow → Bool
same_path r q = q.path == r.path

abbrev pub by_path : EntryRow → EntryRow → Bool
by_path r q = ltt r.path q.path

abbrev pub by_seq : EntryRow → EntryRow → Bool
by_seq r q = ltz r.seq q.seq

abbrev pub has_hash : Text → BlobRow → Bool
has_hash hash b = b.hash == hash

abbrev pub same_hash : BlobRow → BlobRow → Bool
same_hash b c = c.hash == b.hash

abbrev pub at_node : Text → PeerRow → Bool
at_node node p = p.node == node

abbrev pub same_node : PeerRow → PeerRow → Bool
same_node p q = q.node == p.node

unfoldable pub get : Text → Exec Db Meta
unfolding sql take_row meta
get path = do
  sql
  row ← gets (λ db. take_row (at_path path) db.entries)
  r ← some_or not_found row
  pure (meta r)

-- `All`, `Live` and `ManifestSince` are one query each.
unfoldable pub all : Exec Db (List Meta)
unfolding sql order_by meta
all = do sql; gets (λ db. map meta (order_by by_path db.entries))

abbrev pub is_live : EntryRow → Bool
is_live r = not r.deleted

unfoldable pub live : Exec Db (List Meta)
unfolding sql order_by select meta
live = do sql; gets (λ db. map meta (order_by by_path (select is_live db.entries)))

abbrev pub is_since : ℤ → EntryRow → Bool
is_since seq r = ltz seq r.seq

-- The rows written after `seq`, in the order of the feed.
unfoldable pub feed : ℤ → Db → List Meta
unfolding order_by select meta
feed seq db = map meta (order_by by_seq (select (is_since seq) db.entries))

unfoldable pub manifest_since : ℤ → ℕ → Exec Db (List Meta)
unfolding sql feed
manifest_since seq limit = do sql; gets (λ db. take limit (feed seq db))

abbrev nul_sep : Text
nul_sep = 0 ∷ []

format_bool : Bool → Text
format_bool true = codes "true"
format_bool false = codes "false"

-- One entry as Digest writes it into the hash.
unfoldable pub digest_line : Meta → Text
unfolding format_bool
digest_line m =
    m.path
    ++ (nul_sep
        ++ (decimal m.kind
            ++ (nul_sep
                ++ (m.hash
                    ++ (nul_sep
                        ++ (decimal m.mode
                            ++ (nul_sep
                                ++ (decimal m.uid
                                    ++ (nul_sep
                                        ++ (decimal m.gid
                                            ++ (nul_sep
                                                ++ (format_int m.version.hlc.wall
                                                    ++ (nul_sep
                                                        ++ (decimal m.version.hlc.counter
                                                            ++ (nul_sep
                                                            ++ (m.version.origin
                                                            ++ (nul_sep
                                                            ++ (format_bool m.deleted
                                                            ++ codes "\n"))))))))))))))))))

unfoldable pub digest_text : List Meta → Text
unfolding digest_line
digest_text [] = []
digest_text (m ∷ ms) = digest_line m ++ digest_text ms

unfoldable pub feed_head : ℤ → List Meta → ℤ
feed_head head [] = head
feed_head head (m ∷ ms) = feed_head (maxz head m.seq) ms

pub record Summary : Type 0 where
  pub digest : Text
  pub entries : ℤ
  pub head : ℤ

unfoldable pub digest : (Text → Text) → Exec Db Summary
unfolding all digest_text feed_head
digest sum256 = do
  rows ← all
  pure (record {
    digest = hex_encode (sum256 (digest_text rows));
    entries = pos (length rows);
    head = feed_head (pos 0) rows;
  })

-- `SELECT seq FROM local`
unfoldable pub head : Exec Db ℤ
unfolding sql
head = do sql; gets (λ db. pos db.seq)

-- The rows of a batch with their feed positions, from the one after `base` on.
unfoldable pub stamp : ℕ → List Meta → List EntryRow
unfolding row_of
stamp base [] = []
stamp base (m ∷ ms) = record (row_of m) { seq = pos (base + 1) } ∷ stamp (base + 1) ms

unfoldable pub apply_batch : List Meta → Exec Db ℤ
unfolding sql stamp upsert_all
apply_batch metas = do
  sql
  modify (λ db. record db { seq = db.seq + length metas })
  new_head ← gets (λ db. db.seq)
  sql
  modify (λ db. record db {
    entries = upsert_all same_path (stamp (new_head - length metas) metas) db.entries;
  })
  pure (pos new_head)

-- `Apply`
unfoldable pub apply : List Meta → Exec Db ℤ
unfolding head apply_batch transaction
apply [] = head
apply (m ∷ ms) = transaction (apply_batch (m ∷ ms))

unfoldable pub put_blob : (Text → Text) → Text → Exec Db Text
unfolding sql insert_new
put_blob sum256 content = do
  let hash = hash_content sum256 content
  sql
  modify (λ db. record db {
    blobs =
        insert_new same_hash
          (record { hash = hash; size = pos (length content); content = content }) db.blobs;
  })
  pure hash

unfoldable pub blob : Text → Exec Db Text
unfolding sql take_row
blob hash = do
  sql
  row ← gets (λ db. take_row (has_hash hash) db.blobs)
  b ← some_or not_found row
  pure b.content

-- `SELECT count(*) … > 0`
unfoldable pub has_blob : Text → Exec Db Bool
unfolding sql select
has_blob hash = do sql; gets (λ db. ltb 0 (length (select (has_hash hash) db.blobs)))

abbrev last_seq_or_zero : Option PeerRow → ℤ
last_seq_or_zero none = pos 0
last_seq_or_zero (some p) = p.last_seq

unfoldable pub peer_seq : Text → Exec Db ℤ
unfolding sql take_row
peer_seq node = do sql; gets (λ db. last_seq_or_zero (take_row (at_node node) db.peers))

unfoldable pub set_peer_seq : Text → Text → ℤ → ℤ → Exec Db (Unit {0})
unfolding sql upsert
set_peer_seq node addr seq seen_at = do
  sql
  modify (λ db. record db {
    peers =
        upsert same_node (record { node = node; addr = addr; last_seq = seq; seen_at = seen_at })
          db.peers;
  })

unfoldable pub peers : Exec Db (List PeerRow)
unfolding sql order_by
peers = do sql; gets (λ db. order_by (λ p q. ltt p.node q.node) db.peers)

-- `deleted = 1 AND deleted_at > 0 AND deleted_at < before`
abbrev pub is_expired : ℤ → EntryRow → Bool
is_expired before r = r.deleted && ltz (pos 0) r.deleted_at && ltz r.deleted_at before

unfoldable pub gc_tombstones : ℤ → Exec Db ℕ
unfolding sql select
gc_tombstones before = do
  sql
  gone ← gets (λ db. length (select (is_expired before) db.entries))
  modify (λ db. record db { entries = select (λ r. not (is_expired before r)) db.entries })
  pure gone

-- `hash IN (SELECT hash FROM entries WHERE hash != '')`
unfoldable pub is_referenced : List EntryRow → Text → Bool
is_referenced [] hash = false
is_referenced (r ∷ rows) hash =
    if not (r.hash == []) && r.hash == hash then true else is_referenced rows hash

unfoldable pub gc_blobs : Exec Db ℕ
unfolding sql select is_referenced
gc_blobs = do
  sql
  gone ← gets (λ db. length (select (λ b. not (is_referenced db.entries b.hash)) db.blobs))
  modify (λ db. record db { blobs = select (λ b. is_referenced db.entries b.hash) db.blobs })
  pure gone

sum_sizes : List BlobRow → ℤ
sum_sizes [] = pos 0
sum_sizes (b ∷ bs) = b.size +ℤ sum_sizes bs

pub record Stats : Type 0 where
  pub entries : ℕ
  pub tombstones : ℕ
  pub blobs : ℕ
  pub blob_bytes : ℤ
  pub head : ℤ

unfoldable pub stats : Exec Db Stats
unfolding sql head select sum_sizes
stats = do
  sql
  entries ← gets (λ db. length db.entries)
  sql
  tombstones ← gets (λ db. length (select (λ r. r.deleted) db.entries))
  sql
  blobs ← gets (λ db. length db.blobs)
  sql
  bytes ← gets (λ db. sum_sizes db.blobs)
  at ← head
  pure (record {
    entries = entries;
    tombstones = tombstones;
    blobs = blobs;
    blob_bytes = bytes;
    head = at;
  })
