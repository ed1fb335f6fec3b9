-- ===== src/Store/Invariant.antt =====
-- internal/store/store.go: the tables under sequences of operations.
mod Rows
use distributed_configs_fs.Base.{
  ℕ, ◌+◌, ◌≡◌, refl, ◌≢◌, ap, Bool, not, ◌≤◌, ℤ, pos, ◌≤ℤ◌, ◌<ℤ◌, Text, List, [], ◌∷◌, length, All,
  ◌==◌, arith, text_eq, int_eq, none, Bool-cases, inl, inr,
}
use distributed_configs_fs.Core.Entry.{Meta, hash_content}
use distributed_configs_fs.Effect.Keeps.{Keeps, Keeps-then, Keeps-modify, Keeps-reads}
use distributed_configs_fs.Store.State.{EntryRow, BlobRow, PeerRow, Db, row_of, sql}
use distributed_configs_fs.Store.Table.{take_row, select, upsert, upsert_all, insert_new}
use distributed_configs_fs.Store.Table.Keys.{
  UniqueKeys, select-UniqueKeys, upsert-UniqueKeys, insert_new-UniqueKeys,
}
use distributed_configs_fs.Store.Outcome.{with_faults, sql-cases, written, apply-cases}
use distributed_configs_fs.Store.Ops
use distributed_configs_fs.Store.Ops.{
  stamp, same_path, apply_batch, is_expired, is_referenced, same_hash, same_node,
}
use distributed_configs_fs.Store.Table.Every.{All-select, All-upsert}
use distributed_configs_fs.Store.Invariant.Rows.{
  InFeed, IsAddressed, IsTable, stamp-IsTable, insert_new-IsAddressed,
}

-- One row for each path, each at a position of the feed that no other row has; every blob stored
-- under the hash of its content, once; one row for each peer.
pub record IsWellFormed (sum256 : Text → Text) (db : Db) : Type 0 where
  pub paths : UniqueKeys (λ (r : EntryRow). r.path) db.entries
  pub in_feed : All (InFeed db.seq) db.entries
  pub positions : UniqueKeys (λ (r : EntryRow). r.seq) db.entries
  pub addressed : All (IsAddressed sum256) db.blobs
  pub hashes : UniqueKeys (λ (b : BlobRow). b.hash) db.blobs
  pub nodes : UniqueKeys (λ (p : PeerRow). p.node) db.peers

module _ (sum256 : Text → Text) where
  abbrev Sound : Db → Type 0
  Sound = IsWellFormed sum256

  with_faults-IsWellFormed : (fs : List Bool) (db : Db) → Sound db → Sound (with_faults fs db)
  with_faults-IsWellFormed fs db w = record {
    paths = w.paths;
    in_feed = w.in_feed;
    positions = w.positions;
    addressed = w.addressed;
    hashes = w.hashes;
    nodes = w.nodes;
  }

  pub sql-IsWellFormed : Keeps Sound sql
  sql-IsWellFormed = record {
    still = λ db w. elim (sql-cases db) [
      | inl (fs, e) ↦ rw e (with_faults-IsWellFormed fs db w)
      | inr (fs, e) ↦ rw e (with_faults-IsWellFormed fs db w)
    ];
  }

  written-IsWellFormed :
      (metas : List Meta) (fs : List Bool) (db : Db) → Sound db → Sound (written metas fs db)
  written-IsWellFormed metas fs db w =
      let t : IsTable (db.seq + length metas)
          (upsert_all same_path (stamp db.seq metas) db.entries) =
        stamp-IsTable db.seq metas db.entries
          (record { paths = w.paths; in_feed = w.in_feed; positions = w.positions }) in
      record {
        paths = t.paths;
        in_feed = t.in_feed;
        positions = t.positions;
        addressed = w.addressed;
        hashes = w.hashes;
        nodes = w.nodes;
      }

  pub apply-IsWellFormed : (metas : List Meta) → Keeps Sound (Ops.apply metas)
  unfolding Ops.apply Ops.head
  apply-IsWellFormed [] = Keeps-then _ _ sql-IsWellFormed λ _. Keeps-reads _
  apply-IsWellFormed (m ∷ ms) = record {
    still = λ db w. elim (apply-cases m ms db) [
      | inl (fs, e) ↦ rw (ap (λ r. r.1) e) (with_faults-IsWellFormed fs db w)
      | inr (fs, e) ↦ rw (ap (λ r. r.1) e) (written-IsWellFormed (m ∷ ms) fs db w)
    ];
  }

  put_blob-IsWellFormed : (content : Text) → Keeps Sound (Ops.put_blob sum256 content)
  unfolding Ops.put_blob
  put_blob-IsWellFormed content = Keeps-then _ _ sql-IsWellFormed λ _.
      Keeps-then _ _
        (Keeps-modify _ λ db w. record {
          paths = w.paths;
          in_feed = w.in_feed;
          positions = w.positions;
          addressed = insert_new-IsAddressed sum256 _ db.blobs refl w.addressed;
          hashes = insert_new-UniqueKeys (λ (b : BlobRow). b.hash) _ db.blobs w.hashes;
          nodes = w.nodes;
        })
        λ _. Keeps-reads _

  set_peer_seq-IsWellFormed :
      (node addr : Text) (seq seen_at : ℤ) → Keeps Sound (Ops.set_peer_seq node addr seq seen_at)
  unfolding Ops.set_peer_seq
  set_peer_seq-IsWellFormed node addr seq seen_at = Keeps-then _ _ sql-IsWellFormed λ _.
      Keeps-modify _ λ db w. record {
        paths = w.paths;
        in_feed = w.in_feed;
        positions = w.positions;
        addressed = w.addressed;
        hashes = w.hashes;
        nodes = upsert-UniqueKeys (λ (p : PeerRow). p.node) _ db.peers w.nodes;
      }

  gc_tombstones-IsWellFormed : (before : ℤ) → Keeps Sound (Ops.gc_tombstones before)
  unfolding Ops.gc_tombstones
  gc_tombstones-IsWellFormed before =
      let test : EntryRow → Bool = λ r. not (is_expired before r) in
      Keeps-then _ _ sql-IsWellFormed λ _. Keeps-then _ _ (Keeps-reads _) λ _.
        Keeps-then _ _
          (Keeps-modify _ λ db w. record {
            paths = select-UniqueKeys (λ (r : EntryRow). r.path) test db.entries w.paths;
            in_feed = All-select (InFeed db.seq) test db.entries w.in_feed;
            positions = select-UniqueKeys (λ (r : EntryRow). r.seq) test db.entries w.positions;
            addressed = w.addressed;
            hashes = w.hashes;
            nodes = w.nodes;
          })
          λ _. Keeps-reads _

  gc_blobs-IsWellFormed : Keeps Sound Ops.gc_blobs
  unfolding Ops.gc_blobs
  gc_blobs-IsWellFormed = Keeps-then _ _ sql-IsWellFormed λ _. Keeps-then _ _ (Keeps-reads _) λ _.
      Keeps-then _ _
        (Keeps-modify _ λ db w. record {
          paths = w.paths;
          in_feed = w.in_feed;
          positions = w.positions;
          addressed = All-select (IsAddressed sum256) _ db.blobs w.addressed;
          hashes = select-UniqueKeys (λ (b : BlobRow). b.hash) _ db.blobs w.hashes;
          nodes = w.nodes;
        })
        λ _. Keeps-reads _

-- The operations that change the tables.
pub data Op : Type 0 where
  apply_op : List Meta → Op
  put_blob_op : Text → Op
  set_peer_seq_op : Text → Text → ℤ → ℤ → Op
  gc_tombstones_op : ℤ → Op
  gc_blobs_op : Op

-- The tables after an operation, whether it succeeds or fails.
pub run : (Text → Text) → Op → Db → Db
run sum256 (apply_op metas) db = (Ops.apply metas db).1
run sum256 (put_blob_op content) db = (Ops.put_blob sum256 content db).1
run sum256 (set_peer_seq_op node addr seq seen_at) db =
    (Ops.set_peer_seq node addr seq seen_at db).1
run sum256 (gc_tombstones_op before) db = (Ops.gc_tombstones before db).1
run sum256 gc_blobs_op db = (Ops.gc_blobs db).1

pub run_all : (Text → Text) → List Op → Db → Db
run_all sum256 [] db = db
run_all sum256 (op ∷ ops) db = run_all sum256 ops (run sum256 op db)

run-IsWellFormed :
    (sum256 : Text → Text) (op : Op) (db : Db)
    → IsWellFormed sum256 db
    → IsWellFormed sum256 (run sum256 op db)
unfolding run
run-IsWellFormed sum256 (apply_op metas) db w = (apply-IsWellFormed sum256 metas).still db w
run-IsWellFormed sum256 (put_blob_op content) db w =
    (put_blob-IsWellFormed sum256 content).still db w
run-IsWellFormed sum256 (set_peer_seq_op node addr seq seen_at) db w =
    (set_peer_seq-IsWellFormed sum256 node addr seq seen_at).still db w
run-IsWellFormed sum256 (gc_tombstones_op before) db w =
    (gc_tombstones-IsWellFormed sum256 before).still db w
run-IsWellFormed sum256 gc_blobs_op db w = (gc_blobs-IsWellFormed sum256).still db w

-- Any sequence of operations on well-formed tables, failed ones included, leaves them well formed:
-- one row for each path, at a feed position of its own between 1 and the counter, every blob once
-- and under the hash of its content, and one row for each peer.
pub run_all-IsWellFormed :
    (sum256 : Text → Text) (ops : List Op) (db : Db)
    → IsWellFormed sum256 db
    → IsWellFormed sum256 (run_all sum256 ops db)
unfolding run_all
run_all-IsWellFormed sum256 [] db w = w
run_all-IsWellFormed sum256 (op ∷ ops) db w =
    run_all-IsWellFormed sum256 ops _ (run-IsWellFormed sum256 op db w)
