-- ===== src/Store/State.antt =====
-- The four tables of internal/store/migrations/00001_init.sql, and the rows of entries.
use distributed_configs_fs.Base.{ℕ, Bool, true, false, ℤ, pos, Text, List, [], ◌∷◌}
use distributed_configs_fs.Core.Entry.{Meta}
use distributed_configs_fs.Core.Error.{Result, ok, err, database}
use distributed_configs_fs.Effect.{Exec}

pub record EntryRow : Type 0 where
  pub path : Text
  pub kind : ℕ
  pub hash : Text
  pub prev_hash : Text
  pub size : ℤ
  pub mode : ℕ
  pub uid : ℕ
  pub gid : ℕ
  pub hlc_wall : ℤ
  pub hlc_counter : ℕ
  pub origin : Text
  pub deleted : Bool
  pub deleted_at : ℤ
  pub seq : ℤ

-- `entryRow.meta`
unfoldable pub meta : EntryRow → Meta
meta r = record {
  path = r.path;
  kind = r.kind;
  hash = r.hash;
  prev_hash = r.prev_hash;
  size = r.size;
  mode = r.mode;
  uid = r.uid;
  gid = r.gid;
  version = record {
    hlc = record { wall = r.hlc_wall; counter = r.hlc_counter };
    origin = r.origin;
  };
  deleted = r.deleted;
  deleted_at = r.deleted_at;
  seq = r.seq;
}

-- `rowOf` leaves the feed position at its zero value.
unfoldable pub row_of : Meta → EntryRow
row_of m = record {
  path = m.path;
  kind = m.kind;
  hash = m.hash;
  prev_hash = m.prev_hash;
  size = m.size;
  mode = m.mode;
  uid = m.uid;
  gid = m.gid;
  hlc_wall = m.version.hlc.wall;
  hlc_counter = m.version.hlc.counter;
  origin = m.version.origin;
  deleted = m.deleted;
  deleted_at = m.deleted_at;
  seq = pos 0;
}

pub record BlobRow : Type 0 where
  pub hash : Text
  pub size : ℤ
  pub content : Text

pub record PeerRow : Type 0 where
  pub node : Text
  pub addr : Text
  pub last_seq : ℤ
  pub seen_at : ℤ

-- `seq` is the counter of the table local. `faults` says which of the statements to come the
-- database fails; past its end every statement succeeds.
pub record Db : Type 0 where
  pub entries : List EntryRow
  pub blobs : List BlobRow
  pub peers : List PeerRow
  pub seq : ℕ
  pub faults : List Bool

abbrev pub empty_db : Db
empty_db = record { entries = []; blobs = []; peers = []; seq = 0; faults = [] }

abbrev pub outcome : List Bool → Db → Result (Unit {0}) × Db
outcome [] db = (ok tt, db)
outcome (true ∷ rest) db = (err database, record db { faults = rest })
outcome (false ∷ rest) db = (ok tt, record db { faults = rest })

-- The outcome of one statement.
unfoldable pub sql : Exec Db (Unit {0})
sql db = outcome db.faults db

abbrev pub roll_back : {A : Type 0} → Db → Result A × Db → Result A × Db
roll_back db (ok a, db') = (ok a, db')
roll_back db (err e, db') = (err e, record db { faults = db'.faults })

-- A transaction that fails leaves the tables as they were.
unfoldable pub transaction : {A : Type 0} → Exec Db A → Exec Db A
transaction m db = roll_back db (m db)
