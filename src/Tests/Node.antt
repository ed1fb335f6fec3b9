-- ===== src/Tests/Node.antt =====
-- A node with a constructed clock: its writes, its pulls and its tables.
use native.Mathlib.Decide.{ℕ_discrete}
use distributed_configs_fs.Base.{
  ℕ, ◌+◌, ◌≡◌, refl, ◌≢◌, ◌⊎◌, ◌<ℤ◌, arith, true, false, ℤ, pos, Text, [], ◌∷◌, codes, text_eq,
  int_eq, nat_eq, has_prefix,
}
use distributed_configs_fs.Core.Error.{ok, err, database}
use distributed_configs_fs.Core.Entry.{
  after, compare_time, zero_meta, kind_file, hex_encode, hex_digit, hash_content,
}
use distributed_configs_fs.Core.Clock.{tick, new_clock}
use distributed_configs_fs.Core.Paths.{
  sanitize_path, sanitize_mode, clean, split, join, clean_step, clean_elements, contains_nul,
  check_elements, cons_head,
}
use distributed_configs_fs.Effect.{◌>>=◌}
use distributed_configs_fs.Store.State.{Db, empty_db, sql, transaction, row_of, meta}
use distributed_configs_fs.Store.Table.{take_row, upsert, upsert_all, insert_new}
use distributed_configs_fs.Syncer.Content.{IsServable}
use distributed_configs_fs.Store.Table.Keys.{is_some}
use distributed_configs_fs.Store.Ops.{has_hash, at_path, get, apply, apply_batch, stamp, put_blob}
use distributed_configs_fs.Syncer.State.{Config, Service, new_service, notify, clock_now}
use distributed_configs_fs.Syncer.Local.{
  lookup, commit, new_version, put_file, write_file, holds_file,
}
use distributed_configs_fs.Syncer.Local.Writes.{
  HoldsFile, put_file_holds, put_file_twice, put_file_failure,
}
use distributed_configs_fs.Syncer.Local.Ends.{current_at}
use distributed_configs_fs.Syncer.Local.Versions.{put_file_supersedes, put_file-after_restart}
use distributed_configs_fs.Core.Clock.Advance.{HasRoom}

abbrev pub cfg : Config
cfg = record {
  node = codes "alpha";
  max_file_size = pos 1048576;
  tombstone_ttl = pos 1000;
  has_peers = true;
}

-- A physical clock that goes up by one at each reading.
abbrev pub counting : ℕ → ℤ
counting n = pos (n + 1)

-- A digest that tells the contents of the tests apart.
abbrev pub sum : Text → Text
sum s = s

abbrev pub fresh : Service
fresh = new_service empty_db counting

abbrev pub a_path : Text
a_path = codes "a"

test_put : (put_file sum cfg a_path (codes "x") 420 0 0 fresh).0 ≡ ok tt
unfolding put_file new_service new_clock lookup get sql take_row holds_file write_file put_blob
    insert_new new_version clock_now tick commit apply apply_batch transaction upsert_all upsert
    stamp row_of notify ◌>>=◌ sanitize_path sanitize_mode contains_nul check_elements clean split
    join clean_step clean_elements cons_head hash_content hex_encode hex_digit ℕ_discrete text_eq
    int_eq has_prefix
test_put = refl

full_hash : hash_content sum (codes "x") ≢ []
unfolding hash_content hex_encode hex_digit
full_hash h = cc h

servable : IsServable fresh.db
unfolding new_service
servable = tt

put_file_holds_example :
    let t = (put_file sum cfg a_path (codes "x") 420 0 0 fresh).1 in
    HoldsFile sum a_path (codes "x") 420 0 0 t
    × (is_some (take_row (has_hash (hash_content sum (codes "x"))) t.db.blobs) ≡ true)
    × ((codes "b" ≡ a_path)
        ⊎ (take_row (at_path (codes "b")) t.db.entries
            ≡ take_row (at_path (codes "b")) fresh.db.entries))
put_file_holds_example =
    put_file_holds sum cfg a_path (codes "x") 420 0 0 fresh (codes "b") full_hash servable test_put

-- The node after one write.
abbrev one : Service
one = (put_file sum cfg a_path (codes "x") 420 0 0 fresh).1

no_faults : one.db.faults ≡ []
unfolding put_file new_service new_clock lookup get sql take_row holds_file write_file put_blob
    insert_new new_version clock_now tick commit apply apply_batch transaction upsert_all upsert
    stamp row_of notify ◌>>=◌ sanitize_path sanitize_mode contains_nul check_elements clean split
    join clean_step clean_elements cons_head hash_content hex_encode hex_digit ℕ_discrete text_eq
    int_eq has_prefix
no_faults = refl

put_file_twice_example : put_file sum cfg a_path (codes "x") 420 0 0 one ≡ (ok tt, one)
put_file_twice_example = put_file_twice sum cfg a_path (codes "x") 420 0 0 fresh test_put no_faults

-- The statement that stores the entry fails.
abbrev failing : Service
failing = new_service (record empty_db { faults = false ∷ false ∷ false ∷ true ∷ [] }) counting

test_fail : (put_file sum cfg a_path (codes "x") 420 0 0 failing).0 ≡ err database
unfolding put_file new_service new_clock lookup get sql take_row holds_file write_file put_blob
    insert_new new_version clock_now tick commit apply apply_batch transaction upsert_all upsert
    stamp row_of notify ◌>>=◌ sanitize_path sanitize_mode contains_nul check_elements clean split
    join clean_step clean_elements cons_head hash_content hex_encode hex_digit ℕ_discrete text_eq
    int_eq has_prefix
test_fail = refl

put_file_failure_example :
    let t = (put_file sum cfg a_path (codes "x") 420 0 0 failing).1 in
    (t.db.entries ≡ failing.db.entries)
    × (t.announced ≡ failing.announced)
    × (t.subs ≡ failing.subs)
put_file_failure_example = put_file_failure sum cfg a_path (codes "x") 420 0 0 failing test_fail

test_second : (put_file sum cfg a_path (codes "y") 420 0 0 one).0 ≡ ok tt
unfolding put_file new_service new_clock lookup get sql take_row holds_file write_file put_blob
    insert_new new_version clock_now tick commit apply apply_batch transaction upsert_all upsert
    stamp row_of notify ◌>>=◌ sanitize_path sanitize_mode contains_nul check_elements clean split
    join clean_step clean_elements cons_head hash_content hex_encode hex_digit ℕ_discrete text_eq
    int_eq has_prefix
test_second = refl

has_room : HasRoom one.clock.last
unfolding put_file new_service new_clock lookup get sql take_row holds_file write_file put_blob
    insert_new new_version clock_now tick commit apply apply_batch transaction upsert_all upsert
    stamp row_of notify ◌>>=◌ sanitize_path sanitize_mode contains_nul check_elements clean split
    join clean_step clean_elements cons_head hash_content hex_encode hex_digit ℕ_discrete text_eq
    int_eq has_prefix
has_room = omega arith

known : compare_time (current_at a_path one).0.version.hlc one.clock.last ≢ pos 1
unfolding put_file new_service new_clock lookup get sql take_row holds_file write_file put_blob
    insert_new new_version clock_now tick commit apply apply_batch transaction upsert_all upsert
    stamp row_of notify ◌>>=◌ sanitize_path sanitize_mode contains_nul check_elements clean split
    join clean_step clean_elements cons_head hash_content hex_encode hex_digit ℕ_discrete text_eq
    int_eq has_prefix compare_time meta
known h = cc

put_file_supersedes_example :
    let t = (put_file sum cfg a_path (codes "y") 420 0 0 one).1 in
    ((current_at a_path t).0 ≡ (current_at a_path one).0)
    ⊎ (after (current_at a_path t).0.version (current_at a_path one).0.version ≡ true)
put_file_supersedes_example =
    put_file_supersedes sum cfg a_path (codes "y") 420 0 0 one test_second has_room known

-- An entry that another node has written at the time 100.
abbrev ahead : Db
ahead = record empty_db {
  entries =
      record (row_of (record zero_meta {
        path = a_path;
        kind = kind_file;
        hash = codes "7a";
        version = record { hlc = record { wall = pos 100; counter = 0 }; origin = codes "beta" };
      })) { seq = pos 1 }
      ∷ [];
  seq = 1;
}

test_restart : (put_file sum cfg a_path (codes "x") 420 0 0 (new_service ahead counting)).0 ≡ ok tt
unfolding put_file new_service new_clock lookup get sql take_row holds_file write_file put_blob
    insert_new new_version clock_now tick commit apply apply_batch transaction upsert_all upsert
    stamp row_of notify ◌>>=◌ sanitize_path sanitize_mode contains_nul check_elements clean split
    join clean_step clean_elements cons_head hash_content hex_encode hex_digit ℕ_discrete text_eq
    int_eq has_prefix meta
test_restart = refl

differs : HoldsFile sum a_path (codes "x") 420 0 0 (new_service ahead counting) → ⊥
unfolding put_file new_service new_clock lookup get sql take_row holds_file write_file put_blob
    insert_new new_version clock_now tick commit apply apply_batch transaction upsert_all upsert
    stamp row_of notify ◌>>=◌ sanitize_path sanitize_mode contains_nul check_elements clean split
    join clean_step clean_elements cons_head hash_content hex_encode hex_digit ℕ_discrete text_eq
    int_eq has_prefix meta
differs h = cc

behind : counting 0 <ℤ (current_at a_path (new_service ahead counting)).0.version.hlc.wall
unfolding put_file new_service new_clock lookup get sql take_row holds_file write_file put_blob
    insert_new new_version clock_now tick commit apply apply_batch transaction upsert_all upsert
    stamp row_of notify ◌>>=◌ sanitize_path sanitize_mode contains_nul check_elements clean split
    join clean_step clean_elements cons_head hash_content hex_encode hex_digit ℕ_discrete text_eq
    int_eq has_prefix meta
behind = omega arith

put_file-after_restart_example :
    let s = new_service ahead counting in
    after
      (current_at a_path s).0.version
      (current_at a_path (put_file sum cfg a_path (codes "x") 420 0 0 s).1).0.version
    ≡ true
put_file-after_restart_example =
    put_file-after_restart sum cfg a_path (codes "x") 420 0 0 ahead counting test_restart
      (omega arith) behind differs
