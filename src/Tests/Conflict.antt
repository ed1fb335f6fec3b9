-- ===== src/Tests/Conflict.antt =====
-- A page that is in conflict with a local entry.
use native.Mathlib.Decide.{ℕ_discrete}
use distributed_configs_fs.Base.{
  ◌≡◌, refl, wrap64, ◌-ℤ◌, true, pos, maxz, Text, [], ◌∷◌, codes, text_eq, int_eq, nat_eq,
  has_prefix,
}
use distributed_configs_fs.Core.Error.{ok}
use distributed_configs_fs.Core.Entry.{
  Meta, after, equal, compare_time, hex_encode, hex_digit, hash_content, valid,
}
use distributed_configs_fs.Core.Clock.{tick, new_clock, observe, merge_time, merge_counter, drifts}
use distributed_configs_fs.Core.Paths.{
  sanitize_path, clean, split, join, clean_step, clean_elements, contains_nul, check_elements,
  cons_head,
}
use distributed_configs_fs.Effect.{◌>>=◌}
use distributed_configs_fs.Store.State.{Db, empty_db, sql, transaction, row_of, meta}
use distributed_configs_fs.Store.Table.{take_row, select, upsert, upsert_all, insert_new}
use distributed_configs_fs.Store.Ops.{get, apply, apply_batch, stamp, put_blob, has_blob}
use distributed_configs_fs.Syncer.State.{new_service, notify, clock_now, clock_observe}
use distributed_configs_fs.Syncer.Local.{lookup, commit, new_version}
use distributed_configs_fs.Syncer.Resolve.{resolve, conflict}
use distributed_configs_fs.Syncer.Pull.{
  advance, validate, all_hex, ensure_blob, fetch_blob, conflict_copy, fetch_or_defer, store_remote,
  decide, resolve_remote, apply_entry, apply_entries, commit_page, apply_remote,
}
use distributed_configs_fs.Syncer.State.{Service}
use distributed_configs_fs.Core.Entry.{Timestamp}
use distributed_configs_fs.Syncer.Pull.{is_ok}
use distributed_configs_fs.Syncer.Content.{HasContent}
use distributed_configs_fs.Syncer.Local.Ends.{current_at}
use distributed_configs_fs.Core.Clock.{adopted}
use distributed_configs_fs.Core.Paths.{conflict_name}
use distributed_configs_fs.Syncer.Pull.Preserved.{apply_remote_preserves}
use distributed_configs_fs.Tests.Pull.{peer, older, entry}
use distributed_configs_fs.Tests.Node.{cfg, counting, sum, a_path}

abbrev hash : Text
hash = codes "0123456789abcdef0123456789abcdef0123456789abcdef0123456789abcdef"

abbrev remote : Meta
remote = record (entry 2 (codes "beta") hash (codes "03")) { seq = pos 5 }

-- The local content is not the one that the remote write has replaced.
abbrev held : Db
held = record empty_db {
  entries = record (row_of older) { seq = pos 1 } ∷ [];
  blobs = record { hash = hash; size = pos 1; content = codes "y" } ∷ [];
  seq = 1;
}

abbrev node : Service
node = new_service held counting

abbrev seen : Timestamp
seen = record { wall = pos 2; counter = 1 }

is_valid : validate cfg remote ≡ ok tt
unfolding apply_remote apply_entries apply_entry commit_page store_remote resolve_remote decide
    fetch_or_defer ensure_blob fetch_blob conflict_copy validate advance has_blob resolve
    new_service new_clock lookup get sql take_row select put_blob insert_new new_version clock_now
    clock_observe observe merge_time merge_counter drifts tick commit apply apply_batch transaction
    upsert_all upsert stamp row_of meta notify ◌>>=◌ sanitize_path contains_nul check_elements clean
    split join clean_step clean_elements cons_head hash_content hex_encode hex_digit ℕ_discrete
    text_eq int_eq has_prefix valid all_hex wrap64 ◌-ℤ◌ maxz compare_time equal after
is_valid = refl

is_adopted : (observe node.clock remote.version.hlc).0 ≡ adopted seen
unfolding apply_remote apply_entries apply_entry commit_page store_remote resolve_remote decide
    fetch_or_defer ensure_blob fetch_blob conflict_copy validate advance has_blob resolve
    new_service new_clock lookup get sql take_row select put_blob insert_new new_version clock_now
    clock_observe observe merge_time merge_counter drifts tick commit apply apply_batch transaction
    upsert_all upsert stamp row_of meta notify ◌>>=◌ sanitize_path contains_nul check_elements clean
    split join clean_step clean_elements cons_head hash_content hex_encode hex_digit ℕ_discrete
    text_eq int_eq has_prefix valid all_hex wrap64 ◌-ℤ◌ maxz compare_time equal after
is_adopted = refl

is_conflict : resolve (current_at a_path node).0 (current_at a_path node).1 remote ≡ conflict
unfolding apply_remote apply_entries apply_entry commit_page store_remote resolve_remote decide
    fetch_or_defer ensure_blob fetch_blob conflict_copy validate advance has_blob resolve
    new_service new_clock lookup get sql take_row select put_blob insert_new new_version clock_now
    clock_observe observe merge_time merge_counter drifts tick commit apply apply_batch transaction
    upsert_all upsert stamp row_of meta notify ◌>>=◌ sanitize_path contains_nul check_elements clean
    split join clean_step clean_elements cons_head hash_content hex_encode hex_digit ℕ_discrete
    text_eq int_eq has_prefix valid all_hex wrap64 ◌-ℤ◌ maxz compare_time equal after
is_conflict = refl

at_hand : HasContent node.db remote
unfolding apply_remote apply_entries apply_entry commit_page store_remote resolve_remote decide
    fetch_or_defer ensure_blob fetch_blob conflict_copy validate advance has_blob resolve
    new_service new_clock lookup get sql take_row select put_blob insert_new new_version clock_now
    clock_observe observe merge_time merge_counter drifts tick commit apply apply_batch transaction
    upsert_all upsert stamp row_of meta notify ◌>>=◌ sanitize_path contains_nul check_elements clean
    split join clean_step clean_elements cons_head hash_content hex_encode hex_digit ℕ_discrete
    text_eq int_eq has_prefix valid all_hex wrap64 ◌-ℤ◌ maxz compare_time equal after
at_hand = refl

no_faults : node.db.faults ≡ []
unfolding new_service
no_faults = refl

apply_remote_preserves_example :
    let local = (current_at a_path node).0 in
    let end = apply_remote sum cfg peer (codes "addr") (remote ∷ []) node in
    let beside =
      (current_at (conflict_name local.path local.version.origin local.version.hlc.wall) end.1).0 in
    (is_ok end.0 ≡ true)
    × (record (current_at a_path end.1).0 { seq = remote.seq } ≡ remote)
    × (beside.hash ≡ local.hash)
    × (beside.deleted ≡ local.deleted)
    × (beside.version.origin ≡ cfg.node)
apply_remote_preserves_example =
    apply_remote_preserves sum cfg peer (codes "addr") remote seen node no_faults is_valid
      is_adopted is_conflict at_hand
