-- ===== src/Tests/Pull.antt =====
-- Writes that meet, a page of a peer's feed, garbage collection and a run of a node.
use native.Mathlib.Decide.{ℕ_discrete}
use distributed_configs_fs.Base.{
  ℕ, ◌≡◌, ◌≢◌, ◌⊎◌, All, refl, sym, ap, ◌∙◌, wrap64, ◌-ℤ◌, ◌↔◌, inl, inr, not, ◌&&◌, ltz, ◌<ℤ◌,
  arith, Bool, true, false, pos, maxz, Text, List, [], ◌∷◌, codes, text_eq, int_eq, nat_eq, none,
  has_prefix, ◌==◌,
}
use distributed_configs_fs.Core.Error.{Result, ok, err, network}
use distributed_configs_fs.Core.Entry.{
  Meta, Version, zero_meta, kind_file, kind_dir, after, equal, compare_time, hex_encode, hex_digit,
  hash_content, valid,
}
use distributed_configs_fs.Core.Clock.{tick, new_clock, observe, merge_time, merge_counter, drifts}
use distributed_configs_fs.Core.Paths.{
  sanitize_path, clean, split, join, clean_step, clean_elements, contains_nul, check_elements,
  cons_head,
}
use distributed_configs_fs.Effect.{◌>>=◌}
use distributed_configs_fs.Store.State.{
  EntryRow, BlobRow, Db, empty_db, sql, transaction, row_of, meta,
}
use distributed_configs_fs.Store.Table.{take_row, select, upsert, upsert_all, insert_new}
use distributed_configs_fs.Store.Table.Keys.{UniqueKeys, keep_if}
use distributed_configs_fs.Store.Ops.{
  at_path, has_hash, get, apply, apply_batch, stamp, put_blob, has_blob, is_referenced, gc_blobs,
  gc_tombstones,
}
use distributed_configs_fs.Store.Collect.{Names, gc_blobs_exact, gc_tombstones_exact}
use distributed_configs_fs.Store.Invariant.{
  IsWellFormed, Op, apply_op, put_blob_op, gc_blobs_op, gc_tombstones_op, run_all,
  run_all-IsWellFormed,
}
use distributed_configs_fs.Syncer.State.{PeerClient, new_service, notify, clock_now, clock_observe}
use distributed_configs_fs.Syncer.Local.{lookup, commit, new_version}
use distributed_configs_fs.Syncer.Resolve.{resolve, skip, accept, conflict}
use distributed_configs_fs.Syncer.Resolve.Exact.{IsConflict, resolve_exact}
use distributed_configs_fs.Syncer.Resolve.Converge.{see_all, In, see_all_converges}
use distributed_configs_fs.Syncer.Content.{IsServable}
use distributed_configs_fs.Syncer.Pull.{
  new_page, advance, validate, all_hex, ensure_blob, fetch_blob, conflict_copy, fetch_or_defer,
  store_remote, decide, resolve_remote, apply_entry, apply_entries, commit_page, apply_remote,
}
use distributed_configs_fs.Syncer.Pull.Waits.{IsWithheld, apply_remote_waits}
use distributed_configs_fs.Syncer.Local.Ends.{current_at}
use distributed_configs_fs.Syncer.State.{Service}
use distributed_configs_fs.Core.Entry.{Timestamp}
use distributed_configs_fs.Core.Clock.{adopted}
use distributed_configs_fs.Store.Table.Keys.{is_some}
use distributed_configs_fs.Syncer.Pull.{is_ok, needs_blob}
use distributed_configs_fs.Syncer.Pull.Servable.{IsVerified, apply_remote-IsServable}
use distributed_configs_fs.Syncer.Reachable.{
  Serves, Act, put_file_act, sync_act, collect_act, delete_act, run_acts, run_acts-Serves,
}
use distributed_configs_fs.Tests.Node.{cfg, counting, sum, fresh, a_path}

abbrev pub entry : ℕ → Text → Text → Text → Meta
entry wall origin hash prev = record zero_meta {
  path = a_path;
  kind = kind_file;
  hash = hash;
  prev_hash = prev;
  version = record { hlc = record { wall = pos wall; counter = 0 }; origin = origin };
}

abbrev pub older : Meta
older = entry 1 (codes "alpha") (codes "01") []

abbrev newer : Meta
newer = entry 2 (codes "beta") (codes "02") (codes "03")

resolve_exact_example :
    ((resolve older true newer ≡ skip) ↔ (after newer.version older.version ≡ false))
    × ((resolve older true newer ≡ conflict) ↔ IsConflict older newer)
    × (resolve older false newer ≡ accept)
resolve_exact_example = resolve_exact older newer

same_writes : (m : Meta) → In m (older ∷ newer ∷ []) ↔ In m (newer ∷ older ∷ [])
same_writes m = (
  λ h. elim h [ inl e ↦ inr (inl e) | inr (inl e) ↦ inl e | inr (inr e) ↦ absurd e ],
  λ h. elim h [ inl e ↦ inr (inl e) | inr (inl e) ↦ inl e | inr (inr e) ↦ absurd e ],
)

clash : older.version ≡ newer.version → ⊥
clash e = absurd (ground (arith, ap (λ (v : Version). v.hlc.wall) e))

two_versions :
    (m n : Meta)
    → In m (older ∷ newer ∷ [])
    → In n (older ∷ newer ∷ [])
    → m.version ≡ n.version
    → m ≡ n
two_versions m n (inl p) (inl q) h = cc
two_versions m n (inr (inl p)) (inr (inl q)) h = cc
two_versions m n (inl p) (inr (inl q)) h =
    absurd (clash (sym (ap (λ (x : Meta). x.version) p) ∙ (h ∙ ap (λ (x : Meta). x.version) q)))
two_versions m n (inr (inl p)) (inl q) h =
    absurd
      (clash (sym (sym (ap (λ (x : Meta). x.version) p) ∙ (h ∙ ap (λ (x : Meta). x.version) q))))
two_versions m n (inr (inr p)) q h = absurd p
two_versions m n p (inr (inr q)) h = absurd q

see_all_converges_example : see_all none (older ∷ newer ∷ []) ≡ see_all none (newer ∷ older ∷ [])
see_all_converges_example =
    see_all_converges (older ∷ newer ∷ []) (newer ∷ older ∷ []) same_writes two_versions

abbrev ops : List Op
ops =
    put_blob_op (codes "x")
    ∷ apply_op (older ∷ newer ∷ [])
    ∷ gc_blobs_op
    ∷ gc_tombstones_op (pos 5)
    ∷ []

run_all-IsWellFormed_example :
    IsWellFormed sum (run_all sum ops (record empty_db { faults = false ∷ true ∷ [] }))
run_all-IsWellFormed_example =
    run_all-IsWellFormed sum ops (record empty_db { faults = false ∷ true ∷ [] })
      (record { paths = tt; in_feed = tt; positions = tt; addressed = tt; hashes = tt; nodes = tt })

abbrev referenced_blob : BlobRow
referenced_blob = record { hash = codes "01"; size = pos 1; content = codes "x" }

-- A tombstone, a live entry, and a blob for each of the live entry and for nothing.
abbrev cluttered : Db
cluttered = record empty_db {
  entries =
      record (row_of older) { seq = pos 1 }
      ∷ record (row_of older) {
        path = codes "b";
        hash = [];
        deleted = true;
        deleted_at = pos 3;
        seq = pos 2;
      }
      ∷ [];
  blobs = referenced_blob ∷ record { hash = codes "02"; size = pos 1; content = codes "y" } ∷ [];
  seq = 2;
}

test_gc_blobs : (gc_blobs cluttered).0 ≡ ok 1
unfolding gc_blobs sql select is_referenced row_of ◌>>=◌ text_eq ℕ_discrete
test_gc_blobs = refl

gc_blobs_exact_example :
    let t = (gc_blobs cluttered).1 in
    ((Names (codes "01") cluttered.entries
        × (codes "01" ≢ [])
        × (take_row (has_hash (codes "01")) t.blobs
            ≡ take_row (has_hash (codes "01")) cluttered.blobs))
      ⊎ (((codes "01" ≡ []) ⊎ All (λ (r : EntryRow). r.hash ≢ codes "01") cluttered.entries)
          × (take_row (has_hash (codes "01")) t.blobs ≡ none)))
    × (t.entries ≡ cluttered.entries)
gc_blobs_exact_example = gc_blobs_exact cluttered (codes "01") test_gc_blobs

test_gc_tombstones : (gc_tombstones (pos 5) cluttered).0 ≡ ok 1
unfolding gc_tombstones sql select row_of ◌>>=◌ text_eq ℕ_discrete
test_gc_tombstones = refl

unique_paths : UniqueKeys (λ (r : EntryRow). r.path) cluttered.entries
unfolding take_row row_of text_eq ℕ_discrete
unique_paths = (refl, (refl, tt))

gc_tombstones_exact_example :
    let t = (gc_tombstones (pos 5) cluttered).1 in
    (take_row (at_path (codes "b")) t.entries
      ≡ keep_if
          (λ r. not (r.deleted && ltz (pos 0) r.deleted_at && ltz r.deleted_at (pos 5)))
          (take_row (at_path (codes "b")) cluttered.entries))
    × (t.blobs ≡ cluttered.blobs)
    × (t.seq ≡ cluttered.seq)
gc_tombstones_exact_example =
    gc_tombstones_exact cluttered (pos 5) (codes "b") unique_paths test_gc_tombstones

-- A peer that has the content `x` and no other.
abbrev answered : Bool → Result Text
answered true = ok (codes "x")
answered false = err network

abbrev pub peer : PeerClient
peer = record {
  digest = λ n addr. ok (record { digest = codes "d"; entries = pos 1; head = pos 3 });
  manifest = λ n addr since. err network;
  blob = λ n addr hash. answered (hash == hash_content sum (codes "x"));
}

answered-verified :
    (b : Bool) (hash content : Text)
    → (b ≡ true → hash ≡ hash_content sum (codes "x"))
    → answered b ≡ ok content
    → hash_content sum content ≡ hash
answered-verified true hash content k h = ground (arith, k refl)
answered-verified false hash content k h = cc h

verified : IsVerified sum peer
verified n addr hash content h = answered-verified _ hash content (λ e. ground arith) h

-- A directory, then a file whose content the peer does not have.
abbrev dir_first : Meta
dir_first = record zero_meta {
  path = codes "d";
  kind = kind_dir;
  version = record { hlc = record { wall = pos 1; counter = 0 }; origin = codes "beta" };
  seq = pos 4;
}

abbrev file_then : Meta
file_then =
    record (entry 2 (codes "beta")
      (codes "0123456789abcdef0123456789abcdef0123456789abcdef0123456789abcdef") []) { seq = pos 5 }

abbrev dir_last : Meta
dir_last = record dir_first { path = codes "e"; seq = pos 6 }

-- The node after the entry in front of the file.
abbrev after_first : Service
after_first = (apply_entries sum cfg peer (codes "addr") (dir_first ∷ []) new_page fresh).1

abbrev t_file : Timestamp
t_file = record { wall = pos 2; counter = 1 }

test_valid : is_ok (validate cfg file_then) ≡ true
unfolding apply_remote apply_entries apply_entry commit_page store_remote resolve_remote decide
    fetch_or_defer ensure_blob fetch_blob conflict_copy validate advance has_blob resolve
    new_service new_clock lookup get sql take_row select put_blob insert_new new_version clock_now
    clock_observe observe merge_time merge_counter drifts tick commit apply apply_batch transaction
    upsert_all upsert stamp row_of meta notify ◌>>=◌ sanitize_path contains_nul check_elements clean
    split join clean_step clean_elements cons_head hash_content hex_encode hex_digit ℕ_discrete
    text_eq int_eq has_prefix valid all_hex wrap64 ◌-ℤ◌ maxz compare_time equal after
test_valid = refl

test_adopted : (observe after_first.clock file_then.version.hlc).0 ≡ adopted t_file
unfolding apply_remote apply_entries apply_entry commit_page store_remote resolve_remote decide
    fetch_or_defer ensure_blob fetch_blob conflict_copy validate advance has_blob resolve
    new_service new_clock lookup get sql take_row select put_blob insert_new new_version clock_now
    clock_observe observe merge_time merge_counter drifts tick commit apply apply_batch transaction
    upsert_all upsert stamp row_of meta notify ◌>>=◌ sanitize_path contains_nul check_elements clean
    split join clean_step clean_elements cons_head hash_content hex_encode hex_digit ℕ_discrete
    text_eq int_eq has_prefix valid all_hex wrap64 ◌-ℤ◌ maxz compare_time equal after
test_adopted = refl

test_wanted :
    resolve
      (current_at file_then.path after_first).0
      (current_at file_then.path after_first).1
      file_then
    ≡ accept
unfolding apply_remote apply_entries apply_entry commit_page store_remote resolve_remote decide
    fetch_or_defer ensure_blob fetch_blob conflict_copy validate advance has_blob resolve
    new_service new_clock lookup get sql take_row select put_blob insert_new new_version clock_now
    clock_observe observe merge_time merge_counter drifts tick commit apply apply_batch transaction
    upsert_all upsert stamp row_of meta notify ◌>>=◌ sanitize_path contains_nul check_elements clean
    split join clean_step clean_elements cons_head hash_content hex_encode hex_digit ℕ_discrete
    text_eq int_eq has_prefix valid all_hex wrap64 ◌-ℤ◌ maxz compare_time equal after
test_wanted = refl

test_absent : is_some (take_row (has_hash file_then.hash) after_first.db.blobs) ≡ false
unfolding apply_remote apply_entries apply_entry commit_page store_remote resolve_remote decide
    fetch_or_defer ensure_blob fetch_blob conflict_copy validate advance has_blob resolve
    new_service new_clock lookup get sql take_row select put_blob insert_new new_version clock_now
    clock_observe observe merge_time merge_counter drifts tick commit apply apply_batch transaction
    upsert_all upsert stamp row_of meta notify ◌>>=◌ sanitize_path contains_nul check_elements clean
    split join clean_step clean_elements cons_head hash_content hex_encode hex_digit ℕ_discrete
    text_eq int_eq has_prefix valid all_hex wrap64 ◌-ℤ◌ maxz compare_time equal after
test_absent = refl

test_remote :
    (apply_remote sum cfg peer (codes "addr") (dir_first ∷ file_then ∷ dir_last ∷ []) fresh).0
    ≡ ok (pos 4)
unfolding apply_remote apply_entries apply_entry commit_page store_remote resolve_remote decide
    fetch_or_defer ensure_blob fetch_blob conflict_copy validate advance has_blob resolve
    new_service new_clock lookup get sql take_row select put_blob insert_new new_version clock_now
    clock_observe observe merge_time merge_counter drifts tick commit apply apply_batch transaction
    upsert_all upsert stamp row_of meta notify ◌>>=◌ sanitize_path contains_nul check_elements clean
    split join clean_step clean_elements cons_head hash_content hex_encode hex_digit ℕ_discrete
    text_eq int_eq has_prefix valid all_hex wrap64 ◌-ℤ◌ maxz compare_time equal after
test_remote = refl

other_content : file_then.hash == hash_content sum (codes "x") ≡ false
unfolding hash_content hex_encode hex_digit text_eq ℕ_discrete
other_content = refl

withheld : IsWithheld sum cfg peer (codes "addr") file_then
withheld n content h = let k = rw other_content at h in cc k

test_needs : needs_blob file_then ≡ true
unfolding text_eq ℕ_discrete
test_needs = refl

apply_remote_waits_example : pos 4 <ℤ file_then.seq
apply_remote_waits_example =
    apply_remote_waits sum cfg peer (codes "addr") file_then (dir_first ∷ []) (dir_last ∷ []) fresh
      t_file (pos 4) (omega arith, tt) (omega arith) test_valid test_needs withheld test_adopted
      wanted test_absent test_remote
  where
    wanted :
        resolve
          (current_at file_then.path after_first).0
          (current_at file_then.path after_first).1
          file_then
        ≢ skip
    wanted h = cc (h, test_wanted)

served : IsServable fresh.db
unfolding new_service
served = tt

apply_remote-IsServable_example :
    IsServable
      (apply_remote sum cfg peer (codes "addr") (dir_first ∷ file_then ∷ dir_last ∷ []) fresh).1.db
apply_remote-IsServable_example =
    apply_remote-IsServable sum cfg peer verified (codes "addr")
      (dir_first ∷ file_then ∷ dir_last ∷ []) fresh served

abbrev acts : List Act
acts =
    put_file_act a_path (codes "x") 420 0 0
    ∷ sync_act 3 (codes "beta") (codes "addr")
    ∷ delete_act a_path
    ∷ collect_act
    ∷ []

run_acts-Serves_example : Serves (
    run_acts sum cfg peer acts
      (new_service (record empty_db { faults = false ∷ true ∷ [] }) counting))
run_acts-Serves_example = run_acts-Serves sum cfg peer acts (false ∷ true ∷ []) counting verified
