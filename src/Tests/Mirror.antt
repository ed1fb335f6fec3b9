-- ===== src/Tests/Mirror.antt =====
-- A directory with one file beside a tree with another one.
use native.Mathlib.Decide.{ℕ_discrete}
use distributed_configs_fs.Base.{
  ◌≡◌, refl, ◌≢◌, inl, true, false, pos, Text, codes, text_eq, int_eq, List, [], ◌∷◌, All, none,
  some, has_prefix, nat_eq,
}
use distributed_configs_fs.Core.Error.{ok}
use distributed_configs_fs.Core.Entry.{
  Meta, zero_meta, kind_file, hash_content, hex_encode, hex_digit,
}
use distributed_configs_fs.Core.Paths.{
  clean, split, join, clean_step, clean_elements, cons_head, base,
}
use distributed_configs_fs.Effect.{◌>>=◌}
use distributed_configs_fs.Store.State.{EntryRow, BlobRow, Db, empty_db, sql}
use distributed_configs_fs.Store.Table.{take_row, upsert, select}
use distributed_configs_fs.Store.Ops.{at_path, blob}
use distributed_configs_fs.Syncer.State.{Service}
use distributed_configs_fs.Syncer.Local.Live.{IsLive}
use distributed_configs_fs.Syncer.Local.View.{
  Command, put_command, delete_command, view, run_commands, all_on_map,
}
use distributed_configs_fs.Syncer.Local.Refines.{run_commands_refines}
use distributed_configs_fs.Mirror.Names.{tmp_name, ancestors, dir_name, join_names}
use distributed_configs_fs.Mirror.Disk.{
  Inode, Disk, regular, node_at, put_node, drop_node, next_fault, syscall, reach, find, lstat,
  read_file, open_trunc, open_at, open_found, follow_links, follow, led_to, unix_mode, mkdir_mode,
  cleared, write, remove, rename, chmod, lchown,
}
use distributed_configs_fs.Mirror.Write.{write_atomic, fill_tmp, or_remove, make_all}
use distributed_configs_fs.Mirror.Write.Atomic.{IsPlain}
use distributed_configs_fs.Mirror.State.{Mirror}
use distributed_configs_fs.Mirror.Render.{render_file, apply_meta, read_local, write_file}
use distributed_configs_fs.Mirror.Render.Applied.{IsRendered}
use distributed_configs_fs.Mirror.Render.Content.{render_file_renders}
use distributed_configs_fs.Mirror.Scan.{promote}
use distributed_configs_fs.Mirror.Scan.Known.{promote_leaves}
use distributed_configs_fs.Mirror.Watch.{RawEvent}
use distributed_configs_fs.Mirror.Loop.{Step, changed, ticked, settled, notified, run_steps, idle}
use distributed_configs_fs.Mirror.Loop.Deletes.{is_quiet, run_steps-IsLive}
use distributed_configs_fs.Tests.Node.{cfg, sum, fresh, a_path}

abbrev b_path : Text
b_path = codes "b"

abbrev b_node : Inode
b_node = record {
  path = b_path;
  kind = regular;
  content = codes "local";
  target = none;
  other_size = pos 0;
  mode = 420;
  uid = 0;
  gid = 0;
  mtime = pos 5;
  listable = true;
}

abbrev a_disk : Disk
a_disk = record { nodes = b_node ∷ []; time = pos 9; uid = 0; gid = 0; faults = []; max_links = 8 }

-- The file `a` with the content x, as the tree has it.
abbrev pub a_row : EntryRow
a_row = record {
  path = a_path;
  kind = kind_file;
  hash = codes "78";
  prev_hash = [];
  size = pos 1;
  mode = 420;
  uid = 0;
  gid = 0;
  hlc_wall = pos 3;
  hlc_counter = 0;
  origin = codes "beta";
  deleted = false;
  deleted_at = pos 0;
  seq = pos 1;
}

abbrev pub a_blob : BlobRow
a_blob = record { hash = codes "78"; size = pos 1; content = codes "x" }

abbrev pub a_db : Db
a_db = record empty_db { entries = a_row ∷ []; blobs = a_blob ∷ []; seq = 1 }

abbrev a_tree : Service
a_tree = record fresh { db = a_db }

abbrev a_mirror : Mirror
a_mirror = record {
  disk = a_disk;
  tree = a_tree;
  can_chown = true;
  warned_chown = false;
  inflight = [];
}

tmp_of_a : tmp_name a_path ≡ codes ".dcfs-tmp-a"
unfolding tmp_name join_names dir_name base clean split join clean_step clean_elements cons_head
    has_prefix text_eq ℕ_discrete
tmp_of_a = refl

tmp_not_a : tmp_name a_path ≢ a_path
tmp_not_a h = cc (rw tmp_of_a at h)

no_tmp : IsPlain (node_at (tmp_name a_path) a_disk)
unfolding node_at take_row text_eq ℕ_discrete
no_tmp = rw tmp_of_a tt

IsLive-a : IsLive a_path a_tree
unfolding take_row text_eq ℕ_discrete
IsLive-a = (a_row, refl, refl)

abbrev a_raw : RawEvent
a_raw = record { name = codes "/etc/cluster/b"; create = true; remove = false; rename = false }

abbrev a_steps : List Step
a_steps = notified a_raw ∷ changed ∷ settled ∷ ticked ∷ []

All-quiet : All (λ step. is_quiet step ≡ true) a_steps
unfolding is_quiet
All-quiet = (refl, (refl, (refl, (refl, tt))))

run_steps-IsLive_example :
    IsLive a_path (run_steps sum cfg (codes "/etc/cluster") a_steps (a_mirror, idle)).0.tree
run_steps-IsLive_example =
    run_steps-IsLive a_path sum cfg (codes "/etc/cluster") a_steps (a_mirror, idle) All-quiet
      IsLive-a

abbrev a_meta : Meta
a_meta = record zero_meta { path = a_path; kind = kind_file; hash = codes "78"; mode = 420 }

addressed_a : All (λ (b : BlobRow). hash_content sum b.content ≡ b.hash) a_mirror.tree.db.blobs
unfolding hash_content hex_encode hex_digit
addressed_a = (refl, tt)

rendered_a : (render_file sum a_meta a_mirror).0 ≡ ok tt
unfolding render_file apply_meta read_local write_file write_atomic fill_tmp or_remove make_all
    node_at put_node drop_node next_fault syscall reach find lstat read_file open_trunc open_at
    open_found follow_links follow led_to unix_mode mkdir_mode cleared write remove rename chmod
    lchown ancestors blob sql take_row upsert select ◌>>=◌ tmp_name join_names dir_name base clean
    split join clean_step clean_elements cons_head has_prefix text_eq ℕ_discrete hash_content
    hex_encode hex_digit
rendered_a = refl

render_file_renders_example : IsRendered sum a_meta (render_file sum a_meta a_mirror).1.disk
render_file_renders_example =
    render_file_renders sum a_meta a_mirror addressed_a tmp_not_a no_tmp rendered_a

-- The file `b`, which the tree knows as deleted.
abbrev b_mirror : Mirror
b_mirror = record a_mirror {
  tree = record a_tree {
    db = record a_db { entries = record a_row { path = b_path; deleted = true } ∷ [] };
  };
}

row_b :
    take_row (at_path b_path) b_mirror.tree.db.entries
    ≡ some (record a_row { path = b_path; deleted = true })
unfolding take_row text_eq ℕ_discrete
row_b = refl

promote_leaves_example : (promote sum cfg b_path false b_mirror).1.tree ≡ b_mirror.tree
promote_leaves_example =
    promote_leaves sum cfg b_path false b_mirror (record a_row { path = b_path; deleted = true })
      no_faults row_b (inl refl)
  where
    no_faults : b_mirror.tree.db.faults ≡ []
    no_faults = refl

abbrev a_commands : List Command
a_commands =
    put_command (codes "c") (codes "y") 420 0 0
    ∷ delete_command a_path
    ∷ put_command (codes "../c") (codes "z") 420 0 0
    ∷ []

run_commands_refines_example :
    view (run_commands sum cfg a_commands a_tree) ≡ all_on_map sum cfg a_commands (view a_tree)
run_commands_refines_example = run_commands_refines sum cfg a_commands a_tree refl
