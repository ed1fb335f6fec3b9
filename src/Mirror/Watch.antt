-- ===== src/Mirror/Watch.antt =====
-- internal/mirror/watch.go: settled batches of filesystem events, and what they do to the tree. The
-- set of watched directories is not part of the state: it decides which events arrive.
use distributed_configs_fs.Base.{
  Bool, true, false, not, ◌&&◌, ◌||◌, Text, text_eq, List, [], ◌∷◌, ◌++◌, length, drop, ltb, ◌==◌,
  nat_eq, has_prefix, Option, none, some, if◌then◌else◌,
}
use distributed_configs_fs.Core.Error.{Result, ok, err, not_exist}
use distributed_configs_fs.Effect.{Exec, pure, modify, ◌>>=◌, ◌>>◌}
use distributed_configs_fs.Store.Table.{select, upsert}
use distributed_configs_fs.Syncer.State.{Config}
use distributed_configs_fs.Mirror.Names.{ancestors, is_tmp}
use distributed_configs_fs.Mirror.Disk.{Inode, Disk, is_dir, is_regular, lstat}
use distributed_configs_fs.Mirror.Walk.{is_replicable, walk_reaches}
use distributed_configs_fs.Mirror.State.{
  Mirror, on_disk, result_of, logged, mark_inflight, clear_inflight,
}
use distributed_configs_fs.Mirror.Scan.{promote, delete_local}

pub record Event : Type 0 where
  pub path : Text
  pub removed : Bool

-- What fsnotify reports: an absolute path, and the operations among those that the code looks at.
pub record RawEvent : Type 0 where
  pub name : Text
  pub create : Bool
  pub remove : Bool
  pub rename : Bool

-- The locals of `pump`. `outbox` are the batches that the run loop has not received: the one in
-- the channel, which has room for one, and after it the one that the pump waits to send.
pub record Pump : Type 0 where
  pub pending : List Event
  pub armed : Bool
  pub outbox : List (List Event)

-- filepath.Rel, where it does not lead out of the directory, whose name is cleaned; a path that
-- leads out is refused by SanitizePath.
unfoldable pub below : Text → Text → Option Text
unfolding has_prefix
below dir abs =
    let top = dir ++ (b'/' ∷ []) in
    if has_prefix abs top then some (drop (length top) abs) else none

abbrev pub carried : Option Text → Option Text
carried none = none
carried (some rel) = if is_tmp rel || not (is_replicable rel) then none else some rel

unfoldable pub relative : Text → Text → Option Text
unfolding below is_tmp
relative dir abs = carried (below dir abs)

abbrev within : Text → Text → Bool
within dir p = p == dir || has_prefix p (dir ++ (b'/' ∷ []))

any_tmp : List Text → Bool
unfolding is_tmp
any_tmp [] = false
any_tmp (p ∷ ps) = is_tmp p || any_tmp ps

-- What a walk of `enqueueTree` from a directory comes to: everything in it, but no scratch file and
-- nothing beneath a directory that is named like one.
unfoldable pub is_enqueued : Text → Disk → Inode → Bool
unfolding any_tmp walk_reaches select has_prefix ancestors
is_enqueued dir d n =
    let above = select (within dir) (ancestors n.path) in
    within dir n.path && not (any_tmp (n.path ∷ above)) && walk_reaches above d

abbrev pub same_event : Event → Event → Bool
same_event e f = f.path == e.path

-- `pending[p] = removed` and the claim of the path.
unfoldable pub enqueue : Event → Mirror × Pump → Mirror × Pump
unfolding upsert mark_inflight
enqueue ev (m, pump) =
    (mark_inflight ev.path m, record pump { pending = upsert same_event ev pump.pending })

unfoldable pub enqueue_nodes : List Inode → Mirror × Pump → Mirror × Pump
unfolding enqueue
enqueue_nodes [] w = w
enqueue_nodes (n ∷ ns) w = enqueue_nodes ns (enqueue (record { path = n.path; removed = false }) w)

unfoldable pub enqueue_tree : Text → Mirror × Pump → Mirror × Pump
unfolding enqueue_nodes is_enqueued select
enqueue_tree dir (m, pump) = enqueue_nodes (select (is_enqueued dir m.disk) m.disk.nodes) (m, pump)

-- A directory that has just appeared is walked.
unfoldable pub on_created : Text → Result Inode → Mirror × Pump → Mirror × Pump
unfolding enqueue_tree
on_created rel (ok info) w = if is_dir info.kind then enqueue_tree rel w else w
on_created rel (err e) w = w

unfoldable pub on_relative : Option Text → RawEvent → Mirror × Pump → Mirror × Pump
unfolding on_created enqueue
on_relative none raw w = w
on_relative (some rel) raw (m, pump) =
    let r = on_disk (lstat rel) m in
    let w = if raw.create then on_created rel r.0 (r.1, pump) else (m, pump) in
    let (m', pump') = enqueue (record { path = rel; removed = raw.remove || raw.rename }) w in
    (m', record pump' { armed = true })

-- The pump is not waiting for the run loop.
abbrev pub is_running : Pump → Bool
is_running pump = ltb (length pump.outbox) 2

-- One event of fsnotify, in the directory `dir`.
unfoldable pub on_raw : Text → RawEvent → Mirror × Pump → Mirror × Pump
unfolding on_relative relative
on_raw dir raw w = if is_running w.1 then on_relative (relative dir raw.name) raw w else w

abbrev pub flushed : List Event → Pump → Pump
flushed [] pump = record pump { armed = false }
flushed (e ∷ es) pump = record pump {
  pending = [];
  armed = false;
  outbox = pump.outbox ++ ((e ∷ es) ∷ []);
}

-- The settle delay has passed.
unfoldable pub on_timer : Mirror × Pump → Mirror × Pump
on_timer (m, pump) = (m, if is_running pump && pump.armed then flushed pump.pending pump else pump)

unfoldable pub clear_all : List Event → Mirror → Mirror
unfolding clear_inflight
clear_all [] m = m
clear_all (ev ∷ evs) m = clear_all evs (clear_inflight ev.path m)

module _ (sum256 : Text → Text) (cfg : Config) where
  unfoldable pub apply_changed : Text → Result Inode → Exec Mirror (Unit {0})
  unfolding promote delete_local
  apply_changed p (ok info) =
      if is_dir info.kind || is_regular info.kind
      then promote sum256 cfg p (is_dir info.kind)
      else pure tt
  apply_changed p (err not_exist) = delete_local cfg p
  apply_changed p (err e) = pure tt

  unfoldable pub apply_removed : Text → Result Inode → Exec Mirror (Unit {0})
  unfolding promote delete_local
  apply_removed p (ok info) = promote sum256 cfg p false
  apply_removed p (err e) = delete_local cfg p

  unfoldable pub apply_event : Event → Exec Mirror (Unit {0})
  unfolding apply_changed apply_removed
  apply_event ev = do
    info ← result_of (on_disk (lstat ev.path))
    if ev.removed then apply_removed ev.path info else apply_changed ev.path info

  unfoldable pub apply_all : List Event → Exec Mirror (Unit {0})
  unfolding apply_event
  apply_all [] = pure tt
  apply_all (ev ∷ evs) = apply_event ev >> apply_all evs

  -- The claims of the batch are released when all of it has been dealt with.
  unfoldable pub apply_events : List Event → Exec Mirror (Unit {0})
  unfolding apply_all clear_all
  apply_events batch = logged (apply_all batch) >> modify (clear_all batch)
