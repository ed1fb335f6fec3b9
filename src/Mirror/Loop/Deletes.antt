-- ===== src/Mirror/Loop/Deletes.antt =====
-- `Run` of internal/mirror: what becomes of a live entry of the tree.
use distributed_configs_fs.Base.{
  ◌≡◌, refl, inl, inr, Bool, true, false, Text, List, [], ◌∷◌, All, Option, none, some, Bool-cases,
  ◌∙◌,
}
use distributed_configs_fs.Core.Error.{Result, ok, err}
use distributed_configs_fs.Effect.Keeps.{Keeps-then}
use distributed_configs_fs.Store.Table.{select}
use distributed_configs_fs.Syncer.State.{Config}
use distributed_configs_fs.Syncer.Local.Live.{
  IsLive, get-IsLive, live-IsLive, blob-IsLive, put_file-IsLive, put_dir-IsLive,
}
use distributed_configs_fs.Mirror.Disk.{Inode, is_dir, lstat}
use distributed_configs_fs.Mirror.State.{Mirror, on_disk, mark_inflight, claimed}
use distributed_configs_fs.Mirror.Watch.{
  RawEvent, Pump, enqueue, enqueue_nodes, enqueue_tree, is_enqueued, on_created, on_relative,
  on_raw, on_timer, is_running,
}
use distributed_configs_fs.Mirror.Loop.{
  Step, changed, received, ticked, settled, notified, edited, replicated, run_step, run_steps,
}
use distributed_configs_fs.Mirror.Loop.Keeps.{
  ReadsKeep, WritesKeep, render-Keeps, scan-Keeps, logged-Keeps,
}

-- A step in which no batch of events is applied and nothing arrives from elsewhere.
unfoldable pub is_quiet : Step → Bool
is_quiet changed = true
is_quiet received = false
is_quiet ticked = true
is_quiet settled = true
is_quiet (notified raw) = true
is_quiet (edited change) = true
is_quiet (replicated change) = false

tree_of_mark : (p : Text) (m : Mirror) → (mark_inflight p m).tree ≡ m.tree
unfolding mark_inflight
tree_of_mark p m = elim (Bool-cases (claimed p m.inflight)) [
  | inl e ↦ rw e refl
  | inr e ↦ rw e refl
]

tree_of_nodes : (ns : List Inode) (w : Mirror × Pump) → (enqueue_nodes ns w).0.tree ≡ w.0.tree
unfolding enqueue_nodes enqueue
tree_of_nodes [] w = refl
tree_of_nodes (n ∷ ns) (m, pump) = tree_of_nodes ns _ ∙ tree_of_mark n.path m

tree_of_enqueued : (rel : Text) (w : Mirror × Pump) → (enqueue_tree rel w).0.tree ≡ w.0.tree
unfolding enqueue_tree
tree_of_enqueued rel (m, pump) =
    tree_of_nodes (select (is_enqueued rel m.disk) m.disk.nodes) (m, pump)

tree_of_created :
    (rel : Text) (r : Result Inode) (w : Mirror × Pump) → (on_created rel r w).0.tree ≡ w.0.tree
unfolding on_created
tree_of_created rel (ok info) (m, pump) = elim (Bool-cases (is_dir info.kind)) [
  | inl e ↦ rw e (tree_of_enqueued rel (m, pump))
  | inr e ↦ rw e refl
]
tree_of_created rel (err x) (m, pump) = refl

tree_of_relative :
    (o : Option Text) (raw : RawEvent) (w : Mirror × Pump) → (on_relative o raw w).0.tree ≡ w.0.tree
unfolding on_relative enqueue
tree_of_relative none raw w = refl
tree_of_relative (some rel) raw (m, pump) = elim (Bool-cases raw.create) [
  | inl e ↦
      let there = on_disk (lstat rel) m in
      rw e (
        tree_of_mark rel (on_created rel there.0 (there.1, pump)).0
        ∙ tree_of_created rel there.0 (there.1, pump))
  | inr e ↦ rw e (tree_of_mark rel m)
]

pub tree_of_raw :
    (dir : Text) (raw : RawEvent) (w : Mirror × Pump) → (on_raw dir raw w).0.tree ≡ w.0.tree
unfolding on_raw
tree_of_raw dir raw (m, pump) = elim (Bool-cases (is_running pump)) [
  | inl e ↦ rw e (tree_of_relative _ raw (m, pump))
  | inr e ↦ rw e refl
]

module _ (q : Text) where
  abbrev LiveIn : Mirror → Type 0
  LiveIn m = IsLive q m.tree

  reads_live : ReadsKeep LiveIn
  reads_live = record {
    moved = λ m d h. h;
    downgraded = λ m h. h;
    got = λ p. record { still = λ m h. (get-IsLive q p).still m.tree h };
    listed = record { still = λ m h. (live-IsLive q).still m.tree h };
    loaded = λ hash. record { still = λ m h. (blob-IsLive q hash).still m.tree h };
  }

  module _ (sum256 : Text → Text) (cfg : Config) where
    writes_live : WritesKeep LiveIn reads_live sum256 cfg
    writes_live = record {
      filed = λ p content mode uid gid. record {
        still = λ m h. (put_file-IsLive q sum256 cfg p content mode uid gid).still m.tree h;
      };
      made = λ p mode uid gid. record {
        still = λ m h. (put_dir-IsLive q cfg p mode uid gid).still m.tree h;
      };
    }

    quiet_step :
        (dir : Text) (step : Step) (w : Mirror × Pump)
        → is_quiet step ≡ true
        → LiveIn w.0
        → LiveIn (run_step sum256 cfg dir step w).0
    unfolding run_step is_quiet on_timer
    quiet_step dir changed (m, pump) e h = (render-Keeps LiveIn reads_live sum256).still m h
    quiet_step dir received (m, pump) e h = cc
    quiet_step dir ticked (m, pump) e h =
        (Keeps-then _ _
            (logged-Keeps LiveIn _ (scan-Keeps LiveIn reads_live sum256 cfg writes_live))
            λ u. logged-Keeps LiveIn _ (render-Keeps LiveIn reads_live sum256)).still
          m h
    quiet_step dir settled (m, pump) e h = h
    quiet_step dir (notified raw) (m, pump) e h = rw (tree_of_raw dir raw (m, pump)) h
    quiet_step dir (edited change) (m, pump) e h = h
    quiet_step dir (replicated change) (m, pump) e h = cc

    -- Only a batch of events deletes from the tree: a live entry of the tree is live after any
    -- renders, rescans, edits of the directory by others and events that have not been applied yet,
    -- in any order and whatever fails in them.
    pub run_steps-IsLive :
        (dir : Text) (steps : List Step) (w : Mirror × Pump)
        → All (λ step. is_quiet step ≡ true) steps
        → IsLive q w.0.tree
        → IsLive q (run_steps sum256 cfg dir steps w).0.tree
    unfolding run_steps
    run_steps-IsLive dir [] w quiet h = h
    run_steps-IsLive dir (step ∷ steps) w quiet h =
        run_steps-IsLive dir steps _ quiet.1 (quiet_step dir step w quiet.0 h)
