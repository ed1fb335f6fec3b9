-- ===== src/Mirror/State.antt =====
-- The state of `Mirror` in internal/mirror/mirror.go, with the syncer as its `Tree`.
use distributed_configs_fs.Base.{
  Bool, true, false, not, ◌||◌, Text, List, [], ◌∷◌, ◌==◌, nat_eq, text_eq, ℕ, if◌then◌else◌,
}
use distributed_configs_fs.Core.Error.{Result, ok, on_result}
use distributed_configs_fs.Core.Entry.{Meta, zero_meta}
use distributed_configs_fs.Effect.{Exec}
use distributed_configs_fs.Store.Table.{select}
use distributed_configs_fs.Store.Ops.{get, live}
use distributed_configs_fs.Syncer.State.{Service, on_db}
use distributed_configs_fs.Mirror.Disk.{Disk}

-- `inflight` are the paths with a local event that has not been acted on.
pub record Mirror : Type 0 where
  pub disk : Disk
  pub tree : Service
  pub can_chown : Bool
  pub warned_chown : Bool
  pub inflight : List Text

-- `Open`, over a directory that is there: the process can set ownership if it is root's.
unfoldable pub open_mirror : ℕ → Disk → Service → Mirror
open_mirror euid disk tree = record {
  disk = disk;
  tree = tree;
  can_chown = euid == 0;
  warned_chown = false;
  inflight = [];
}

abbrev pub on_disk : {A : Type 0} → Exec Disk A → Exec Mirror A
on_disk m s = ((m s.disk).0, record s { disk = (m s.disk).1 })

abbrev pub on_tree : {A : Type 0} → Exec Service A → Exec Mirror A
on_tree m s = ((m s.tree).0, record s { tree = (m s.tree).1 })

-- A call whose result the code looks at, the error included.
abbrev pub result_of : {A : Type 0} → Exec Mirror A → Exec Mirror (Result A)
result_of m s = (ok (m s).0, (m s).1)

-- A call whose error is logged and no more.
abbrev pub logged : {A : Type 0} → Exec Mirror A → Exec Mirror (Unit {0})
logged m s = (ok tt, (m s).1)

unfoldable pub claimed : Text → List Text → Bool
claimed p [] = false
claimed p (q ∷ qs) = q == p || claimed p qs

-- markInflight, clearInflight and isInflight
unfoldable pub mark_inflight : Text → Mirror → Mirror
unfolding claimed
mark_inflight p m = if claimed p m.inflight then m else record m { inflight = p ∷ m.inflight }

unfoldable pub clear_inflight : Text → Mirror → Mirror
unfolding select
clear_inflight p m = record m { inflight = select (λ q. not (q == p)) m.inflight }

unfoldable pub is_inflight : Text → Mirror → Bool
unfolding claimed
is_inflight p m = claimed p m.inflight

-- `stored`: what the tree holds at a path, and whether it holds anything.
unfoldable pub stored : Text → Exec Mirror (Meta × Bool)
unfolding get
stored p m =
    let r = on_tree (on_db (get p)) m in
    (ok (on_result (λ e. (zero_meta, false)) (λ entry. (entry, true)) r.0), r.1)

-- Live of the tree.
unfoldable pub live_entries : Exec Mirror (List Meta)
unfolding live
live_entries = on_tree (on_db live)
