-- ===== src/Mirror/Loop.antt =====
-- `Run` of internal/mirror/mirror.go: the run loop beside the pump, with the user of the directory
-- and the syncer at work in between. The steps of the pump and of the loop do not overlap.
pub mod Keeps
pub mod Deletes
pub mod Backed
pub mod Claims
use distributed_configs_fs.Base.{Text, List, [], ◌∷◌, Bool, false}
use distributed_configs_fs.Core.Error.{Result, ok, err}
use distributed_configs_fs.Effect.{Exec, ◌>>=◌, ◌>>◌}
use distributed_configs_fs.Syncer.State.{Config, Service}
use distributed_configs_fs.Mirror.Disk.{Disk}
use distributed_configs_fs.Mirror.State.{Mirror, logged}
use distributed_configs_fs.Mirror.Render.{render}
use distributed_configs_fs.Mirror.Scan.{scan}
use distributed_configs_fs.Mirror.Watch.{Event, RawEvent, Pump, on_raw, on_timer, apply_events}

abbrev pub idle : Pump
idle = record { pending = []; armed = false; outbox = [] }

-- A wake-up of the subscription, a batch received, a tick of the rescan; an event of fsnotify and
-- the end of the settle delay, in the pump; a change of the directory or of the tree by others.
pub data Step : Type 0 where
  changed received ticked settled : Step
  notified : RawEvent → Step
  edited : (Disk → Disk) → Step
  replicated : (Service → Service) → Step

module _ (sum256 : Text → Text) (cfg : Config) where
  -- The scan and the render before the loop.
  unfoldable pub start : Exec Mirror (Unit {0})
  unfolding scan render
  start = scan sum256 cfg >> render sum256

  unfoldable pub receive : List (List Event) → Mirror × Pump → Mirror × Pump
  unfolding apply_events
  receive [] w = w
  receive (batch ∷ rest) (m, pump) =
      ((apply_events sum256 cfg batch m).1, record pump { outbox = rest })

  -- One step, for a mirror of the directory `dir`.
  module _ (dir : Text) where
    unfoldable pub run_step : Step → Mirror × Pump → Mirror × Pump
    unfolding receive render scan on_raw on_timer
    run_step changed (m, pump) = ((render sum256 m).1, pump)
    run_step received (m, pump) = receive pump.outbox (m, pump)
    run_step ticked (m, pump) = (((logged (scan sum256 cfg) >> logged (render sum256)) m).1, pump)
    run_step settled w = on_timer w
    run_step (notified raw) w = on_raw dir raw w
    run_step (edited change) (m, pump) = (record m { disk = change m.disk }, pump)
    run_step (replicated change) (m, pump) = (record m { tree = change m.tree }, pump)

    unfoldable pub run_steps : List Step → Mirror × Pump → Mirror × Pump
    unfolding run_step
    run_steps [] w = w
    run_steps (step ∷ steps) w = run_steps steps (run_step step w)
