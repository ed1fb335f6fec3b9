-- ===== src/Syncer/Loop.antt =====
-- `Run` of internal/syncer/antientropy.go: events of the cluster, ticks and the janitor, beside the
-- pulls in flight. A pull is one step, at its end; what others do meanwhile are steps before it.
pub mod Busy
pub mod Single
use distributed_configs_fs.Base.{
  ℕ, Bool, true, false, not, ◌||◌, ℤ, Text, List, [], ◌∷◌, ◌==◌, text_eq, Option, none, some,
  if◌then◌else◌,
}
use distributed_configs_fs.Core.Error.{Error, Result, ok, err}
use distributed_configs_fs.Store.Table.{select, take_row}
use distributed_configs_fs.Syncer.State.{Config, Service, PeerClient}
use distributed_configs_fs.Syncer.Pull.{trigger_sync, finish_sync, sync_peer, collect}
use distributed_configs_fs.Cluster.{Event, EventKind, join_event, leave_event, hint_event, Member}

-- A goroutine of `triggerSync`.
pub record Pull : Type 0 where
  pub node : Text
  pub addr : Text

-- `last_error` is what `recordSync` has noted.
pub record Syncer : Type 0 where
  pub service : Service
  pub pulls : List Pull
  pub last_error : Option Error

unfoldable pub start_pull : Config → Text → Text → Syncer → Syncer
unfolding trigger_sync
start_pull cfg node addr s =
    let r = trigger_sync cfg node addr s.service in
    record s {
      service = r.1;
      pulls = if r.0 then record { node = node; addr = addr } ∷ s.pulls else s.pulls;
    }

unfoldable pub handle_event : Config → Event → Syncer → Syncer
unfolding start_pull
handle_event cfg e s = elim e.kind [
  | join_event ↦ start_pull cfg e.node e.addr s
  | hint_event ↦ start_pull cfg e.node e.addr s
  | leave_event ↦ s
]

-- `syncAll`
unfoldable pub sync_members : Config → List Member → Syncer → Syncer
unfolding start_pull
sync_members cfg [] s = s
sync_members cfg (m ∷ ms) s =
    sync_members cfg ms (if m.is_self || m.addr == [] then s else start_pull cfg m.node m.addr s)

unfoldable pub sync_all : Config → List Member → Syncer → Syncer
unfolding sync_members
sync_all cfg ms s = if not cfg.has_peers then s else sync_members cfg ms s

-- `recordSync`
abbrev pub record_sync : Result Bool → Syncer → Syncer
record_sync (ok done) s = record s { last_error = none }
record_sync (err e) s = record s { last_error = some e }

pub data Step : Type 0 where
  event_step : Event → Step
  sync_step : List Member → Step
  janitor_step : Step
  pull_step : Text → Step

module _ (sum256 : Text → Text) (cfg : Config) (peer : PeerClient) (fuel : ℕ) where
  -- A pull comes to its end: the outcome is noted, and the peer is free again.
  unfoldable pub end_pull : Option Pull → Syncer → Syncer
  unfolding finish_sync select sync_peer
  end_pull none s = s
  end_pull (some pull) s =
      let r = sync_peer sum256 cfg peer fuel pull.node pull.addr s.service in
      record_sync r.0 (record s {
        service = finish_sync pull.node r.1;
        pulls = select (λ q. not (q.node == pull.node)) s.pulls;
      })

  unfoldable pub sync_round : Step → Syncer → Syncer
  unfolding handle_event sync_all end_pull take_row collect
  sync_round (event_step e) s = handle_event cfg e s
  sync_round (sync_step ms) s = sync_all cfg ms s
  sync_round janitor_step s = record s { service = (collect cfg s.service).1 }
  sync_round (pull_step node) s = end_pull (take_row (λ q. q.node == node) s.pulls) s

  unfoldable pub sync_rounds : List Step → Syncer → Syncer
  unfolding sync_round
  sync_rounds [] s = s
  sync_rounds (step ∷ steps) s = sync_rounds steps (sync_round step s)
