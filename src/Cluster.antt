-- ===== src/Cluster.antt =====
-- internal/cluster/cluster.go: the events that gossip yields, and the membership. memberlist calls
-- the methods of the delegate; a gossiped payload and a node's metadata are the values that their
-- JSON decodes to, none where it is malformed.
pub mod Queue
use distributed_configs_fs.Base.{
  ℕ, Bool, true, false, ◌||◌, ℤ, pos, Text, List, [], ◌∷◌, ◌++◌, length, ltb, ◌==◌, text_eq, Option,
  none, some, if◌then◌else◌,
}
use distributed_configs_fs.Core.Error.{Error, Result, ok, err}
use distributed_configs_fs.Effect.{Exec}

pub data EventKind : Type 0 where
  join_event leave_event hint_event : EventKind

pub record Event : Type 0 where
  pub kind : EventKind
  pub node : Text
  pub addr : Text
  pub seq : ℤ

pub record Hint : Type 0 where
  pub node : Text
  pub addr : Text
  pub seq : ℤ

-- A node of memberlist: its name, and the API address of its metadata if that is readable.
pub record PeerNode : Type 0 where
  pub name : Text
  pub api : Option Text

pub record Member : Type 0 where
  pub node : Text
  pub addr : Text
  pub is_self : Bool

-- `node` and `api_addr` are those of the configuration. `events` is what lies in the channel, the
-- oldest first, `queue` are the broadcasts handed to memberlist, the last one first, and `closed`
-- says whether `Leave` has run. `crashed` says whether a send on the closed channel has made the
-- process panic.
pub record Cluster : Type 0 where
  pub node : Text
  pub api_addr : Text
  pub events : List Event
  pub seq : ℤ
  pub queue : List Hint
  pub closed : Bool
  pub crashed : Bool

abbrev pub event_buffer : ℕ
event_buffer = 256

-- `Join` without the start of memberlist.
unfoldable pub new_cluster : Text → Text → Cluster
new_cluster node api_addr = record {
  node = node;
  api_addr = api_addr;
  events = [];
  seq = pos 0;
  queue = [];
  closed = false;
  crashed = false;
}

-- `Announce`
unfoldable pub announce_seq : ℤ → Cluster → Cluster
announce_seq seq c = record c {
  seq = seq;
  queue = record { node = c.node; addr = c.api_addr; seq = seq } ∷ c.queue;
}

abbrev pub api_addr_of : PeerNode → Text
api_addr_of n = elim n.api [ none ↦ [] | some addr ↦ addr ]

-- `Members`, over the nodes that memberlist knows.
unfoldable pub members : Cluster → List PeerNode → List Member
members c [] = []
members c (n ∷ ns) =
    record { node = n.name; addr = api_addr_of n; is_self = n.name == c.node } ∷ members c ns

-- An event that finds the channel full is dropped. A send on a closed channel panics, full or not.
unfoldable pub emit : Event → Cluster → Cluster
emit e c =
    if c.closed
    then record c { crashed = true }
    else if ltb (length c.events) event_buffer
    then record c { events = c.events ++ (e ∷ []) }
    else c

unfoldable pub notify_msg : Option Hint → Cluster → Cluster
unfolding emit
notify_msg none c = c
notify_msg (some h) c =
    if h.node == [] || h.node == c.node
    then c
    else emit (record { kind = hint_event; node = h.node; addr = h.addr; seq = h.seq }) c

abbrev pub member_event : EventKind → PeerNode → Event
member_event kind n = record { kind = kind; node = n.name; addr = api_addr_of n; seq = pos 0 }

unfoldable pub notify_join : PeerNode → Cluster → Cluster
unfolding emit
notify_join n c = if n.name == c.node then c else emit (member_event join_event n) c

unfoldable pub notify_leave : PeerNode → Cluster → Cluster
unfolding emit
notify_leave n c = if n.name == c.node then c else emit (member_event leave_event n) c

unfoldable pub notify_update : PeerNode → Cluster → Cluster
unfolding emit
notify_update n c = if n.name == c.node then c else emit (member_event join_event n) c

-- The consumer takes the oldest event.
unfoldable pub take_event : Cluster → Option Event × Cluster
take_event c = elim c.events [ [] ↦ (none, c) | e ∷ es ↦ (some e, record c { events = es }) ]

abbrev pub first_error : Result (Unit {0}) → Result (Unit {0}) → Result (Unit {0})
first_error (ok u) r = r
first_error (err e) r = err e

-- `Leave`, with what memberlist's Leave and Shutdown return; only the first call does anything.
unfoldable pub leave : Result (Unit {0}) → Result (Unit {0}) → Exec Cluster (Unit {0})
leave left shut c =
    if c.closed then (ok tt, c) else (first_error left shut, record c { closed = true })
