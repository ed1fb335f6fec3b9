-- ===== src/Syncer/State.antt =====
-- The state of `Service` in internal/syncer/syncer.go, its subscribers and its gossip, and the
-- peers' HTTP API as the syncer calls it.
use distributed_configs_fs.Base.{
  ℕ, ◌+◌, Bool, true, false, not, ℤ, Text, List, [], ◌∷◌, ◌++◌, ◌==◌, nat_eq,
}
use distributed_configs_fs.Core.Error.{Result, ok}
use distributed_configs_fs.Core.Entry.{Meta, Timestamp}
use distributed_configs_fs.Core.Clock.{Clock, Observed, tick, observe, new_clock}
use distributed_configs_fs.Effect.{Exec}
use distributed_configs_fs.Store.State.{Db}
use distributed_configs_fs.Store.Table.{select}

pub record Config : Type 0 where
  pub node : Text
  pub max_file_size : ℤ
  pub tombstone_ttl : ℤ
  -- whether `Peers` is set
  pub has_peers : Bool

-- A subscriber's channel of depth one: `pending` says whether a wake-up lies in it.
pub record Subscriber : Type 0 where
  pub id : ℕ
  pub pending : Bool

-- `announced` are the feed positions gossiped so far, the last one first; `requests` counts the
-- requests made to peers; `syncing` are the peers with a pull in flight.
pub record Service : Type 0 where
  pub db : Db
  pub clock : Clock
  pub next_sub : ℕ
  pub subs : List Subscriber
  pub announced : List ℤ
  pub requests : ℕ
  pub syncing : List Text

-- `New`, over an open store and the physical clock.
unfoldable pub new_service : Db → (ℕ → ℤ) → Service
unfolding new_clock
new_service db now = record {
  db = db;
  clock = new_clock now;
  next_sub = 0;
  subs = [];
  announced = [];
  requests = 0;
  syncing = [];
}

pub record DigestResponse : Type 0 where
  pub digest : Text
  pub entries : ℤ
  pub head : ℤ

pub record ManifestResponse : Type 0 where
  pub entries : List Meta
  pub head : ℤ
  pub more : Bool

-- `PeerClient`: what a peer at an address answers. The number is that of the request, so that the
-- answers may change from one request to the next.
pub record PeerClient : Type 0 where
  pub digest : ℕ → Text → Result DigestResponse
  pub manifest : ℕ → Text → ℤ → Result ManifestResponse
  pub blob : ℕ → Text → Text → Result Text

abbrev pub on_db : {A : Type 0} → Exec Db A → Exec Service A
on_db m s = ((m s.db).0, record s { db = (m s.db).1 })

-- One request to a peer.
abbrev pub request : {A : Type 0} → (ℕ → Result A) → Exec Service A
request f s = (f s.requests, record s { requests = s.requests + 1 })

-- An error that the code handles and does not return.
abbrev pub attempt : {A : Type 0} → Exec Service A → Exec Service (Result A)
attempt m s = (ok (m s).0, (m s).1)

-- `s.clock.Now()`
unfoldable pub clock_now : Exec Service Timestamp
unfolding tick
clock_now s = (ok (tick s.clock).0, record s { clock = (tick s.clock).1 })

-- `s.clock.Observe(t)`
unfoldable pub clock_observe : Timestamp → Exec Service Observed
unfolding observe
clock_observe t s = (ok (observe s.clock t).0, record s { clock = (observe s.clock t).1 })

-- `time.Now().UnixNano()`, the same physical clock.
unfoldable pub time_now : Exec Service ℤ
time_now s = (
  ok (s.clock.now s.clock.reads),
  record s { clock = record s.clock { reads = s.clock.reads + 1 } },
)

-- `Subscribe` returns the number of the subscription; `unsubscribe` is the function it hands back.
unfoldable pub subscribe : Service → ℕ × Service
subscribe s = (
  s.next_sub,
  record s {
    next_sub = s.next_sub + 1;
    subs = s.subs ++ record { id = s.next_sub; pending = false } ∷ [];
  },
)

unfoldable pub unsubscribe : ℕ → Service → Service
unfolding select
unsubscribe id s = record s { subs = select (λ sub. not (sub.id == id)) s.subs }

wake_all : List Subscriber → List Subscriber
wake_all [] = []
wake_all (sub ∷ subs) = record sub { pending = true } ∷ wake_all subs

unfoldable pub notify : Service → Service
unfolding wake_all
notify s = record s { subs = wake_all s.subs }

-- `Peers.Announce`
abbrev pub announce : ℤ → Service → Service
announce head s = record s { announced = head ∷ s.announced }
