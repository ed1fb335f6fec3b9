-- ===== src/Syncer/Loop/Single.antt =====
-- The pulls in flight of internal/syncer/antientropy.go: no two from one peer, and none from the
-- node itself.
use distributed_configs_fs.Base.{
  ℕ, ◌≡◌, refl, ap, ◌≢◌, inl, inr, Bool, true, false, not, ◌||◌, ℤ, Text, text_eq, List, [], ◌∷◌,
  ◌==◌, Option, none, some, if◌then◌else◌, Bool-cases, arith,
}
use distributed_configs_fs.Core.Error.{Result, ok, err}
use distributed_configs_fs.Store.Table.{select}
use distributed_configs_fs.Store.State.{Db}
use distributed_configs_fs.Syncer.State.{Config, Service, PeerClient, new_service}
use distributed_configs_fs.Syncer.Pull.{is_syncing, trigger_sync, finish_sync, sync_peer, collect}
use distributed_configs_fs.Cluster.{Event, EventKind, join_event, leave_event, hint_event, Member}
use distributed_configs_fs.Syncer.Loop.Busy.{sync_peer_busy, collect_busy}
use distributed_configs_fs.Syncer.Loop.{
  Pull, Syncer, start_pull, handle_event, sync_members, sync_all, record_sync, Step, event_step,
  sync_step, janitor_step, pull_step, end_pull, sync_round, sync_rounds,
}

pub nodes_of : List Pull → List Text
nodes_of [] = []
nodes_of (p ∷ ps) = p.node ∷ nodes_of ps

-- No node twice, and not `self`.
abbrev pub AreDistinct : Text → List Text → Type 0
AreDistinct self [] = Unit
AreDistinct self (n ∷ ns) = (n ≢ self) × (is_syncing ns n ≡ false) × AreDistinct self ns

-- The pulls in flight are those of the peers noted as busy, no two from one peer.
abbrev pub IsSingle : Text → Syncer → Type 0
IsSingle self s = (nodes_of s.pulls ≡ s.service.syncing) × AreDistinct self s.service.syncing

nodes-select :
    (n : Text) (ps : List Pull)
    → nodes_of (select (λ q. not (q.node == n)) ps) ≡ select (λ q. not (q == n)) (nodes_of ps)
unfolding nodes_of select
nodes-select n [] = refl
nodes-select n (p ∷ ps) = ground (arith, nodes-select n ps)

is_syncing-select :
    (n m : Text) (ns : List Text)
    → is_syncing ns m ≡ false
    → is_syncing (select (λ q. not (q == n)) ns) m ≡ false
unfolding select
is_syncing-select n m [] h = refl
is_syncing-select n m (x ∷ xs) h = ground (arith, is_syncing-select n m xs)

select-AreDistinct :
    (self n : Text) (ns : List Text)
    → AreDistinct self ns
    → AreDistinct self (select (λ q. not (q == n)) ns)
unfolding select
select-AreDistinct self n [] h = tt
select-AreDistinct self n (x ∷ xs) h = elim (Bool-cases (not (x == n))) [
  | inl e ↦ rw e (h.0, is_syncing-select n x xs h.1, select-AreDistinct self n xs h.2)
  | inr e ↦ rw e (select-AreDistinct self n xs h.2)
]

module _ (cfg : Config) where
  start_pull-IsSingle :
      (node addr : Text) (s : Syncer)
      → IsSingle cfg.node s
      → IsSingle cfg.node (start_pull cfg node addr s)
  unfolding start_pull trigger_sync nodes_of
  start_pull-IsSingle node addr s h =
      elim (Bool-cases (node == [] || addr == [] || node == cfg.node)) [
        | inl e ↦ rw e h
        | inr e ↦ elim (Bool-cases (is_syncing s.service.syncing node)) [
          | inl f ↦ rw (e, f) h
          | inr f ↦
              let other : node ≢ cfg.node = ground (arith, e) in
              rw (e, f) (ap (λ ns. node ∷ ns) h.0, (other, f, h.1))
        ]
      ]

  handle_event-IsSingle :
      (e : Event) (k : EventKind) (s : Syncer)
      → e.kind ≡ k
      → IsSingle cfg.node s
      → IsSingle cfg.node (handle_event cfg e s)
  unfolding handle_event
  handle_event-IsSingle e join_event s q h = rw q (start_pull-IsSingle e.node e.addr s h)
  handle_event-IsSingle e hint_event s q h = rw q (start_pull-IsSingle e.node e.addr s h)
  handle_event-IsSingle e leave_event s q h = rw q h

  unless-IsSingle :
      (b : Bool) (m : Member) (s : Syncer)
      → IsSingle cfg.node s
      → IsSingle cfg.node (if b then s else start_pull cfg m.node m.addr s)
  unless-IsSingle true m s h = h
  unless-IsSingle false m s h = start_pull-IsSingle m.node m.addr s h

  members-IsSingle :
      (ms : List Member) (s : Syncer)
      → IsSingle cfg.node s
      → IsSingle cfg.node (sync_members cfg ms s)
  unfolding sync_members
  members-IsSingle [] s h = h
  members-IsSingle (m ∷ ms) s h =
      members-IsSingle ms _ (unless-IsSingle (m.is_self || m.addr == []) m s h)

  all-IsSingle :
      (ms : List Member) (s : Syncer) → IsSingle cfg.node s → IsSingle cfg.node (sync_all cfg ms s)
  unfolding sync_all
  all-IsSingle ms s h = elim (Bool-cases (not cfg.has_peers)) [
    | inl e ↦ rw e h
    | inr e ↦ rw e (members-IsSingle ms s h)
  ]

  same-IsSingle :
      (s : Syncer) (t : Service)
      → t.syncing ≡ s.service.syncing
      → IsSingle cfg.node s
      → IsSingle cfg.node (record s { service = t })
  same-IsSingle s t e h = rw e h

  recorded :
      (r : Result Bool) (s : Syncer) → IsSingle cfg.node s → IsSingle cfg.node (record_sync r s)
  recorded (ok b) s h = h
  recorded (err e) s h = h

  module _ (sum256 : Text → Text) (peer : PeerClient) (fuel : ℕ) where
    ended :
        (p : Pull) (s : Syncer)
        → IsSingle cfg.node s
        → IsSingle cfg.node (record s {
          service = finish_sync p.node (sync_peer sum256 cfg peer fuel p.node p.addr s.service).1;
          pulls = select (λ q. not (q.node == p.node)) s.pulls;
        })
    unfolding finish_sync
    ended p s h =
        let same =
          (sync_peer_busy s.service.syncing sum256 cfg peer fuel p.node p.addr).still s.service
            refl in
        rw (same, nodes-select p.node s.pulls, h.0) (refl, select-AreDistinct cfg.node p.node _ h.1)

    end-IsSingle :
        (o : Option Pull) (s : Syncer)
        → IsSingle cfg.node s
        → IsSingle cfg.node (end_pull sum256 cfg peer fuel o s)
    unfolding end_pull
    end-IsSingle none s h = h
    end-IsSingle (some p) s h =
        recorded (sync_peer sum256 cfg peer fuel p.node p.addr s.service).0 _ (ended p s h)

    round-IsSingle :
        (step : Step) (s : Syncer)
        → IsSingle cfg.node s
        → IsSingle cfg.node (sync_round sum256 cfg peer fuel step s)
    unfolding sync_round
    round-IsSingle (event_step e) s h = handle_event-IsSingle e e.kind s refl h
    round-IsSingle (sync_step ms) s h = all-IsSingle ms s h
    round-IsSingle janitor_step s h =
        same-IsSingle s (collect cfg s.service).1
          ((collect_busy s.service.syncing cfg).still s.service refl) h
    round-IsSingle (pull_step node) s h = end-IsSingle _ s h

    rounds-IsSingle :
        (steps : List Step) (s : Syncer)
        → IsSingle cfg.node s
        → IsSingle cfg.node (sync_rounds sum256 cfg peer fuel steps s)
    unfolding sync_rounds
    rounds-IsSingle [] s h = h
    rounds-IsSingle (step ∷ steps) s h = rounds-IsSingle steps _ (round-IsSingle step s h)

    -- Whatever events, ticks and ends of pulls follow one another, whether the pulls succeed or
    -- fail: there is at most one pull in flight from any peer, exactly the peers with a pull in
    -- flight are noted as busy, and the node never pulls from itself.
    pub sync_rounds-IsSingle :
        (steps : List Step) (db : Db) (now : ℕ → ℤ)
        → IsSingle cfg.node (
            sync_rounds sum256 cfg peer fuel steps
              (record { service = new_service db now; pulls = []; last_error = none }))
    unfolding new_service nodes_of
    sync_rounds-IsSingle steps db now = rounds-IsSingle steps _ (refl, tt)
