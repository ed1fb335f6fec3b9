-- ===== src/Mirror/Loop/Backed.antt =====
-- The claims of internal/mirror/watch.go: every claimed path has an event in the pump.
use distributed_configs_fs.Base.{
  ◌≡◌, refl, sym, ◌∙◌, inl, inr, Bool, true, false, not, ◌||◌, ◌&&◌, Text, text_eq, List, [], ◌∷◌,
  ◌++◌, ◌==◌, Option, none, some, Bool-cases, arith,
}
use distributed_configs_fs.Core.Error.{Result, ok, err}
use distributed_configs_fs.Store.Table.{select, upsert}
use distributed_configs_fs.Mirror.Disk.{Inode, is_dir, lstat}
use distributed_configs_fs.Mirror.State.{
  Mirror, on_disk, claimed, mark_inflight, clear_inflight, is_inflight,
}
use distributed_configs_fs.Mirror.Watch.{
  Event, RawEvent, Pump, same_event, enqueue, enqueue_nodes, enqueue_tree, is_enqueued, on_created,
  on_relative, on_raw, on_timer, flushed, is_running, clear_all,
}

unfoldable pub has_event : Text → List Event → Bool
has_event p [] = false
has_event p (e ∷ es) = e.path == p || has_event p es

unfoldable pub in_batches : Text → List (List Event) → Bool
unfolding has_event
in_batches p [] = false
in_batches p (b ∷ bs) = has_event p b || in_batches p bs

-- An event of the path is in the pump or on its way to the run loop.
unfoldable pub is_waiting : Text → Pump → Bool
unfolding has_event in_batches
is_waiting p pump = has_event p pump.pending || in_batches p pump.outbox

has_event-upsert :
    (p : Text) (ev : Event) (evs : List Event)
    → has_event p (upsert same_event ev evs) ≡ (ev.path == p || has_event p evs)
unfolding has_event upsert
has_event-upsert p ev [] = refl
has_event-upsert p ev (e ∷ es) = ground (arith, has_event-upsert p ev es)

in_batches-append :
    (p : Text) (bs : List (List Event)) (b : List Event)
    → in_batches p (bs ++ b ∷ []) ≡ (in_batches p bs || has_event p b)
unfolding in_batches
in_batches-append p [] b = ground arith
in_batches-append p (c ∷ cs) b = ground (arith, in_batches-append p cs b)

claimed-clear :
    (p q : Text) (qs : List Text)
    → claimed p (select (λ x. not (x == q)) qs) ≡ (claimed p qs && not (q == p))
unfolding claimed select
claimed-clear p q [] = refl
claimed-clear p q (x ∷ xs) = ground (arith, claimed-clear p q xs)

-- Clearing a batch releases its paths and no other.
pub claimed-clear_all :
    (p : Text) (evs : List Event) (m : Mirror)
    → is_inflight p (clear_all evs m) ≡ (is_inflight p m && not (has_event p evs))
unfolding clear_all has_event is_inflight clear_inflight
claimed-clear_all p [] m = ground arith
claimed-clear_all p (ev ∷ evs) m =
    ground (
      arith,
      claimed-clear_all p evs (clear_inflight ev.path m),
      claimed-clear p ev.path m.inflight,
    )

claimed-mark :
    (p q : Text) (m : Mirror) → is_inflight p (mark_inflight q m) ≡ (is_inflight p m || q == p)
unfolding is_inflight mark_inflight claimed
claimed-mark p q m = elim (Bool-cases (claimed q m.inflight)) [
  | inr e ↦ rw e (ground arith)
  | inl e ↦ elim (text_eq.dec q p) [
    | yes y ↦ let c : claimed p m.inflight ≡ true = rw (sym y) e in rw e (ground arith)
    | no n ↦ rw e (ground arith)
  ]
]

-- Every claim is of a path with an event that is still waiting.
abbrev pub IsBacked : Mirror × Pump → Type 0
IsBacked w = (p : Text) → is_inflight p w.0 ≡ true → is_waiting p w.1 ≡ true

enqueue-IsBacked : (ev : Event) (w : Mirror × Pump) → IsBacked w → IsBacked (enqueue ev w)
unfolding enqueue is_waiting
enqueue-IsBacked ev (m, pump) h p c =
    let k : is_inflight p m || ev.path == p ≡ true = sym (claimed-mark p ev.path m) ∙ c in
    rw (has_event-upsert p ev pump.pending) (ground (arith, k, h p))

enqueue_nodes-IsBacked :
    (ns : List Inode) (w : Mirror × Pump) → IsBacked w → IsBacked (enqueue_nodes ns w)
unfolding enqueue_nodes
enqueue_nodes-IsBacked [] w h = h
enqueue_nodes-IsBacked (n ∷ ns) w h =
    enqueue_nodes-IsBacked ns _ (enqueue-IsBacked (record { path = n.path; removed = false }) w h)

enqueue_tree-IsBacked :
    (rel : Text) (w : Mirror × Pump) → IsBacked w → IsBacked (enqueue_tree rel w)
unfolding enqueue_tree
enqueue_tree-IsBacked rel (m, pump) h =
    enqueue_nodes-IsBacked (select (is_enqueued rel m.disk) m.disk.nodes) (m, pump) h

on_created-IsBacked :
    (rel : Text) (r : Result Inode) (w : Mirror × Pump) → IsBacked w → IsBacked (on_created rel r w)
unfolding on_created
on_created-IsBacked rel (ok info) w h = elim (Bool-cases (is_dir info.kind)) [
  | inl e ↦ rw e (enqueue_tree-IsBacked rel w h)
  | inr e ↦ rw e h
]
on_created-IsBacked rel (err x) w h = h

armed-IsBacked : (w : Mirror × Pump) → IsBacked w → IsBacked (w.0, record w.1 { armed = true })
unfolding is_waiting
armed-IsBacked w h = h

looked-IsBacked :
    (rel : Text) (m : Mirror) (pump : Pump)
    → IsBacked (m, pump)
    → IsBacked ((on_disk (lstat rel) m).1, pump)
unfolding is_inflight
looked-IsBacked rel m pump h = h

on_relative-IsBacked :
    (o : Option Text) (raw : RawEvent) (w : Mirror × Pump)
    → IsBacked w
    → IsBacked (on_relative o raw w)
unfolding on_relative
on_relative-IsBacked none raw w h = h
on_relative-IsBacked (some rel) raw (m, pump) h = elim (Bool-cases raw.create) [
  | inl e ↦ rw e (
      armed-IsBacked _ (
        enqueue-IsBacked _
          (on_created rel (on_disk (lstat rel) m).0 ((on_disk (lstat rel) m).1, pump))
          (on_created-IsBacked rel _ _ (looked-IsBacked rel m pump h))))
  | inr e ↦ rw e (armed-IsBacked _ (enqueue-IsBacked _ (m, pump) h))
]

pub on_raw-IsBacked :
    (dir : Text) (raw : RawEvent) (w : Mirror × Pump) → IsBacked w → IsBacked (on_raw dir raw w)
unfolding on_raw
on_raw-IsBacked dir raw (m, pump) h = elim (Bool-cases (is_running pump)) [
  | inl e ↦ rw e (on_relative-IsBacked _ raw (m, pump) h)
  | inr e ↦ rw e h
]

flushed_waiting :
    (p : Text) (evs : List Event) (pump : Pump)
    → pump.pending ≡ evs
    → is_waiting p pump ≡ true
    → is_waiting p (flushed evs pump) ≡ true
unfolding is_waiting has_event
flushed_waiting p [] pump e h = h
flushed_waiting p (ev ∷ evs) pump e h =
    let k : has_event p (ev ∷ evs) || in_batches p pump.outbox ≡ true = rw e at h in
    rw (in_batches-append p pump.outbox (ev ∷ evs)) (ground (arith, k))

pub on_timer-IsBacked : (w : Mirror × Pump) → IsBacked w → IsBacked (on_timer w)
unfolding on_timer
on_timer-IsBacked (m, pump) h p c = elim (Bool-cases (is_running pump && pump.armed)) [
  | inl e ↦ rw e (flushed_waiting p pump.pending pump refl (h p c))
  | inr e ↦ rw e (h p c)
]
