-- ===== src/Cluster/Queue.antt =====
-- The channel of events of internal/cluster/cluster.go.
use distributed_configs_fs.Base.{
  suc, ◌≤◌, ◌≡◌, refl, ◌≢◌, inl, inr, Bool, true, false, ◌||◌, ℤ, Text, text_eq, nat_eq, List, [],
  ◌∷◌, length, ltb, ltb→lt, ◌==◌, Option, none, some, if◌then◌else◌, All, All-append, length-append,
  Bool-cases, arith,
}
use distributed_configs_fs.Core.Error.{Result}
use distributed_configs_fs.Cluster.{
  Event, Hint, PeerNode, Cluster, event_buffer, new_cluster, announce_seq, emit, notify_msg,
  notify_join, notify_leave, notify_update, take_event, leave, member_event, join_event,
  leave_event,
}

-- What happens to a cluster: a call of memberlist or of its owner, or a receive of the consumer.
pub data Call : Type 0 where
  msg_call : Option Hint → Call
  join_call leave_call update_call : PeerNode → Call
  announce_call : ℤ → Call
  take_call : Call
  close_call : Result (Unit {0}) → Result (Unit {0}) → Call

pub run_call : Call → Cluster → Cluster
unfolding take_event leave
run_call (msg_call h) c = notify_msg h c
run_call (join_call n) c = notify_join n c
run_call (leave_call n) c = notify_leave n c
run_call (update_call n) c = notify_update n c
run_call (announce_call seq) c = announce_seq seq c
run_call take_call c = (take_event c).1
run_call (close_call left shut) c = (leave left shut c).1

pub run_calls : List Call → Cluster → Cluster
unfolding run_call
run_calls [] c = c
run_calls (call ∷ calls) c = run_calls calls (run_call call c)

-- At most as many events as the channel has room for, none of them about this node.
abbrev pub IsSound : Text → Cluster → Type 0
IsSound node c =
    (c.node ≡ node) × (length c.events ≤ event_buffer) × All (λ (e : Event). e.node ≢ node) c.events

module _ (node : Text) where
  emit-IsSound :
      (e : Event) (c : Cluster) → e.node ≢ node → IsSound node c → IsSound node (emit e c)
  unfolding emit
  emit-IsSound e c n (h, k, l) = elim (Bool-cases c.closed) [
    | inl a ↦ rw a (h, k, l)
    | inr a ↦ elim (Bool-cases (ltb (length c.events) event_buffer)) [
      | inl b ↦
          let grown = length-append c.events (e ∷ []) in
          rw (a, b)
            (
              h,
              omega (arith, grown, ltb→lt (length c.events) event_buffer b),
              All-append (λ (f : Event). f.node ≢ node) c.events e l n,
            )
      | inr b ↦ rw (a, b) (h, k, l)
    ]
  ]

  unless-IsSound :
      (b : Bool) (e : Event) (c : Cluster)
      → (b ≡ false → e.node ≢ node)
      → IsSound node c
      → IsSound node (if b then c else emit e c)
  unless-IsSound true e c n s = s
  unless-IsSound false e c n s = emit-IsSound e c (n refl) s

  not_own : (n : PeerNode) (c : Cluster) → IsSound node c → n.name == c.node ≡ false → n.name ≢ node
  not_own n c s h = ground (arith, h, s.0)

  hint_not_own :
      (h : Hint) (c : Cluster)
      → IsSound node c
      → h.node == [] || h.node == c.node ≡ false
      → h.node ≢ node
  hint_not_own h c s k = ground (arith, k, s.0)

  msg-IsSound : (o : Option Hint) (c : Cluster) → IsSound node c → IsSound node (notify_msg o c)
  unfolding notify_msg
  msg-IsSound none c s = s
  msg-IsSound (some h) c s = unless-IsSound _ _ c (hint_not_own h c s) s

  take-IsSound :
      (es : List Event) (c : Cluster)
      → c.events ≡ es
      → IsSound node c
      → IsSound node (take_event c).1
  unfolding take_event
  take-IsSound [] c e s = rw e (s.0, omega arith, tt)
  take-IsSound (f ∷ es) c e s =
      let small : suc (length es) ≤ event_buffer = rw e at s.1 in
      let others : All (λ (x : Event). x.node ≢ node) (f ∷ es) = rw e at s.2 in
      rw e (s.0, omega (arith, small), others.1)

  closed-IsSound :
      (left shut : Result (Unit {0})) (c : Cluster)
      → IsSound node c
      → IsSound node (leave left shut c).1
  unfolding leave
  closed-IsSound left shut c s = elim (Bool-cases c.closed) [ inl e ↦ rw e s | inr e ↦ rw e s ]

  call-IsSound : (call : Call) (c : Cluster) → IsSound node c → IsSound node (run_call call c)
  unfolding run_call notify_join notify_leave notify_update announce_seq
  call-IsSound (msg_call h) c s = msg-IsSound h c s
  call-IsSound (join_call n) c s = unless-IsSound _ (member_event join_event n) c (not_own n c s) s
  call-IsSound (leave_call n) c s =
      unless-IsSound _ (member_event leave_event n) c (not_own n c s) s
  call-IsSound (update_call n) c s =
      unless-IsSound _ (member_event join_event n) c (not_own n c s) s
  call-IsSound (announce_call seq) c s = s
  call-IsSound take_call c s = take-IsSound c.events c refl s
  call-IsSound (close_call left shut) c s = closed-IsSound left shut c s

  calls-IsSound :
      (calls : List Call) (c : Cluster) → IsSound node c → IsSound node (run_calls calls c)
  unfolding run_calls
  calls-IsSound [] c s = s
  calls-IsSound (call ∷ calls) c s = calls-IsSound calls _ (call-IsSound call c s)

  -- However gossip calls, however slowly events are consumed and whenever the node leaves: at most
  -- 256 events wait in the channel, and none of them is about the node itself.
  pub run_calls-IsSound :
      (api_addr : Text) (calls : List Call)
      → IsSound node (run_calls calls (new_cluster node api_addr))
  unfolding new_cluster
  run_calls-IsSound api_addr calls = calls-IsSound calls _ (refl, omega arith, tt)
