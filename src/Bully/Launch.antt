-- ===== src/Bully/Launch.antt =====
-- The start of a node of bully_algorithm/node.c: main, and the election after the first timeout.
use distributed_system.Base.{
  ℕ, suc, ◌-◌, ◌%◌, ◌^◌, ◌≤◌, ◌<◌, ◌≡◌, refl, ap, ◌∙◌, inl, inr, Bool, Option, none, some, List, [],
  ◌∷◌, ◌++◌, arith, ltb, ◌==◌, if◌then◌else◌, Bool-cases, length, replicate, length-append,
  length-replicate, All,
}
use distributed_system.Outcome.{◌>>=◌, running, undefined}
use distributed_system.Bully.State.{
  GroupMem, Node, answer, aya, elect, max_nodes, send_event, send_msg, update_clock,
  write_event_to_log,
}
use distributed_system.Bully.Order.{IsDirected, PortFits}
use distributed_system.Bully.Elect.{
  address, call_election, call_first_election, declare_coordinator, send_elect,
}
use distributed_system.Bully.Handle.{
  first_round, lose_coordinator, on_answer, on_silence, on_timeout, timeout,
}
use distributed_system.Bully.Start.{first_start, found_in_group, fresh_node}
use distributed_system.Clock.{empty}
use distributed_system.Bully.Loops.{FindsAll, turn_found, turn_passed}

pub found_in_group-lt :
    (port : ℕ) (gs : List GroupMem) (i : ℕ) → found_in_group port gs ≡ some i → i < length gs
unfolding found_in_group
found_in_group-lt port [] i e = absurd (ground (arith, e))
found_in_group-lt port (g ∷ gs) i e = go (found_in_group port gs) (found_in_group-lt port gs) e
  where
    go :
        (o : Option ℕ)
        → ((j : ℕ) → o ≡ some j → j < length gs)
        → elim o [
          | none ↦ if port == g.portno then some 0 else none
          | some j ↦ if port == g.portno then some 0 else some (suc j)
        ]
          ≡ some i
        → i < suc (length gs)
    go none h k = ground (arith, k)
    go (some j) h k = ground (arith, h j refl, k)

-- A node that is a member of a group of at most nine members, all with UDP ports, starts with nine
-- clock slots, and no message has been handed to sendto: its messages are directed.
pub first_start-IsDirected :
    (port : ℕ) (gs : List GroupMem) (probability aya_time : ℕ) (random : ℕ → ℕ) (i : ℕ)
    → All PortFits gs
    → length gs ≤ max_nodes
    → found_in_group port gs ≡ some i
    → (s : Node) × (first_start port gs probability aya_time random ≡ some (running s))
      × IsDirected s
      × (length s.my_vector_clock ≡ max_nodes)
unfolding first_start fresh_node
first_start-IsDirected port gs probability aya_time random i fit few found =
    let below : i < max_nodes = omega (arith, found_in_group-lt port gs i found, few) in
    (
      fresh_node port gs probability aya_time random i,
      ap
            (λ (o : Option ℕ). elim o [
              | none ↦ none
              | some pos ↦
                  if ltb pos max_nodes
                  then some (running (fresh_node port gs probability aya_time random pos))
                  else some undefined
            ])
            found
          ∙ in_range below,
      (fit, tt),
      omega (
        arith,
        below,
        length-append (replicate i empty)
            (record { node_id = port % 2 ^ 32; time = 1 } ∷ replicate (max_nodes - 1 - i) empty),
        length-replicate i empty,
        length-replicate (max_nodes - 1 - i) empty,
      ),
    )
  where
    in_range :
        i < max_nodes
        → (if ltb i max_nodes
            then some (running (fresh_node port gs probability aya_time random i))
            else some undefined)
          ≡ some (running (fresh_node port gs probability aya_time random i))
    in_range h = ground (arith, h)

-- The loop after the first timeout forgets its ELECTs at each member that follows.
call_first_election-last :
    (lookup : List ℕ → Option ℕ) (gs : List GroupMem) (g : GroupMem) (s : Node)
    → FindsAll lookup
    → g.portno ≤ s.port
    → (t : Node) × (call_first_election lookup (gs ++ g ∷ []) s ≡ running t)
      × (t.last_sent ≡ 0)
      × (t.last_received ≡ elect)
unfolding call_first_election send_elect send_event update_clock send_msg write_event_to_log
call_first_election-last lookup [] g s finds le = (
  record s { last_received = elect; last_sent = 0 },
  turn_passed lookup (ltb s.port g.portno) g send_elect
      (record s { last_received = elect; last_sent = 0 }) (λ u. running u) (ground arith),
  refl,
  refl,
)
call_first_election-last lookup (x ∷ gs) g s finds le =
    let s1 = record s { last_received = elect; last_sent = 0 } in
    elim (Bool-cases (ltb s.port x.portno)) [
      | inl e ↦
          let (host, found) = finds x.hostname in
          let (t, r, l, l') =
            call_first_election-last lookup gs g (send_elect (address host x) s1) finds le in
          (
            t,
            turn_found lookup (ltb s.port x.portno) x send_elect s1
                  (λ u. call_first_election lookup (gs ++ g ∷ []) u) host e found
                ∙ r,
            l,
            l',
          )
      | inr e ↦
          let (t, r, l, l') = call_first_election-last lookup gs g s1 finds le in
          (
            t,
            turn_passed lookup (ltb s.port x.portno) x send_elect s1
                  (λ u. call_first_election lookup (gs ++ g ∷ []) u) e
                ∙ r,
            l,
            l',
          )
    ]

-- A node that starts with a timeout, in a group where every host is found and whose last member has
-- no greater port: it takes no notice of an ANSWER, and the next timeout declares it the coordinator
-- even if an ANSWER has come.
pub first_round-deaf :
    (lookup : List ℕ → Option ℕ) (cancelled : Bool) (gs : List GroupMem) (g : GroupMem) (s : Node)
    → FindsAll lookup
    → s.members ≡ gs ++ g ∷ []
    → g.portno ≤ s.port
    → (t : Node) × (first_round lookup s (timeout cancelled) ≡ running t)
      × (on_answer t ≡ t)
      × (on_timeout lookup cancelled t ≡ declare_coordinator lookup t.members t)
unfolding first_round on_answer on_timeout on_silence
first_round-deaf lookup cancelled gs g s finds group le =
    let (t, r, sent_none, received) = call_first_election-last lookup gs g s finds le in
    (
      t,
      ap (λ ms. call_first_election lookup ms s) group ∙ r,
      rw sent_none refl,
      deaf t sent_none received,
    )
  where
    silent :
        (t : Node) (k : ℕ)
        → k ≡ elect
        → ((if k == answer then call_election lookup t.members t else running t) >>= λ u.
            if u.last_received == elect then declare_coordinator lookup u.members u else running u)
          ≡ (if t.last_received == elect then declare_coordinator lookup t.members t else running t)
    silent t k e = rw e refl

    deaf :
        (t : Node)
        → t.last_sent ≡ 0
        → t.last_received ≡ elect
        → on_timeout lookup cancelled t ≡ declare_coordinator lookup t.members t
    deaf t sent_none received =
        ap
          (λ n.
            if n == elect
            then declare_coordinator lookup t.members t
            else (if n == aya
                then lose_coordinator lookup cancelled t
                else (if n == 0 then on_silence lookup t else running t)))
          sent_none
        ∙ (silent t t.last_received received
            ∙ ap (λ k. if k == elect then declare_coordinator lookup t.members t else running t)
                received)
