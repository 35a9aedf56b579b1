-- ===== src/Bully/Directed.antt =====
-- Each handler of bully_algorithm/node.c keeps the messages directed.
use distributed_system.Base.{
  ℕ, ◌+◌, ◌*◌, ◌%◌, ◌^◌, ◌≢◌, inl, inr, Bool, true, false, Option, none, some, List, arith, ◌==◌,
  if◌then◌else◌, Bool-cases,
}
use distributed_system.Outcome.{◌>>=◌, Leaves, Leaves-bind, exited, running, undefined}
use distributed_system.Msg.{Addr}
use distributed_system.Bully.Order.{
  IsDirected, call_election-IsDirected, declare_coordinator-IsDirected, pass_election-IsDirected,
  send_event-IsDirected,
}
use distributed_system.Bully.State.{
  Message, Node, answer, aya, coord, elect, iaa, merge_clock, send_event, update_clock,
  write_event_to_log,
}
use distributed_system.Bully.Elect.{call_election, declare_coordinator, pass_election}
use distributed_system.Bully.Handle.{
  handle_msg, lose_coordinator, on_answer, on_aya, on_coord, on_elect, on_silence, on_timeout,
  receive, thread_main,
}

-- An ANSWER, an IAA or an AYA may go anywhere.
other-IsDirected :
    (kind election_id : ℕ) (to : Addr) (s : Node)
    → kind ≢ coord
    → kind ≢ elect
    → IsDirected s
    → IsDirected (send_event kind election_id to s)
other-IsDirected kind election_id to s h k d =
    send_event-IsDirected kind election_id to s (λ e. absurd (h e), λ e. absurd (k e)) d

on_elect-IsDirected :
    (lookup : List ℕ → Option ℕ) (m : Message) (from : Addr) (s : Node)
    → IsDirected s
    → Leaves IsDirected (on_elect lookup m from s)
unfolding on_elect
on_elect-IsDirected lookup m from s d = go (s1.last_sent == elect)
  where
    s1 : Node
    s1 = record (send_event answer m.election_id from s) { last_received = elect }

    d1 : IsDirected s1
    d1 =
        other-IsDirected answer m.election_id from s (λ e. omega (arith, e)) (λ e. omega (arith, e))
          d

    last :
        (b : Bool) (t : Node)
        → IsDirected t
        → Leaves IsDirected (if b then declare_coordinator lookup t.members t else running t)
    last true t h = declare_coordinator-IsDirected lookup t.members t h.0 h
    last false t h = h

    go :
        (b : Bool)
        → Leaves IsDirected (
            if b
            then running s1
            else pass_election lookup m.election_id s1.members (record s1 { last_sent = 0 })
              >>= λ t.
                  if t.last_sent == 0 then declare_coordinator lookup t.members t else running t)
    go true = d1
    go false =
        Leaves-bind IsDirected _ _
          (pass_election-IsDirected lookup m.election_id s1.members (record s1 { last_sent = 0 })
            d1.0 d1)
          (λ t h. last (t.last_sent == 0) t h)

on_answer-IsDirected : (s : Node) → IsDirected s → IsDirected (on_answer s)
unfolding on_answer
on_answer-IsDirected s d = go (s.last_sent == elect)
  where
    go :
        (b : Bool)
        → IsDirected (if b then record s { last_received = answer; last_sent = 0 } else s)
    go true = d
    go false = d

on_coord-IsDirected :
    (created : Bool) (from : Addr) (s : Node)
    → IsDirected s
    → Leaves IsDirected (on_coord created from s)
unfolding on_coord
on_coord-IsDirected created from s d = go s.thread created
  where
    s1 : Node
    s1 = record s { last_received = coord }

    go :
        (o : Option Addr) (b : Bool)
        → Leaves IsDirected (elim o [
          | some to ↦ running s1
          | none ↦ if b then running (record s1 { thread = some from }) else exited s1
        ])
    go (some to) b = d
    go none true = d
    go none false = d

handle_msg-IsDirected :
    (lookup : List ℕ → Option ℕ) (created : Bool) (m : Message) (from : Addr) (s : Node)
    → IsDirected s
    → Leaves IsDirected (handle_msg lookup created m from s)
unfolding handle_msg on_aya
handle_msg-IsDirected lookup created m from s d = elim (Bool-cases (m.msg_id == elect)) [
  | inl e ↦ rw e (on_elect-IsDirected lookup m from s d)
  | inr e1 ↦ elim (Bool-cases (m.msg_id == answer)) [
    | inl e ↦ rw (e1, e) (on_answer-IsDirected s d)
    | inr e2 ↦ elim (Bool-cases (m.msg_id == coord)) [
      | inl e ↦ rw (e1, e2, e) (on_coord-IsDirected created from s d)
      | inr e3 ↦ elim (Bool-cases (m.msg_id == aya)) [
        | inl e ↦
            rw (e1, e2, e3, e)
              (other-IsDirected iaa m.election_id from
                (record s { last_received = aya; last_sent = iaa }) (λ k. omega (arith, k))
                (λ k. omega (arith, k)) d)
        | inr e4 ↦ rw (e1, e2, e3, e4) d
      ]
    ]
  ]
]

pub receive-IsDirected :
    (lookup : List ℕ → Option ℕ) (created : Bool) (m : Message) (from : Addr) (s : Node)
    → IsDirected s
    → Leaves IsDirected (receive lookup created m from s)
unfolding receive merge_clock update_clock write_event_to_log
receive-IsDirected lookup created m from s (fit, h) =
    handle_msg-IsDirected lookup created m from _ (fit, (tt, h))

lose_coordinator-IsDirected :
    (lookup : List ℕ → Option ℕ) (cancelled : Bool) (s : Node)
    → IsDirected s
    → Leaves IsDirected (lose_coordinator lookup cancelled s)
unfolding lose_coordinator
lose_coordinator-IsDirected lookup cancelled s d = go s.thread cancelled
  where
    go :
        (o : Option Addr) (b : Bool)
        → Leaves IsDirected (elim o [
          | none ↦ undefined
          | some to ↦
              if b then call_election lookup s.members (record s { thread = none }) else exited s
        ])
    go none b = tt
    go (some to) true = call_election-IsDirected lookup s.members (record s { thread = none }) d.0 d
    go (some to) false = d

on_silence-IsDirected :
    (lookup : List ℕ → Option ℕ) (s : Node) → IsDirected s → Leaves IsDirected (on_silence lookup s)
unfolding on_silence
on_silence-IsDirected lookup s d =
    Leaves-bind IsDirected _ _ (first (s.last_received == answer))
      (λ t h. last (t.last_received == elect) t h)
  where
    first :
        (b : Bool) → Leaves IsDirected (if b then call_election lookup s.members s else running s)
    first true = call_election-IsDirected lookup s.members s d.0 d
    first false = d

    last :
        (b : Bool) (t : Node)
        → IsDirected t
        → Leaves IsDirected (if b then declare_coordinator lookup t.members t else running t)
    last true t h = declare_coordinator-IsDirected lookup t.members t h.0 h
    last false t h = h

pub on_timeout-IsDirected :
    (lookup : List ℕ → Option ℕ) (cancelled : Bool) (s : Node)
    → IsDirected s
    → Leaves IsDirected (on_timeout lookup cancelled s)
unfolding on_timeout
on_timeout-IsDirected lookup cancelled s d = elim (Bool-cases (s.last_sent == elect)) [
  | inl e ↦ rw e (declare_coordinator-IsDirected lookup s.members s d.0 d)
  | inr e1 ↦ elim (Bool-cases (s.last_sent == aya)) [
    | inl e ↦ rw (e1, e) (lose_coordinator-IsDirected lookup cancelled s d)
    | inr e2 ↦ elim (Bool-cases (s.last_sent == 0)) [
      | inl e ↦ rw (e1, e2, e) (on_silence-IsDirected lookup s d)
      | inr e3 ↦ rw (e1, e2, e3) d
    ]
  ]
]

pub thread_main-IsDirected : (s : Node) → IsDirected s → Leaves IsDirected (thread_main s)
unfolding thread_main
thread_main-IsDirected s d = go s.thread ((2 * s.aya_time) % 2 ^ 64 == 0)
  where
    t : Node
    t = record s { last_sent = aya; drawn = s.drawn + 10 }

    go :
        (o : Option Addr) (b : Bool)
        → Leaves IsDirected (elim o [
          | none ↦ running s
          | some to ↦ if b then undefined else running (send_event aya (s.port % 2 ^ 32) to t)
        ])
    go none b = d
    go (some to) true = tt
    go (some to) false =
        other-IsDirected aya (s.port % 2 ^ 32) to t (λ k. omega (arith, k)) (λ k. omega (arith, k))
          d
