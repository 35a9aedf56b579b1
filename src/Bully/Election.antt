-- ===== src/Bully/Election.antt =====
-- What the states lastSent and lastReceived of bully_algorithm/node.c lead to.
use distributed_system.Base.{
  ℕ, ◌≡◌, refl, ap, ◌∙◌, ◌≢◌, ◌⊎◌, inl, inr, Bool, true, false, Option, none, some, List, [], ◌∷◌,
  arith, ltb, ◌==◌, if◌then◌else◌, Bool-cases,
}
use distributed_system.Outcome.{◌>>=◌, running, undefined, Outcome, Leaves, Leaves-bind, exited}
use distributed_system.Msg.{Addr}
use distributed_system.Bully.State.{
  GroupMem, Node, aya, coord, elect, send_event, send_msg, update_clock, write_event_to_log,
  Message, answer,
}
use distributed_system.Bully.Elect.{
  address, call_election, declare_coordinator, pass_election, to_member, send_elect,
}
use distributed_system.Bully.Handle.{lose_coordinator, on_timeout, on_silence, on_answer, on_elect}
use distributed_system.Bully.Loops.{
  FindsAll, any_above, any_below, host_of, packets, packets-send_event, tells, call_election-none,
  declare_coordinator-sent, pass_election-sent,
}

-- The case AYA of a timeout.
on_timeout-aya :
    (lookup : List ℕ → Option ℕ) (cancelled : Bool) (s : Node)
    → s.last_sent ≡ aya
    → on_timeout lookup cancelled s ≡ lose_coordinator lookup cancelled s
unfolding on_timeout
on_timeout-aya lookup cancelled s sent_aya =
    ap
      (λ n.
        if n == elect
        then declare_coordinator lookup s.members s
        else (if n == aya
            then lose_coordinator lookup cancelled s
            else (if n == 0 then on_silence lookup s else running s)))
      sent_aya

lose_coordinator-alone :
    (lookup : List ℕ → Option ℕ) (s : Node) (to : Addr)
    → s.thread ≡ some to
    → any_above s.port s.members ≡ false
    → lose_coordinator lookup true s ≡ running (record s { thread = none })
unfolding lose_coordinator
lose_coordinator-alone lookup s to started alone =
    ap
      (λ (o : Option Addr). elim o [
        | none ↦ undefined
        | some to ↦ call_election lookup s.members (record s { thread = none })
      ])
      started
    ∙ call_election-none lookup s.members (record s { thread = none }) alone

-- A node whose coordinator does not answer, and that has no member above it, cancels its AYA thread
-- and sends nothing; the next timeout reads through the null pointer, which is undefined.
pub on_timeout-lost :
    (lookup : List ℕ → Option ℕ) (cancelled : Bool) (s : Node) (to : Addr)
    → s.last_sent ≡ aya
    → s.thread ≡ some to
    → any_above s.port s.members ≡ false
    → (on_timeout lookup true s >>= λ t. on_timeout lookup cancelled t) ≡ undefined
unfolding lose_coordinator
on_timeout-lost lookup cancelled s to sent_aya started alone =
    ap (λ o. o >>= λ t. on_timeout lookup cancelled t)
      (on_timeout-aya lookup true s sent_aya ∙ lose_coordinator-alone lookup s to started alone)
    ∙ on_timeout-aya lookup cancelled (record s { thread = none }) sent_aya

-- Only a change of `lastSent` matters to the rest.
bind-running :
    (P : Node → Type 0) (o : Outcome Node) (f : Node → Outcome Node)
    → Leaves P o
    → ((t : Node) → P t → f t ≡ running t)
    → (o >>= f) ≡ o
bind-running P (running s) f p h = h s p
bind-running P (exited s) f p h = refl
bind-running P undefined f p h = refl

call_election-received :
    (lookup : List ℕ → Option ℕ) (gs : List GroupMem) (s : Node) (r : ℕ)
    → s.last_received ≡ r
    → Leaves (λ t. t.last_received ≡ r) (call_election lookup gs s)
unfolding call_election to_member send_elect send_event update_clock send_msg write_event_to_log
call_election-received lookup [] s r h = h
call_election-received lookup (g ∷ gs) s r h =
    Leaves-bind (λ t. t.last_received ≡ r) _ (λ t. call_election lookup gs t)
      (turn (ltb s.port g.portno) (lookup g.hostname))
      (λ t k. call_election-received lookup gs t r k)
  where
    turn :
        (b : Bool) (o : Option ℕ)
        → Leaves
            (λ t. t.last_received ≡ r)
            (if b
              then elim o [ none ↦ exited s | some host ↦ running (send_elect (address host g) s) ]
              else running s)
    turn true none = h
    turn true (some host) = h
    turn false o = h

-- A node whose ELECT is answered does not declare itself: if nothing else arrives, the very next
-- timeout does what a new election call does, and no more. msg.h says that it is to wait for
-- MAX_NODES + 1 timeouts.
pub on_timeout-on_answer :
    (lookup : List ℕ → Option ℕ) (cancelled : Bool) (s : Node)
    → s.last_sent ≡ elect
    → on_timeout lookup cancelled (on_answer s) ≡ call_election lookup s.members (on_answer s)
unfolding on_timeout on_answer on_silence
on_timeout-on_answer lookup cancelled s sent_elect = elim (Bool-cases (s.last_sent == elect)) [
  | inr e ↦ absurd (ground (arith, e, sent_elect))
  | inl e ↦ rw e (
      bind-running (λ t. t.last_received ≡ answer)
        (call_election lookup s.members (record s { last_received = answer; last_sent = 0 })) _
        (call_election-received lookup s.members
          (record s { last_received = answer; last_sent = 0 }) answer refl)
        (λ t r. rw r refl))
]

tells-none :
    (port : ℕ) (host : GroupMem → ℕ) (kind id : ℕ) (gs : List GroupMem) (h : List (Addr × ℕ × ℕ))
    → any_above port gs ≡ false
    → tells (ltb port) host kind id gs h ≡ h
unfolding tells any_above
tells-none port host kind id [] h alone = refl
tells-none port host kind id (g ∷ gs) h alone = elim (Bool-cases (ltb port g.portno)) [
  | inl e ↦ absurd (ground (arith, e, alone))
  | inr e ↦ rw e (tells-none port host kind id gs h (ground (arith, e, alone)))
]

-- A node with no election open that receives an ELECT, where every host is found and no packet is
-- dropped: it hands over an ANSWER with the election id to the sender, and then, if some member has
-- a greater port, an ELECT with that id to each such member in turn, and waits for an answer
-- (lastSent is ELECT); if none has, a COORD to each member with a smaller port in turn. Then
-- lastSent is COORD, but 0 where there is no such member: it has told no one. It sends nothing else.
pub on_elect_sent :
    (lookup : List ℕ → Option ℕ) (m : Message) (from : Addr) (s : Node)
    → (finds : FindsAll lookup) → s.send_failure_probability ≡ 0
    → s.last_sent ≢ elect
    → (t : Node) × (on_elect lookup m from s ≡ running t)
      × (t.last_received ≡ elect)
      × (t.last_sent ≡ (
          if any_above s.port s.members
          then elect
          else (if any_below s.port s.members then coord else 0)))
      × (packets t.history ≡ (
          let answered = (from, answer, m.election_id) ∷ packets s.history in
          if any_above s.port s.members
          then tells (ltb s.port) (host_of finds) elect m.election_id s.members answered
          else tells (λ portno. ltb portno s.port) (host_of finds) coord 0 s.members answered))
unfolding on_elect send_event update_clock send_msg write_event_to_log
on_elect_sent lookup m from s finds sure closed =
    let s1 = record (send_event answer m.election_id from s) { last_received = elect } in
    let (t, r, (port, members, received, drops), l, p) =
      pass_election-sent lookup m.election_id s.members (record s1 { last_sent = 0 }) finds sure in
    let passed =
      p
      ∙ ap (tells (ltb s.port) (host_of finds) elect m.election_id s.members)
          (packets-send_event answer m.election_id from s sure) in
    let start = closed_start (Bool-cases (s.last_sent == elect)) ∙ ap (λ o. o >>= after) r in
    elim (Bool-cases (any_above s.port s.members)) [
      | inl above ↦
          let sent_elect = rw above at l in
          (t, start ∙ rw sent_elect refl, received, sent_elect ∙ rw above refl, rw above passed)
      | inr alone ↦
          let sent_none = rw alone at l in
          let (u, q, (_, _, received', _), k, d) =
            declare_coordinator-sent lookup t.members t finds (drops ∙ sure) in
          (
            u,
            start ∙ rw sent_none q,
            received' ∙ received,
            k ∙ rw (port, members, sent_none, alone) refl,
            d
                ∙ rw (port, members, alone)
                    (ap (tells (λ portno. ltb portno s.port) (host_of finds) coord 0 s.members) (
                      passed
                      ∙ tells-none s.port (host_of finds) elect m.election_id s.members _ alone)),
          )
    ]
  where
    after : Node → Outcome Node
    after t = if t.last_sent == 0 then declare_coordinator lookup t.members t else running t

    closed_start :
        (((s.last_sent == elect) ≡ true) ⊎ ((s.last_sent == elect) ≡ false))
        → on_elect lookup m from s ≡ (
            pass_election lookup m.election_id s.members
              (record (record (send_event answer m.election_id from s) { last_received = elect }) {
                last_sent = 0;
              })
            >>= after)
    closed_start (inl e) = absurd (ground (arith, e, closed))
    closed_start (inr e) = rw e refl
