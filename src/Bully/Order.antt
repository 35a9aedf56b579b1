-- ===== src/Bully/Order.antt =====
-- Whom a node of bully_algorithm/node.c writes to: coordinators are declared downwards, elections
-- are called upwards.
use distributed_system.Base.{
  ℕ, ◌+◌, ◌%◌, ◌^◌, ◌<◌, ◌≡◌, refl, inl, inr, Bool, true, false, Option, none, some, List, [], ◌∷◌,
  arith, ltb, if◌then◌else◌, Bool-cases, All,
}
use distributed_system.Outcome.{Leaves, Leaves-bind, exited, running}
use distributed_system.Msg.{Addr}
use distributed_system.Bully.State.{
  Effect, GroupMem, Message, Node, construct_msg, coord, elect, logged, send_event, send_msg, sent,
  update_clock, write_event_to_log,
}
use distributed_system.Bully.Elect.{
  address, call_election, call_first_election, declare_coordinator, pass_elect, pass_election,
  send_coord, send_elect, to_member,
}

abbrev pub Directed : ℕ → Effect → Type 0
Directed port (sent to m) =
    (m.msg_id ≡ coord → to.sin_port < port) × (m.msg_id ≡ elect → port < to.sin_port)
Directed port (logged m is_send peer vc) = Unit

-- The port of a member is a UDP port.
abbrev pub PortFits : GroupMem → Type 0
PortFits g = g.portno < 2 ^ 16

-- The ports of the group are UDP ports, each COORD handed to sendto went to a smaller port, and each
-- ELECT to a greater one.
abbrev pub IsDirected : Node → Type 0
IsDirected s = All PortFits s.members × All (Directed s.port) s.history

send_msg-Directed :
    (m : Message) (to : Addr) (s : Node)
    → Directed s.port (sent to m)
    → All (Directed s.port) s.history
    → All (Directed s.port) (send_msg m to s).history
unfolding send_msg
send_msg-Directed m to s d h =
    elim (Bool-cases (ltb (s.random s.drawn % 100) s.send_failure_probability)) [
      | inl dropped ↦ rw dropped h
      | inr goes_out ↦ rw goes_out (d, h)
    ]

pub send_event-IsDirected :
    (kind election_id : ℕ) (to : Addr) (s : Node)
    → (kind ≡ coord → to.sin_port < s.port) × (kind ≡ elect → s.port < to.sin_port)
    → IsDirected s
    → IsDirected (send_event kind election_id to s)
unfolding send_event update_clock construct_msg write_event_to_log send_msg
send_event-IsDirected kind election_id to s d (fit, h) = (
  fit,
  (tt, send_msg-Directed (construct_msg kind election_id (update_clock s)) to (update_clock s) d h),
)

-- A send to a greater port, and to a smaller one.
up-Directed :
    (host : ℕ) (g : GroupMem) (s : Node)
    → PortFits g
    → ltb s.port g.portno ≡ true
    → (elect ≡ coord → (address host g).sin_port < s.port)
      × (elect ≡ elect → s.port < (address host g).sin_port)
unfolding address
up-Directed host g s fit e = (λ k. absurd (omega (arith, k)), λ k. ground arith)

down-Directed :
    (host : ℕ) (g : GroupMem) (s : Node)
    → PortFits g
    → ltb g.portno s.port ≡ true
    → (coord ≡ coord → (address host g).sin_port < s.port)
      × (coord ≡ elect → s.port < (address host g).sin_port)
unfolding address
down-Directed host g s fit e = (λ k. ground arith, λ k. absurd (omega (arith, k)))

-- One turn of a loop over the group.
turn-IsDirected :
    (lookup : List ℕ → Option ℕ) (test : Bool) (g : GroupMem) (body : Addr → Node → Node) (s : Node)
    → (test ≡ true → (host : ℕ) → IsDirected (body (address host g) s))
    → IsDirected s
    → Leaves IsDirected (if test then to_member lookup g body s else running s)
unfolding to_member
turn-IsDirected lookup false g body s keep d = d
turn-IsDirected lookup true g body s keep d = go (lookup g.hostname)
  where
    go :
        (o : Option ℕ)
        → Leaves IsDirected
            (elim o [ none ↦ exited s | some host ↦ running (body (address host g) s) ])
    go none = d
    go (some host) = keep refl host

send_elect-IsDirected :
    (host : ℕ) (g : GroupMem) (s : Node)
    → PortFits g
    → ltb s.port g.portno ≡ true
    → IsDirected s
    → IsDirected (send_elect (address host g) s)
unfolding send_elect
send_elect-IsDirected host g s fit e d =
    send_event-IsDirected elect s.counter (address host g)
      (record s { counter = (s.counter + 1) % 2 ^ 32 }) (up-Directed host g s fit e) d

pub call_election-IsDirected :
    (lookup : List ℕ → Option ℕ) (gs : List GroupMem) (s : Node)
    → All PortFits gs
    → IsDirected s
    → Leaves IsDirected (call_election lookup gs s)
unfolding call_election
call_election-IsDirected lookup [] s fit d = d
call_election-IsDirected lookup (g ∷ gs) s fit d =
    Leaves-bind IsDirected _ (λ t. call_election lookup gs t)
      (turn-IsDirected lookup (ltb s.port g.portno) g send_elect s
        (λ e host. send_elect-IsDirected host g s fit.0 e d) d)
      (λ t d'. call_election-IsDirected lookup gs t fit.1 d')

pub call_first_election-IsDirected :
    (lookup : List ℕ → Option ℕ) (gs : List GroupMem) (s : Node)
    → All PortFits gs
    → IsDirected s
    → Leaves IsDirected (call_first_election lookup gs s)
unfolding call_first_election
call_first_election-IsDirected lookup [] s fit d = d
call_first_election-IsDirected lookup (g ∷ gs) s fit d =
    let s1 = record s { last_received = elect; last_sent = 0 } in
    Leaves-bind IsDirected _ (λ t. call_first_election lookup gs t)
      (turn-IsDirected lookup (ltb s.port g.portno) g send_elect s1
        (λ e host. send_elect-IsDirected host g s1 fit.0 e d) d)
      (λ t d'. call_first_election-IsDirected lookup gs t fit.1 d')

pub pass_election-IsDirected :
    (lookup : List ℕ → Option ℕ) (election_id : ℕ) (gs : List GroupMem) (s : Node)
    → All PortFits gs
    → IsDirected s
    → Leaves IsDirected (pass_election lookup election_id gs s)
unfolding pass_election pass_elect
pass_election-IsDirected lookup election_id [] s fit d = d
pass_election-IsDirected lookup election_id (g ∷ gs) s fit d =
    Leaves-bind IsDirected _ (λ t. pass_election lookup election_id gs t)
      (turn-IsDirected lookup (ltb s.port g.portno) g (pass_elect election_id) s
        (λ e host.
          send_event-IsDirected elect election_id (address host g) s (up-Directed host g s fit.0 e)
            d)
        d)
      (λ t d'. pass_election-IsDirected lookup election_id gs t fit.1 d')

pub declare_coordinator-IsDirected :
    (lookup : List ℕ → Option ℕ) (gs : List GroupMem) (s : Node)
    → All PortFits gs
    → IsDirected s
    → Leaves IsDirected (declare_coordinator lookup gs s)
unfolding declare_coordinator send_coord
declare_coordinator-IsDirected lookup [] s fit d = d
declare_coordinator-IsDirected lookup (g ∷ gs) s fit d =
    Leaves-bind IsDirected _ (λ t. declare_coordinator lookup gs t)
      (turn-IsDirected lookup (ltb g.portno s.port) g send_coord s
        (λ e host.
          send_event-IsDirected coord 0 (address host g) s (down-Directed host g s fit.0 e) d)
        d)
      (λ t d'. declare_coordinator-IsDirected lookup gs t fit.1 d')
