-- ===== src/Bully/Elect.antt =====
-- The loops of node.c over the group: calling an election and declaring the coordinator. `lookup` is
-- gethostbyname; the process exits where it finds no host.
use distributed_system.Base.{
  ℕ, ◌+◌, ◌%◌, ◌^◌, Option, none, some, List, [], ◌∷◌, ltb, if◌then◌else◌,
}
use distributed_system.Outcome.{◌>>=◌, Outcome, exited, running}
use distributed_system.Msg.{Addr}
use distributed_system.Bully.State.{GroupMem, Node, coord, elect, send_event}

-- `htons(portno)`, read back by ntohs.
unfoldable pub address : ℕ → GroupMem → Addr
address host g = record { host = host; sin_port = g.portno % 2 ^ 16 }

-- A member that the loop writes to: the host is looked up, and the body is run with its address.
unfoldable pub to_member :
    (List ℕ → Option ℕ) → GroupMem → (Addr → Node → Node) → Node → Outcome Node
unfolding address
to_member lookup g body s = elim (lookup g.hostname) [
  | none ↦ exited s
  | some host ↦ running (body (address host g) s)
]

-- An ELECT of an election of the own, and the mark that it was sent.
unfoldable pub send_elect : Addr → Node → Node
unfolding send_event
send_elect to s =
    record (send_event elect s.counter to (record s { counter = (s.counter + 1) % 2 ^ 32 })) {
      last_sent = elect;
    }

unfoldable pub pass_elect : ℕ → Addr → Node → Node
unfolding send_event
pass_elect election_id to s = record (send_event elect election_id to s) { last_sent = elect }

unfoldable pub send_coord : Addr → Node → Node
unfolding send_event
send_coord to s = record (send_event coord 0 to s) { last_sent = coord }

-- The loop that calls a new election, in the cases AYA and 0 of a timeout.
unfoldable pub call_election : (List ℕ → Option ℕ) → List GroupMem → Node → Outcome Node
unfolding to_member send_elect
call_election lookup [] s = running s
call_election lookup (g ∷ gs) s =
    (if ltb s.port g.portno then to_member lookup g send_elect s else running s) >>= λ t.
    call_election lookup gs t

-- The loop after the first timeout, which sets both states anew for every member.
unfoldable pub call_first_election : (List ℕ → Option ℕ) → List GroupMem → Node → Outcome Node
unfolding to_member send_elect
call_first_election lookup [] s = running s
call_first_election lookup (g ∷ gs) s =
    let s1 = record s { last_received = elect; last_sent = 0 } in
    (if ltb s1.port g.portno then to_member lookup g send_elect s1 else running s1) >>= λ t.
    call_first_election lookup gs t

-- The loop that passes on an election that was called by another node.
unfoldable pub pass_election : (List ℕ → Option ℕ) → ℕ → List GroupMem → Node → Outcome Node
unfolding to_member pass_elect
pass_election lookup election_id [] s = running s
pass_election lookup election_id (g ∷ gs) s =
    (if ltb s.port g.portno then to_member lookup g (pass_elect election_id) s else running s)
    >>= λ t. pass_election lookup election_id gs t

-- The loop that tells the members with smaller ports who the coordinator is.
unfoldable pub declare_coordinator : (List ℕ → Option ℕ) → List GroupMem → Node → Outcome Node
unfolding to_member send_coord
declare_coordinator lookup [] s = running s
declare_coordinator lookup (g ∷ gs) s =
    (if ltb g.portno s.port then to_member lookup g send_coord s else running s) >>= λ t.
    declare_coordinator lookup gs t
