-- ===== src/Bully/Tests.antt =====
-- Runs of bully_algorithm/node.c on concrete nodes.
use distributed_system.Base.{
  ℕ, ◌≡◌, refl, true, false, Option, none, some, List, [], ◌∷◌, ◌++◌, arith, replicate,
}
use distributed_system.Outcome.{◌>>=◌, Leaves, running}
use distributed_system.Msg.{Addr}
use distributed_system.Clock.{Clock, empty}
use distributed_system.Bully.Election.{on_elect_sent, on_timeout-on_answer}
use distributed_system.Bully.State.{GroupMem, Message, Node, answer, aya, elect}
use distributed_system.Bully.Order.{IsDirected}
use distributed_system.Bully.Elect.{address, call_election, declare_coordinator}
use distributed_system.Bully.Handle.{
  datagram, first_round, on_answer, on_elect, on_timeout, run, thread_round, timeout,
}
use distributed_system.Bully.Wire.{deserialize_msg, serialize_msg}
use distributed_system.Bully.Launch.{first_round-deaf}
use distributed_system.Bully.Roundtrip.{node_deserialize-serialize}
use distributed_system.Bully.Safety.{run-IsDirected}
use distributed_system.Bully.Loops.{FindsAll, any_above, packets, tells}

abbrev lookup_all : List ℕ → Option ℕ
lookup_all name = some 7

lookup_all-FindsAll : FindsAll lookup_all
lookup_all-FindsAll name = (7, refl)

abbrev member : ℕ → GroupMem
member portno = record { hostname = 97 ∷ []; portno = portno }

-- A node with the middle port of three, before its first message.
abbrev middle : Node
middle = record {
  port = 5001;
  members = member 5002 ∷ member 5001 ∷ member 5000 ∷ [];
  my_vector_clock = empty ∷ record { node_id = 5001; time = 1 } ∷ empty ∷ [];
  counter = 1;
  last_sent = 0;
  last_received = 0;
  thread = none;
  handle_first_msg = false;
  aya_time = 2;
  send_failure_probability = 0;
  random = λ n. 50;
  drawn = 0;
  history = [];
}

abbrev from_above : Addr
from_above = record { host = 7; sin_port = 5002 }

abbrev an_elect : Message
an_elect = record { msg_id = elect; election_id = 3; vector_clock = replicate 9 empty }

abbrev theirs : List Clock
theirs = record { node_id = 5002; time = 4 } ∷ empty ∷ []

middle-IsDirected : IsDirected middle
middle-IsDirected = (omega arith, tt)

run-IsDirected_example : Leaves IsDirected (
    first_round lookup_all middle (timeout true) >>= λ t.
    run lookup_all t
      (datagram true (serialize_msg an_elect) from_above ∷ timeout true ∷ thread_round ∷ []))
run-IsDirected_example =
    run-IsDirected lookup_all middle (timeout true)
      (datagram true (serialize_msg an_elect) from_above ∷ timeout true ∷ thread_round ∷ [])
      middle-IsDirected

on_elect_sent_example :
    (t : Node) × (on_elect lookup_all an_elect from_above middle ≡ running t)
    × (t.last_received ≡ elect)
    × (t.last_sent ≡ elect)
    × (packets t.history
        ≡ (record { host = 7; sin_port = 5002 }, elect, 3) ∷ (from_above, answer, 3) ∷ [])
unfolding any_above packets tells address lookup_all-FindsAll
on_elect_sent_example =
    on_elect_sent lookup_all an_elect from_above middle lookup_all-FindsAll refl
      (λ e. omega (arith, e))

abbrev electing : Node
electing = record middle { last_sent = elect; last_received = elect }

on_timeout-on_answer_example :
    on_timeout lookup_all true (on_answer electing)
    ≡ call_election lookup_all electing.members (on_answer electing)
on_timeout-on_answer_example = on_timeout-on_answer lookup_all true electing refl

-- The node with the greatest port, which has followed another coordinator.
abbrev follower : Node
follower = record middle { port = 5002; last_sent = aya; thread = some from_above }

first_round-deaf_example :
    (t : Node) × (first_round lookup_all middle (timeout true) ≡ running t)
    × (on_answer t ≡ t)
    × (on_timeout lookup_all true t ≡ declare_coordinator lookup_all t.members t)
first_round-deaf_example =
    first_round-deaf lookup_all true (member 5002 ∷ member 5001 ∷ []) (member 5000) middle
      lookup_all-FindsAll refl (omega arith)

node_roundtrip_example : deserialize_msg (serialize_msg an_elect ++ []) ≡ some (an_elect, [])
node_roundtrip_example = node_deserialize-serialize an_elect [] (omega arith)
