-- ===== src/FgMpi/Tests.antt =====
-- Runs of bully_algorithm_fg_mpi/bully.c on concrete nodes.
use distributed_system.Base.{
  ℕ, ◌≤◌, ◌≡◌, refl, true, false, none, List, [], ◌∷◌, ◌++◌, arith, replicate, All,
}
use distributed_system.Outcome.{Leaves, exited, running, undefined}
use distributed_system.FgMpi.Direction.{Directed, run-Directed}
use distributed_system.FgMpi.State.{
  Effect, Message, Node, answer_id, coord_id, election_id, isend, labels, node_line, print_event,
  printed,
}
use distributed_system.FgMpi.Silence.{IsLonely, isends, sends_to}
use distributed_system.FgMpi.Stamps.{IsStamped, latest, run-IsStamped}
use distributed_system.FgMpi.Send.{advance, for_ranks}
use distributed_system.FgMpi.Start.{begin, clock_tick, fresh_node, handle_clock, send_first}
use distributed_system.FgMpi.Handle.{run}
use distributed_system.FgMpi.Highest.{run-highest}
use distributed_system.FgMpi.Liveness.{run-silence_declares, silence}

abbrev node_of : ℕ → Node
node_of rank = record {
  size = 4;
  rank = rank;
  is_debug = false;
  timeout_value = 3;
  aya_time = 2;
  send_failure = 10;
  return_to_life = 5;
  tick = 0;
  aya_tick = 0;
  dlc_time = 0;
  last_sent = 0;
  last_received = 0;
  aya_rate = 0;
  coord_node = 0;
  dead = none;
  random = λ n. 50;
  drawn = 0;
  wtime = λ n. n;
  timed = 0;
  test = λ n. true;
  tested = 0;
  history = [];
}

-- That is how the node of a rank starts.
node_of_starts :
    (rank : ℕ) → node_of rank ≡ fresh_node 4 rank false 3 2 10 5 (λ n. 50) (λ n. n) (λ n. true)
unfolding fresh_node
node_of_starts rank = refl

abbrev message : ℕ → ℕ → ℕ → Message
message source tag time = record { source = source; tag = tag; event = tag; time = time }

-- The first node of four calls an election at ranks 2 and 3.
unfoldable begun : List Effect
unfolding begin
begun = elim (begin (node_of 1)) [ running t ↦ t.history | exited t ↦ [] | undefined ↦ [] ]

begin_runs :
    begun
    ≡ isend 3 election_id 2 true
      ∷ printed (node_line 1 "ELECTION" 2)
      ∷ isend 2 election_id 1 true
      ∷ printed (node_line 1 "ELECTION" 1)
      ∷ []
unfolding begun send_first advance print_event labels for_ranks
begin_runs = refl

clock_runs : handle_clock 3 ≡ (1, clock_tick) ∷ (2, clock_tick) ∷ []
unfolding handle_clock
clock_runs = refl

run-IsStamped_example :
    Leaves
      (λ t. (latest t.history ≤ t.dlc_time) × IsStamped t.history)
      (run (node_of 2) (message 1 election_id 7 ∷ clock_tick ∷ message 3 answer_id 9 ∷ []))
unfolding latest
run-IsStamped_example =
    run-IsStamped (node_of 2) (message 1 election_id 7 ∷ clock_tick ∷ message 3 answer_id 9 ∷ [])
      (omega arith, tt)

run-Directed_example :
    Leaves
      (λ t. All (Directed t.rank t.size) t.history)
      (run (node_of 2) (message 1 election_id 7 ∷ clock_tick ∷ message 3 answer_id 9 ∷ []))
run-Directed_example =
    run-Directed (node_of 2) (message 1 election_id 7 ∷ clock_tick ∷ message 3 answer_id 9 ∷ []) tt

node_of-IsLonely : (rank : ℕ) → IsLonely (node_of rank)
node_of-IsLonely rank = (refl, refl, omega arith)

run-silence_declares_example :
    (t u : Node) × (run (node_of 2) (silence (node_of 2)) ≡ running t)
    × (t.last_sent ≡ election_id)
    × (isends t.history ≡ (3, election_id) ∷ [])
    × (run (node_of 2) (silence (node_of 2) ++ silence (node_of 2)) ≡ running u)
    × (u.last_sent ≡ coord_id)
    × (isends u.history ≡ (1, coord_id) ∷ isends t.history)
unfolding isends sends_to
run-silence_declares_example =
    run-silence_declares (node_of 2) (node_of-IsLonely 2) refl refl refl (omega arith) (omega arith)
      (omega arith) (omega arith) (omega arith)

run-highest_example :
    (t : Node) × (run (node_of 3) (replicate 100 clock_tick) ≡ running t)
    × (t.history ≡ (node_of 3).history)
    × (t.last_sent ≡ 0)
run-highest_example =
    run-highest 100 (node_of 3) (node_of-IsLonely 3) refl refl refl (omega arith) (omega arith)
      (omega arith)
