-- ===== src/FgMpi/Start.antt =====
-- The start of handleNode and the clock node, handleClock, in bully_algorithm_fg_mpi/bully.c.
use distributed_system.Base.{
  ℕ, zero, suc, ◌+◌, ◌-◌, Bool, true, none, List, [], ◌∷◌, ◌==◌, if◌then◌else◌,
}
use distributed_system.Outcome.{◌>>=◌, Outcome, running}
use distributed_system.FgMpi.State.{Message, Node, clock_id, election_id, isend, print_event}
use distributed_system.FgMpi.Send.{advance, for_above}

-- MPI_Send waits until the message can be handed on.
unfoldable pub send_first : ℕ → Node → Outcome Node
unfolding advance print_event
send_first to s = advance s >>= λ t.
    let u = print_event election_id t.rank to true t in
    running (record u {
      last_sent = election_id;
      history = isend to election_id u.dlc_time true ∷ u.history;
    })

-- The election that the node of rank 1 begins with.
unfoldable pub begin : Node → Outcome Node
unfolding for_above send_first
begin s = if s.rank == 1 then for_above send_first s else running s

-- The locals of handleNode, with the arguments of the program.
unfoldable pub fresh_node : ℕ → ℕ → Bool → ℕ → ℕ → ℕ → ℕ → (ℕ → ℕ) → (ℕ → ℕ) → (ℕ → Bool) → Node
fresh_node size rank is_debug timeout_value aya_time send_failure return_to_life random wtime test =
    record {
      size = size;
      rank = rank;
      is_debug = is_debug;
      timeout_value = timeout_value;
      aya_time = aya_time;
      send_failure = send_failure;
      return_to_life = return_to_life;
      tick = 0;
      aya_tick = 0;
      dlc_time = 0;
      last_sent = 0;
      last_received = 0;
      aya_rate = 0;
      coord_node = 0;
      dead = none;
      random = random;
      drawn = 0;
      wtime = wtime;
      timed = 0;
      test = test;
      tested = 0;
      history = [];
    }

-- What the clock node sends: one int, so the second one of the receiver stays; nothing reads it.
abbrev pub clock_tick : Message
clock_tick = record { source = 0; tag = clock_id; event = clock_id; time = 0 }

-- One round of handleClock: the ranks that are sent a tick, from 1.
unfoldable pub clock_round : ℕ → ℕ → List (ℕ × Message)
clock_round zero i = []
clock_round (suc n) i = (i, clock_tick) ∷ clock_round n (i + 1)

unfoldable pub handle_clock : ℕ → List (ℕ × Message)
unfolding clock_round
handle_clock size = clock_round (size - 1) 1
