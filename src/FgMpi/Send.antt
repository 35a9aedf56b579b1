-- ===== src/FgMpi/Send.antt =====
-- Sends in bully_algorithm_fg_mpi/bully.c: the time, constructMsg, the line and MPI_Isend with the
-- MPI_Test after it, and the loops over the ranks.
use distributed_system.Base.{ℕ, zero, suc, ◌+◌, ◌-◌, ◌^◌, true, ◌∷◌, ltb, if◌then◌else◌}
use distributed_system.Outcome.{◌>>=◌, Outcome, running, undefined}
use distributed_system.FgMpi.State.{Node, coord_id, election_id, isend, print_event}

-- `dlcTime++`: the overflow of an int is undefined.
unfoldable pub advance : Node → Outcome Node
advance s =
    if ltb (s.dlc_time + 1) (2 ^ 31)
    then running (record s { dlc_time = s.dlc_time + 1 })
    else undefined

-- MPI_Isend of the event and the time, MPI_Test, and the cancellation if it is not complete.
unfoldable pub post : ℕ → ℕ → Node → Node
post event to s = record s {
  tested = suc s.tested;
  history = isend to event s.dlc_time (s.test s.tested) ∷ s.history;
}

-- The calls that a send consists of, the time advanced first.
unfoldable pub send_event : ℕ → ℕ → Node → Outcome Node
unfolding advance print_event post
send_event event to s =
    advance s >>= λ t. running (post event to (print_event event t.rank to true t))

unfoldable pub send_election : ℕ → Node → Outcome Node
unfolding send_event
send_election to s =
    send_event election_id to s >>= λ t. running (record t { last_sent = election_id })

-- In the case 0 of a timeout lastReceived is cleared as well.
unfoldable pub resend_election : ℕ → Node → Outcome Node
unfolding send_event
resend_election to s = send_event election_id to s >>= λ t.
    running (record t { last_sent = election_id; last_received = 0 })

unfoldable pub send_coord : ℕ → Node → Outcome Node
unfolding send_event
send_coord to s = send_event coord_id to s >>= λ t. running (record t { last_sent = coord_id })

-- `for (i = from; i < from + n; i++)`
unfoldable pub for_ranks : (ℕ → Node → Outcome Node) → ℕ → ℕ → Node → Outcome Node
for_ranks body zero i s = running s
for_ranks body (suc n) i s = body i s >>= λ t. for_ranks body n (i + 1) t

-- The loops over the ranks above, and over those below, without the clock node.
unfoldable pub for_above : (ℕ → Node → Outcome Node) → Node → Outcome Node
unfolding for_ranks
for_above body s = for_ranks body (s.size - (s.rank + 1)) (s.rank + 1) s

unfoldable pub declare : Node → Outcome Node
unfolding for_ranks send_coord
declare s = for_ranks send_coord (s.rank - 1) 1 s
