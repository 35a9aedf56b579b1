-- ===== src/FgMpi/Stamps.antt =====
-- The times on the messages of bully_algorithm_fg_mpi/bully.c.
use distributed_system.Base.{ℕ, ◌≤◌, ◌<◌, max, List, [], ◌∷◌, arith}
use distributed_system.FgMpi.Closed.{Closed}
use distributed_system.FgMpi.State.{Effect, Message, Node, isend, printed, received, discarded}
use distributed_system.Outcome.{Leaves}
use distributed_system.FgMpi.Handle.{run}
use distributed_system.FgMpi.Rounds.{run-keep}

-- The greatest time sent or received; clock ticks, and what a dead node takes in, do not count.
unfoldable pub latest : List Effect → ℕ
latest [] = 0
latest (printed l ∷ h) = latest h
latest (received m ∷ h) = max m.time (latest h)
latest (discarded m ∷ h) = latest h
latest (isend to event time c ∷ h) = max time (latest h)

-- The time of each message sent is later than all times sent or received in front of it.
abbrev pub IsStamped : List Effect → Type 0
IsStamped [] = Unit
IsStamped (printed l ∷ h) = IsStamped h
IsStamped (received m ∷ h) = IsStamped h
IsStamped (discarded m ∷ h) = IsStamped h
IsStamped (isend to event time c ∷ h) = (latest h < time) × IsStamped h

abbrev pub Settled : ℕ → ℕ → ℕ → List Effect → Type 0
Settled rank size dlc h = (latest h ≤ dlc) × IsStamped h

abbrev Fresh : ℕ → ℕ → ℕ → List Effect → Type 0
Fresh rank size dlc h = (latest h < dlc) × IsStamped h

stamps-Closed : Closed Settled Fresh
unfolding latest
stamps-Closed = record {
  prints = λ r z d h l p. p;
  fresh_prints = λ r z d h l p. p;
  receives = λ r z d h m p. (ground (arith, p.0), p.1);
  discards = λ r z d h m p. p;
  advances = λ r z d h p. (omega (arith, p.0), p.1);
  settles = λ r z d h p. (omega (arith, p.0), p.1);
  posts = λ r z d h event to c may p. (omega (arith, p.0), (p.0, p.1));
}

-- From a node whose time is not behind the times that it has sent and received, whatever messages
-- arrive in whatever order: each message is sent with a later time than all that were sent or
-- received in front of it, and the own time is not behind, where no int overflows. The clock ticks,
-- and the messages that the node takes in while it is dead, do not count: it does not merge their
-- times.
pub run-IsStamped :
    (s : Node) (ms : List Message)
    → (latest s.history ≤ s.dlc_time) × IsStamped s.history
    → Leaves (λ t. (latest t.history ≤ t.dlc_time) × IsStamped t.history) (run s ms)
run-IsStamped s ms p = run-keep stamps-Closed s ms p
