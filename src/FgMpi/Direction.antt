-- ===== src/FgMpi/Direction.antt =====
-- Whom a node of bully_algorithm_fg_mpi/bully.c writes to.
use distributed_system.Base.{ℕ, List, All}
use distributed_system.FgMpi.Closed.{Closed, May}
use distributed_system.FgMpi.State.{Effect, Message, Node, isend, printed, received, discarded}
use distributed_system.Outcome.{Leaves}
use distributed_system.FgMpi.Handle.{run}
use distributed_system.FgMpi.Rounds.{run-keep}

-- A COORD goes to a rank below that is not the clock node's, an ELECTION to a rank above.
abbrev pub Directed : ℕ → ℕ → Effect → Type 0
Directed rank size (printed l) = Unit
Directed rank size (received m) = Unit
Directed rank size (discarded m) = Unit
Directed rank size (isend to event time c) = May rank size event to

abbrev AllDirected : ℕ → ℕ → ℕ → List Effect → Type 0
AllDirected rank size dlc h = All (Directed rank size) h

direction-Closed : Closed AllDirected AllDirected
direction-Closed = record {
  prints = λ r z d h l p. (tt, p);
  fresh_prints = λ r z d h l p. (tt, p);
  receives = λ r z d h m p. (tt, p);
  discards = λ r z d h m p. (tt, p);
  advances = λ r z d h p. p;
  settles = λ r z d h p. p;
  posts = λ r z d h event to c may p. (may, p);
}

-- Whatever messages arrive in whatever order, each COORD that a node sends goes to a smaller rank but
-- not to the clock node, and each ELECTION to a greater rank that exists, where no int overflows.
pub run-Directed :
    (s : Node) (ms : List Message)
    → All (Directed s.rank s.size) s.history
    → Leaves (λ t. All (Directed t.rank t.size) t.history) (run s ms)
run-Directed s ms p = run-keep direction-Closed s ms p
