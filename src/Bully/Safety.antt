-- ===== src/Bully/Safety.antt =====
-- The direction of the messages of bully_algorithm/node.c through the main loop.
use distributed_system.Base.{ℕ, Bool, true, false, Option, none, some, List, [], ◌∷◌, if◌then◌else◌}
use distributed_system.Outcome.{◌>>=◌, Leaves, Leaves-bind, running, undefined}
use distributed_system.Bully.Order.{IsDirected, call_first_election-IsDirected}
use distributed_system.Bully.State.{Message, Node}
use distributed_system.Bully.Handle.{
  on_timeout, receive, Input, datagram, first_round, no_bytes, round, run, thread_round, timeout,
}
use distributed_system.Bully.Wire.{deserialize_msg}
use distributed_system.Bully.Directed.{
  on_timeout-IsDirected, receive-IsDirected, thread_main-IsDirected,
}

round-IsDirected :
    (lookup : List ℕ → Option ℕ) (s : Node) (i : Input)
    → IsDirected s
    → Leaves IsDirected (round lookup s i)
unfolding round
round-IsDirected lookup s (timeout cancelled) d = go s.handle_first_msg
  where
    go : (b : Bool) → Leaves IsDirected (if b then running s else on_timeout lookup cancelled s)
    go true = d
    go false = on_timeout-IsDirected lookup cancelled s d
round-IsDirected lookup s no_bytes d = d
round-IsDirected lookup s (datagram created buffer from) d =
    go s.handle_first_msg (deserialize_msg buffer)
  where
    go :
        (b : Bool) (o : Option (Message × List ℕ))
        → Leaves IsDirected (
            if b
            then running s
            else elim o [ none ↦ undefined | some (m, rest) ↦ receive lookup created m from s ])
    go true o = d
    go false none = tt
    go false (some (m, rest)) = receive-IsDirected lookup created m from s d
round-IsDirected lookup s thread_round d = thread_main-IsDirected s d

first_round-IsDirected :
    (lookup : List ℕ → Option ℕ) (s : Node) (i : Input)
    → IsDirected s
    → Leaves IsDirected (first_round lookup s i)
unfolding first_round
first_round-IsDirected lookup s (timeout cancelled) d =
    call_first_election-IsDirected lookup s.members s d.0 d
first_round-IsDirected lookup s no_bytes d = d
first_round-IsDirected lookup s (datagram created buffer from) d = go (deserialize_msg buffer)
  where
    go :
        (o : Option (Message × List ℕ))
        → Leaves IsDirected (elim o [
          | none ↦ undefined
          | some (m, rest) ↦
              receive lookup created m from
                (record s { last_received = 0; last_sent = 0; handle_first_msg = true })
        ])
    go none = tt
    go (some (m, rest)) =
        receive-IsDirected lookup created m from
          (record s { last_received = 0; last_sent = 0; handle_first_msg = true }) d
first_round-IsDirected lookup s thread_round d = d

rounds-IsDirected :
    (lookup : List ℕ → Option ℕ) (s : Node) (is : List Input)
    → IsDirected s
    → Leaves IsDirected (run lookup s is)
unfolding run
rounds-IsDirected lookup s [] d = d
rounds-IsDirected lookup s (i ∷ is) d =
    Leaves-bind IsDirected (round lookup s i) _ (round-IsDirected lookup s i d)
      (λ t h. rounds-IsDirected lookup t is h)

-- Whatever a node receives first and later, in any order with timeouts and rounds of the AYA thread:
-- if the ports of the group are UDP ports and the messages handed to sendto so far are directed,
-- then in the state that the node goes on or exits with, each COORD handed to sendto went to a
-- smaller port than its own, and each ELECT to a greater one, where the behaviour is defined.
pub run-IsDirected :
    (lookup : List ℕ → Option ℕ) (s : Node) (first : Input) (is : List Input)
    → IsDirected s
    → Leaves IsDirected (first_round lookup s first >>= λ t. run lookup t is)
run-IsDirected lookup s first is d =
    Leaves-bind IsDirected (first_round lookup s first) _ (first_round-IsDirected lookup s first d)
      (λ t h. rounds-IsDirected lookup t is h)
