-- ===== src/Bully/Start.antt =====
-- The start of a node in bully_algorithm/node.c: foundInGroup and the end of main.
use distributed_system.Base.{
  ℕ, suc, ◌-◌, ◌%◌, ◌^◌, false, Option, none, some, List, [], ◌∷◌, ◌++◌, ltb, ◌==◌, if◌then◌else◌,
  replicate,
}
use distributed_system.Bully.State.{GroupMem, Node, max_nodes}
use distributed_system.Outcome.{Outcome, running, undefined}
use distributed_system.Clock.{empty}

unfoldable pub found_in_group : ℕ → List GroupMem → Option ℕ
found_in_group port [] = none
found_in_group port (g ∷ gs) = elim (found_in_group port gs) [
  | none ↦ if port == g.portno then some 0 else none
  | some i ↦ if port == g.portno then some 0 else some (suc i)
]

-- The globals when the main loop begins: the own slot of the clock is 1, at the position in the group.
unfoldable pub fresh_node : ℕ → List GroupMem → ℕ → ℕ → (ℕ → ℕ) → ℕ → Node
fresh_node port members probability aya_time random pos = record {
  port = port;
  members = members;
  my_vector_clock =
      replicate pos empty
      ++ (record { node_id = port % 2 ^ 32; time = 1 } ∷ replicate (max_nodes - 1 - pos) empty);
  counter = 1;
  last_sent = 0;
  last_received = 0;
  thread = none;
  handle_first_msg = false;
  aya_time = aya_time;
  send_failure_probability = probability;
  random = random;
  drawn = 0;
  history = [];
}

-- none is the return of main for a port that is not of the group. A group of more members than the
-- clock has slots is outside of the arrays.
unfoldable pub first_start : ℕ → List GroupMem → ℕ → ℕ → (ℕ → ℕ) → Option (Outcome Node)
unfolding found_in_group fresh_node
first_start port members probability aya_time random = elim (found_in_group port members) [
  | none ↦ none
  | some pos ↦
      if ltb pos max_nodes
      then some (running (fresh_node port members probability aya_time random pos))
      else some undefined
]
