-- ===== src/Bully/Roundtrip.antt =====
-- Messages of bully_algorithm/node.c survive the wire.
use distributed_system.Base.{ℕ, ◌^◌, ◌<◌, ◌≡◌, some, List, ◌++◌, length, All}
use distributed_system.Wire.{◌>>=◌}
use distributed_system.Wire.Words.{ClockFits, deserialize-serialize_clock_slots, four_bytes}
use distributed_system.Bully.State.{Message, max_nodes}
use distributed_system.Bully.Wire.{deserialize_msg, serialize_msg}

-- Values that fit their fields, with a full clock.
abbrev pub MessageFits : Message → Type 0
MessageFits m =
    (m.msg_id < 2 ^ 32)
    × (m.election_id < 2 ^ 32)
    × (length m.vector_clock ≡ max_nodes)
    × All ClockFits m.vector_clock

-- A message with nine clock entries, whose fields are below 2 ^ 32, is read back as it was sent,
-- whatever follows it in the buffer.
pub node_deserialize-serialize :
    (m : Message) (rest : List ℕ)
    → MessageFits m
    → deserialize_msg (serialize_msg m ++ rest) ≡ some (m, rest)
unfolding deserialize_msg serialize_msg
node_deserialize-serialize m rest (h1, h2, slots, fits) =
    rw (four_bytes m.msg_id h1, four_bytes m.election_id h2)
      (rw (deserialize-serialize_clock_slots max_nodes m.vector_clock rest slots fits, ◌>>=◌))
