-- ===== src/Bully/Wire.antt =====
-- The wire format of bully_algorithm/node.c: serializeMsg and deserializeMsg. Its ints and clock
-- entries have the bytes of those of helper.c.
use distributed_system.Base.{ℕ, List, ◌++◌}
use distributed_system.Wire.{
  ◌>>=◌, Parser, deserialize_clock, deserialize_unsigned_int, return, serialize_clock,
  serialize_unsigned_int,
}
use distributed_system.Bully.State.{Message, max_nodes}

unfoldable pub serialize_msg : Message → List ℕ
unfolding serialize_unsigned_int serialize_clock
serialize_msg m =
    serialize_unsigned_int m.msg_id
    ++ (serialize_unsigned_int m.election_id ++ serialize_clock m.vector_clock)

unfoldable pub deserialize_msg : Parser Message
unfolding deserialize_unsigned_int deserialize_clock
deserialize_msg = deserialize_unsigned_int >>= λ msg_id. deserialize_unsigned_int >>= λ election_id.
    deserialize_clock max_nodes >>= λ vector_clock.
    return (record { msg_id = msg_id; election_id = election_id; vector_clock = vector_clock })
