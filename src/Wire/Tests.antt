-- ===== src/Wire/Tests.antt =====
-- Runs of the wire formats of helper.c, and instances of the theorems.
use distributed_system.Base.{◌≡◌, refl, some, [], ◌∷◌, ◌++◌, arith, replicate}
use distributed_system.Clock.{Clock}
use distributed_system.Msg.{CmdMessage, TxMessage, new_idstr}
use distributed_system.Wire.{
  deserialize_msg, deserialize_worker_msg, serialize_msg, serialize_unsigned_int,
  serialize_worker_msg,
}
use distributed_system.Wire.Roundtrip.{
  deserialize_msg-serialize_msg, deserialize_worker_msg-serialize_worker_msg,
}

abbrev a_clock : Clock
a_clock = record { node_id = 5000; time = 300 }

abbrev a_message : TxMessage
a_message = record {
  msg_id = 1012;
  tid = 7;
  node_id = 5000;
  is_crash = 0;
  vector_clock = replicate 10 a_clock;
}

abbrev a_command : CmdMessage
a_command = record {
  msg_id = new_idstr;
  tid = 0;
  port = 5000;
  new_value = 0;
  delay = 4294966296;
  str_data = replicate 64 65;
}

big_endian : serialize_unsigned_int 4294966296 ≡ 255 ∷ 255 ∷ 252 ∷ 24 ∷ []
unfolding serialize_unsigned_int
big_endian = refl

worker_roundtrip_example :
    deserialize_worker_msg (serialize_worker_msg a_message ++ 1 ∷ 2 ∷ [])
    ≡ some (a_message, 1 ∷ 2 ∷ [])
worker_roundtrip_example =
    deserialize_worker_msg-serialize_worker_msg a_message (1 ∷ 2 ∷ []) (omega arith)

cmd_roundtrip_example : deserialize_msg (serialize_msg a_command ++ []) ≡ some (a_command, [])
cmd_roundtrip_example = deserialize_msg-serialize_msg a_command [] (omega arith)
