-- ===== src/Wire/Roundtrip.antt =====
-- Whole messages: serializeWorkerMsg, deserializeWorkerMsg, serializeMsg, deserializeMsg.
use distributed_system.Wire.{
  ◌>>=◌, deserialize_worker_msg, id_len, serialize_worker_msg, copy_bytes, deserialize_msg,
  serialize_msg, return,
}
use distributed_system.Base.{
  ℕ, zero, suc, ◌^◌, ◌≤◌, ◌<◌, ◌≡◌, refl, Bool, true, false, some, List, [], ◌∷◌, ◌++◌, arith, ◌==◌,
  if◌then◌else◌, length, All,
}
use distributed_system.Wire.Words.{
  ClockFits, four_bytes, length-serialize_clock, deserialize-serialize_clock_slots,
  deserialize_clock_total, deserialize_unsigned_int_total,
}
use distributed_system.Msg.{CmdMessage, TxMessage, new_idstr}
use distributed_system.Clock.{max_nodes}

-- Every field of the message fits the 32-bit variable that holds it, and the clock has its slots.
abbrev pub TxFits : TxMessage → Type 0
TxFits m =
    (m.msg_id < 2 ^ 32)
    × (m.tid < 2 ^ 32)
    × (m.node_id < 2 ^ 32)
    × (m.is_crash < 2 ^ 32)
    × (length m.vector_clock ≡ max_nodes)
    × All ClockFits m.vector_clock

abbrev pub CmdFits : CmdMessage → Type 0
CmdFits m =
    (m.msg_id < 2 ^ 32)
    × (m.tid < 2 ^ 32)
    × (m.port < 2 ^ 32)
    × (m.new_value < 2 ^ 32)
    × (m.delay < 2 ^ 32)
    × (length m.str_data ≡ id_len)

-- A worker message whose fields fit is read back as it was sent, whatever follows it in the buffer.
pub deserialize_worker_msg-serialize_worker_msg :
    (m : TxMessage) (rest : List ℕ)
    → TxFits m
    → deserialize_worker_msg (serialize_worker_msg m ++ rest) ≡ some (m, rest)
unfolding deserialize_worker_msg serialize_worker_msg
deserialize_worker_msg-serialize_worker_msg m rest (h1, h2, h3, h4, slots, fits) =
    rw
      (
        four_bytes m.msg_id h1,
        four_bytes m.tid h2,
        four_bytes m.node_id h3,
        four_bytes m.is_crash h4,
      )
      (rw (deserialize-serialize_clock_slots max_nodes m.vector_clock rest slots fits, ◌>>=◌))

copy_bytes-append :
    (n : ℕ) (bs rest : List ℕ) → length bs ≡ n → copy_bytes n (bs ++ rest) ≡ some (bs, rest)
unfolding copy_bytes
copy_bytes-append zero [] rest h = refl
copy_bytes-append zero (b ∷ bs) rest h = absurd (omega arith)
copy_bytes-append (suc n) [] rest h = absurd (omega arith)
copy_bytes-append (suc n) (b ∷ bs) rest h =
    rw (copy_bytes-append n bs rest (omega arith), copy_bytes)

-- A command whose fields fit is read back as it was sent.
pub deserialize_msg-serialize_msg :
    (m : CmdMessage) (rest : List ℕ)
    → CmdFits m
    → deserialize_msg (serialize_msg m ++ rest) ≡ some (m, rest)
unfolding deserialize_msg serialize_msg
deserialize_msg-serialize_msg m rest (h1, h2, h3, h4, h5, size) =
    rw
      (
        four_bytes m.msg_id h1,
        four_bytes m.tid h2,
        four_bytes m.port h3,
        four_bytes m.new_value h4,
        four_bytes m.delay h5,
      )
      (union_read (m.msg_id == new_idstr))
  where
    union_read :
        (b : Bool)
        → ((if b then copy_bytes id_len else copy_bytes id_len) >>= λ str_data.
              return (record m { str_data = str_data }))
            ((if b then m.str_data else m.str_data) ++ rest)
          ≡ some (m, rest)
    union_read true = rw (copy_bytes-append id_len m.str_data rest size, ◌>>=◌)
    union_read false = rw (copy_bytes-append id_len m.str_data rest size, ◌>>=◌)

-- A buffer of at least 96 bytes is never read past its end, and the message has its ten clocks.
pub deserialize_worker_msg_total :
    (buffer : List ℕ)
    → 96 ≤ length buffer
    → (m : TxMessage) × (rest : List ℕ) × (deserialize_worker_msg buffer ≡ some (m, rest))
      × (length m.vector_clock ≡ max_nodes)
unfolding deserialize_worker_msg
deserialize_worker_msg_total buffer h =
    let (v1, r1, e1, l1) = deserialize_unsigned_int_total buffer (omega arith) in
    let (v2, r2, e2, l2) = deserialize_unsigned_int_total r1 (omega arith) in
    let (v3, r3, e3, l3) = deserialize_unsigned_int_total r2 (omega arith) in
    let (v4, r4, e4, l4) = deserialize_unsigned_int_total r3 (omega arith) in
    let (vc, r5, e5, slots, l5) = deserialize_clock_total max_nodes r4 (omega arith) in
    (
      record { msg_id = v1; tid = v2; node_id = v3; is_crash = v4; vector_clock = vc },
      r5,
      rw (e1, ◌>>=◌) (rw (e2, ◌>>=◌) (rw (e3, ◌>>=◌) (rw (e4, ◌>>=◌) (rw (e5, ◌>>=◌) refl)))),
      slots,
    )

-- A worker message with a full clock array takes 96 bytes: four ints and ten clocks.
pub length-serialize_worker_msg :
    (m : TxMessage) → length m.vector_clock ≡ max_nodes → length (serialize_worker_msg m) ≡ 96
unfolding serialize_worker_msg
length-serialize_worker_msg m slots = omega (arith, length-serialize_clock m.vector_clock)
