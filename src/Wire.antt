-- ===== src/Wire.antt =====
-- The wire formats of helper.c (and of node.c, which has the same bytes for ints and clocks). A
-- buffer is the list of its bytes. A serialize function returns the bytes that it writes, where the
-- code returns the advanced pointer; a deserialize function returns the value and the rest of the
-- buffer, or none if memcpy would read past the end.
pub mod Words
pub mod Roundtrip
pub mod Tests
use distributed_system.Base.{
  ℕ, zero, suc, ◌+◌, ◌*◌, ◌/◌, ◌%◌, Option, none, some, List, [], ◌∷◌, ◌++◌, ◌==◌, if◌then◌else◌,
}
use distributed_system.Clock.{Clock, max_nodes}
use distributed_system.Msg.{TxMessage, CmdMessage, new_idstr}

abbrev pub id_len : ℕ
id_len = 64

-- htonl followed by memcpy: the four bytes, the highest first, on any host.
unfoldable pub serialize_unsigned_int : ℕ → List ℕ
serialize_unsigned_int v =
    (v / 16777216 % 256) ∷ (v / 65536 % 256) ∷ (v / 256 % 256) ∷ (v % 256) ∷ []

-- An int32_t is converted to uint32_t first: the same bit pattern.
unfoldable pub serialize_int : ℕ → List ℕ
unfolding serialize_unsigned_int
serialize_int v = serialize_unsigned_int v

unfoldable pub serialize_clock : List Clock → List ℕ
unfolding serialize_int
serialize_clock [] = []
serialize_clock (c ∷ vc) = serialize_int c.node_id ++ serialize_int c.time ++ serialize_clock vc

unfoldable pub serialize_worker_msg : TxMessage → List ℕ
unfolding serialize_unsigned_int
serialize_worker_msg m =
    serialize_unsigned_int m.msg_id
    ++ (serialize_unsigned_int m.tid
        ++ (serialize_unsigned_int m.node_id
            ++ (serialize_unsigned_int m.is_crash ++ serialize_clock m.vector_clock)))

-- Both members of the union are 64 bytes at the same place, so both branches copy the same bytes.
unfoldable pub serialize_msg : CmdMessage → List ℕ
unfolding serialize_unsigned_int serialize_int
serialize_msg m =
    serialize_unsigned_int m.msg_id
    ++ (serialize_unsigned_int m.tid
        ++ (serialize_unsigned_int m.port
            ++ (serialize_int m.new_value
                ++ (serialize_int m.delay
                    ++ (if m.msg_id == new_idstr then m.str_data else m.str_data)))))

abbrev pub Parser : Type 0 → Type 0
Parser A = List ℕ → Option (A × List ℕ)

infixl 5 ◌>>=◌
abbrev pub ◌>>=◌ : {A B : Type 0} → Parser A → (A → Parser B) → Parser B
◌>>=◌ p f buffer = elim (p buffer) [ none ↦ none | some (a, rest) ↦ f a rest ]

abbrev pub return : {A : Type 0} → A → Parser A
return a buffer = some (a, buffer)

-- memcpy followed by ntohl.
unfoldable pub deserialize_unsigned_int : Parser ℕ
deserialize_unsigned_int [] = none
deserialize_unsigned_int (a ∷ []) = none
deserialize_unsigned_int (a ∷ b ∷ []) = none
deserialize_unsigned_int (a ∷ b ∷ c ∷ []) = none
deserialize_unsigned_int (a ∷ b ∷ c ∷ d ∷ rest) =
    some (a * 16777216 + b * 65536 + c * 256 + d, rest)

unfoldable pub deserialize_int : Parser ℕ
unfolding deserialize_unsigned_int
deserialize_int = deserialize_unsigned_int

-- The loop over the slots that are left.
unfoldable pub deserialize_clock : ℕ → Parser (List Clock)
unfolding deserialize_unsigned_int
deserialize_clock zero = return []
deserialize_clock (suc n) = do
  node_id ← deserialize_unsigned_int
  time ← deserialize_unsigned_int
  vc ← deserialize_clock n
  return (record { node_id = node_id; time = time } ∷ vc)

unfoldable pub deserialize_worker_msg : Parser TxMessage
unfolding deserialize_unsigned_int
deserialize_worker_msg = do
  msg_id ← deserialize_unsigned_int
  tid ← deserialize_unsigned_int
  node_id ← deserialize_unsigned_int
  is_crash ← deserialize_unsigned_int
  vc ← deserialize_clock max_nodes
  return (record {
    msg_id = msg_id;
    tid = tid;
    node_id = node_id;
    is_crash = is_crash;
    vector_clock = vc;
  })

-- memcpy of n bytes.
unfoldable pub copy_bytes : ℕ → Parser (List ℕ)
copy_bytes zero buffer = return [] buffer
copy_bytes (suc n) [] = none
copy_bytes (suc n) (b ∷ rest) = elim (copy_bytes n rest) [
  | none ↦ none
  | some (bs, tail) ↦ some (b ∷ bs, tail)
]

unfoldable pub deserialize_msg : Parser CmdMessage
unfolding deserialize_unsigned_int deserialize_int
deserialize_msg = do
  msg_id ← deserialize_unsigned_int
  tid ← deserialize_unsigned_int
  port ← deserialize_unsigned_int
  new_value ← deserialize_int
  delay ← deserialize_int
  str_data ← if msg_id == new_idstr then copy_bytes id_len else copy_bytes id_len
  return (record {
    msg_id = msg_id;
    tid = tid;
    port = port;
    new_value = new_value;
    delay = delay;
    str_data = str_data;
  })
