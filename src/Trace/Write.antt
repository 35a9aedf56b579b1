-- ===== src/Trace/Write.antt =====
-- The text of a vector time in the ShiViz logs: writeVectorTime of transaction_management/helper.c and
-- of bully_algorithm/node.c, which differ in the size of nodeIdBuf. A string is its bytes in front of
-- the null byte; none is a write past the end of a buffer.
use distributed_system.Base.{
  ℕ, zero, suc, ◌+◌, ◌/◌, ◌%◌, true, false, Option, none, some, List, [], ◌∷◌, ◌++◌, ltb, ◌==◌,
  if◌then◌else◌, length,
}
use distributed_system.Clock.{Clock}

-- The decimal digits of a number, at most as many as the first argument says.
unfoldable pub digits : ℕ → ℕ → List ℕ
digits zero n = []
digits (suc k) n =
    let rest = digits k (n / 10) in if ltb n 10 then (48 + n) ∷ [] else rest ++ (48 + n % 10) ∷ []

-- `%lu` and `%u`: 2^64 has 20 digits.
unfoldable pub decimal : ℕ → List ℕ
unfolding digits
decimal n = digits 20 n

-- A text and its null byte, put into a buffer of that size.
unfoldable pub put_text : ℕ → List ℕ → Option (List ℕ)
put_text size text = if ltb (length text) size then some text else none

-- "N%lu {"
unfoldable pub node_id_text : ℕ → List ℕ
unfolding decimal
node_id_text port = 78 ∷ (decimal port ++ 32 ∷ 123 ∷ [])

-- "\"N%u\" : %u,"
unfoldable pub node_time_text : Clock → List ℕ
unfolding decimal
node_time_text c =
    34 ∷ 78 ∷ (decimal c.node_id ++ (34 ∷ 32 ∷ 58 ∷ 32 ∷ (decimal c.time ++ 44 ∷ [])))

abbrev pub node_time_size : ℕ
node_time_size = 20

abbrev pub vector_time_size : ℕ
vector_time_size = 500

-- The body of the loop: the entry of one slot, if its time is known.
unfoldable pub append_time : Clock → List ℕ → Option (List ℕ)
unfolding put_text node_time_text
append_time c buf = elim (c.time == 0) [
  | true ↦ some buf
  | false ↦ elim (put_text node_time_size (node_time_text c)) [
    | none ↦ none
    | some text ↦ put_text vector_time_size (buf ++ text)
  ]
]

unfoldable pub append_times : List Clock → List ℕ → Option (List ℕ)
unfolding append_time
append_times [] buf = some buf
append_times (c ∷ cs) buf = elim (append_time c buf) [
  | none ↦ none
  | some buf' ↦ append_times cs buf'
]

-- `vectorTimeBuf[strlen(vectorTimeBuf) - 1] = '\0'`
unfoldable pub drop_last : List ℕ → List ℕ
drop_last [] = []
drop_last (c ∷ []) = []
drop_last (c ∷ d ∷ cs) = c ∷ drop_last (d ∷ cs)

unfoldable pub write_vector_time : ℕ → ℕ → List Clock → Option (List ℕ)
unfolding put_text node_id_text append_times drop_last
write_vector_time node_id_size port vc = elim (put_text node_id_size (node_id_text port)) [
  | none ↦ none
  | some start ↦ elim (append_times vc start) [
    | none ↦ none
    | some text ↦ put_text vector_time_size (drop_last text ++ 125 ∷ 10 ∷ [])
  ]
]

-- writeVectorTime of node.c, whose nodeIdBuf has 6 bytes.
unfoldable pub node_vector_time : ℕ → List Clock → Option (List ℕ)
unfolding write_vector_time
node_vector_time port vc = write_vector_time 6 port vc
