-- ===== src/Trace/Exact.antt =====
-- What writeVectorTime writes.
use distributed_system.Base.{
  ℕ, suc, ◌+◌, ◌*◌, ◌^◌, ◌≤◌, ◌<◌, ◌≡◌, refl, sym, ap, ◌∙◌, ◌≢◌, inl, inr, true, false, Option,
  none, some, List, [], ◌∷◌, ◌++◌, append_assoc, append-nil, arith, ltb, ◌==◌, Bool-cases, length,
  length-append, All,
}
use distributed_system.Clock.{Clock, max_nodes}
use distributed_system.Trace.Decimal.{length-decimal, decimal-three}
use distributed_system.Trace.Entries.{
  used, IsShort, commas, commas-separated, drop_last-append, length-node_time_text, separated,
}
use distributed_system.Trace.Write.{
  decimal, drop_last, node_time_text, append_time, append_times, put_text, node_id_text,
  node_vector_time, vector_time_size, write_vector_time,
}

pub put_text-fits : (size : ℕ) (text : List ℕ) → length text < size → put_text size text ≡ some text
unfolding put_text
put_text-fits size text h = let b : ltb (length text) size ≡ true = ground (arith, h) in rw b refl

append_time-unused :
    (c : Clock) (buf : List ℕ) → (c.time == 0) ≡ true → append_time c buf ≡ some buf
unfolding append_time
append_time-unused c buf e = rw (e, append_time) refl

append_time-used :
    (c : Clock) (buf : List ℕ)
    → (c.time == 0) ≡ false
    → IsShort c
    → length buf + 20 < 500
    → append_time c buf ≡ some (buf ++ node_time_text c)
unfolding append_time
append_time-used c buf e short room =
    let slot = length-node_time_text c short in
    rw (e, append_time)
      (ap
          (λ (o : Option (List ℕ)). elim o [
            | none ↦ none
            | some text ↦ put_text vector_time_size (buf ++ text)
          ])
          (put_text-fits 20 (node_time_text c) slot)
        ∙ put_text-fits 500 (buf ++ node_time_text c)
            (omega (arith, slot, room, length-append buf (node_time_text c))))

next_time : List Clock → Option (List ℕ) → Option (List ℕ)
next_time cs o = elim o [ none ↦ none | some buf ↦ append_times cs buf ]

-- The loop puts the entries of the slots with a time behind the text.
append_times-used :
    (vc : List Clock) (buf : List ℕ)
    → All IsShort vc
    → length buf + 20 * length vc < 500
    → append_times vc buf ≡ some (buf ++ commas (used vc))
unfolding append_times used commas next_time
append_times-used [] buf h room = ap some (sym (append-nil buf))
append_times-used (c ∷ cs) buf h room = elim (Bool-cases (c.time == 0)) [
  | inl e ↦
      ap (next_time cs) (append_time-unused c buf e)
      ∙ rw e (append_times-used cs buf h.1 (omega (arith, room)))
  | inr e ↦
      ap (next_time cs) (append_time-used c buf e h.0 (omega (arith, room)))
      ∙ rw e (
          append_times-used cs (buf ++ node_time_text c) h.1
            (omega (arith, room, length-node_time_text c h.0, length-append buf (node_time_text c)))
          ∙ ap some (append_assoc buf (node_time_text c) (commas (used cs))))
]

length-commas : (vc : List Clock) → All IsShort vc → length (commas (used vc)) ≤ 20 * length vc
unfolding commas used
length-commas [] h = omega arith
length-commas (c ∷ cs) h = elim (Bool-cases (c.time == 0)) [
  | inl e ↦ rw e (omega (arith, length-commas cs h.1))
  | inr e ↦ rw e (
      omega (
        arith,
        length-commas cs h.1,
        length-node_time_text c h.0,
        length-append (node_time_text c) (commas (used cs)),
      ))
]

-- Without the last comma, if some slot has a time.
drop_last-commas :
    (buf : List ℕ) (cs : List Clock) → cs ≢ [] → drop_last (buf ++ commas cs) ≡ buf ++ separated cs
drop_last-commas buf [] h = absurd (h refl)
drop_last-commas buf (c ∷ cs) h =
    ap drop_last (
      ap (λ t. buf ++ t) (commas-separated c cs)
      ∙ sym (append_assoc buf (separated (c ∷ cs)) (44 ∷ [])))
    ∙ drop_last-append (buf ++ separated (c ∷ cs)) 44

length-separated : (cs : List Clock) → length (separated cs) ≤ length (commas cs)
length-separated [] = unfold separated in omega arith
length-separated (c ∷ cs) =
    omega (arith, ap length (commas-separated c cs), length-append (separated (c ∷ cs)) (44 ∷ []))

length-node_id_text : (port j : ℕ) → port < 10 ^ suc j → length (node_id_text port) ≤ j + 4
unfolding node_id_text
length-node_id_text port j h =
    let ids = length-decimal port j h in
    omega (arith, ids, length-append (decimal port) (32 ∷ 123 ∷ []))

-- The text that is written.
unfoldable pub vector_text : ℕ → List Clock → List ℕ
unfolding node_id_text separated used
vector_text port vc = node_id_text port ++ separated (used vc) ++ 125 ∷ 10 ∷ []

pub length-vector_text :
    (port : ℕ) (vc : List Clock)
    → port < 10 ^ 6
    → All IsShort vc
    → length vc ≤ max_nodes
    → length (vector_text port vc) ≤ 211
unfolding vector_text
length-vector_text port vc small short slots = omega (
  arith,
  length-node_id_text port 5 small,
  length-commas vc short,
  slots,
  length-separated (used vc),
  length-append (node_id_text port ++ separated (used vc)) (125 ∷ 10 ∷ []),
  length-append (node_id_text port) (separated (used vc)),
)

-- writeVectorTime of helper.c writes the name of the node and, in braces, the entries of the slots
-- with a time, with commas between them, and overflows no buffer, if the port has at most six digits,
-- each node id at most five and each time at most seven, and some slot of at most ten has a time.
pub write_vector_time-separated :
    (port : ℕ) (vc : List Clock)
    → port < 10 ^ 6
    → All IsShort vc
    → length vc ≤ max_nodes
    → used vc ≢ []
    → write_vector_time 10 port vc
      ≡ some (node_id_text port ++ separated (used vc) ++ 125 ∷ 10 ∷ [])
unfolding write_vector_time vector_text
write_vector_time-separated port vc small short slots some_time =
    let start = length-node_id_text port 5 small in
    ap
      (λ (o : Option (List ℕ)). elim o [
        | none ↦ none
        | some start ↦ elim (append_times vc start) [
          | none ↦ none
          | some text ↦ put_text vector_time_size (drop_last text ++ 125 ∷ 10 ∷ [])
        ]
      ])
      (put_text-fits 10 (node_id_text port) (omega (arith, start)))
    ∙ ap
        (λ (o : Option (List ℕ)). elim o [
          | none ↦ none
          | some text ↦ put_text vector_time_size (drop_last text ++ 125 ∷ 10 ∷ [])
        ])
        (append_times-used vc (node_id_text port) short (omega (arith, start, slots)))
    ∙ ap (λ t. put_text vector_time_size (t ++ 125 ∷ 10 ∷ []))
        (drop_last-commas (node_id_text port) (used vc) some_time)
    ∙ put_text-fits 500 (vector_text port vc)
        (omega (arith, length-vector_text port vc small short slots))

put_text-over : (size : ℕ) (text : List ℕ) → size ≤ length text → put_text size text ≡ none
unfolding put_text
put_text-over size text h = let b : ltb (length text) size ≡ false = ground (arith, h) in rw b refl

length-long_port : (port : ℕ) → 100 ≤ port → 6 ≤ length (node_id_text port)
unfolding node_id_text
length-long_port port h =
    let at_least = decimal-three port h in
    omega (arith, at_least, length-append (decimal port) (32 ∷ 123 ∷ []))

-- writeVectorTime of node.c overflows its first buffer for every port with three digits or more.
pub node_vector_time-none :
    (port : ℕ) (vc : List Clock) → 100 ≤ port → node_vector_time port vc ≡ none
unfolding node_vector_time write_vector_time
node_vector_time-none port vc h =
    ap
      (λ (o : Option (List ℕ)). elim o [
        | none ↦ none
        | some start ↦ elim (append_times vc start) [
          | none ↦ none
          | some text ↦ put_text vector_time_size (drop_last text ++ 125 ∷ 10 ∷ [])
        ]
      ])
      (put_text-over 6 (node_id_text port) (length-long_port port h))
