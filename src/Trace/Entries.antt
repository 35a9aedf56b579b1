-- ===== src/Trace/Entries.antt =====
-- The entries of a vector time, and their commas.
use distributed_system.Base.{
  ℕ, ◌+◌, ◌^◌, ◌<◌, ◌≡◌, refl, sym, ap, ap₂, ◌∙◌, List, [], ◌∷◌, ◌++◌, append_assoc, append-nil,
  arith, ◌==◌, if◌then◌else◌, length, length-append,
}
use distributed_system.Clock.{Clock}
use distributed_system.Trace.Decimal.{length-decimal}
use distributed_system.Trace.Write.{decimal, node_time_text, drop_last}

-- The entry of a slot, without the comma.
unfoldable pub entry : Clock → List ℕ
unfolding decimal
entry c = 34 ∷ 78 ∷ (decimal c.node_id ++ (34 ∷ 32 ∷ 58 ∷ 32 ∷ decimal c.time))

unfoldable pub used : List Clock → List Clock
used [] = []
used (c ∷ cs) = if c.time == 0 then used cs else c ∷ used cs

-- Entries with commas between them.
unfoldable pub separated : List Clock → List ℕ
unfolding entry
separated [] = []
separated (c ∷ []) = entry c
separated (c ∷ d ∷ cs) = entry c ++ 44 ∷ separated (d ∷ cs)

-- Entries with a comma behind each.
unfoldable pub commas : List Clock → List ℕ
unfolding node_time_text
commas [] = []
commas (c ∷ cs) = node_time_text c ++ commas cs

-- Its node id has at most five digits and its time at most seven.
abbrev pub IsShort : Clock → Type 0
IsShort c = (c.node_id < 10 ^ 5) × (c.time < 10 ^ 7)

length-around :
    (xs ys : List ℕ)
    → length (34 ∷ 78 ∷ (xs ++ (34 ∷ 32 ∷ 58 ∷ 32 ∷ (ys ++ 44 ∷ [])))) ≡ 7 + (length xs + length ys)
length-around xs ys =
    omega
      (arith, length-append xs (34 ∷ 32 ∷ 58 ∷ 32 ∷ (ys ++ 44 ∷ [])), length-append ys (44 ∷ []))

pub length-node_time_text : (c : Clock) → IsShort c → length (node_time_text c) < 20
unfolding node_time_text
length-node_time_text c (i, t) =
    let about = length-around (decimal c.node_id) (decimal c.time) in
    let ids = length-decimal c.node_id 4 i in
    let times = length-decimal c.time 6 t in omega (arith, about, ids, times)

node_time_text-entry : (c : Clock) → node_time_text c ≡ entry c ++ 44 ∷ []
unfolding node_time_text entry
node_time_text-entry c =
    ap (λ t. 34 ∷ 78 ∷ t)
      (sym (append_assoc (decimal c.node_id) (34 ∷ 32 ∷ 58 ∷ 32 ∷ decimal c.time) (44 ∷ [])))

pub commas-separated :
    (c : Clock) (cs : List Clock) → commas (c ∷ cs) ≡ separated (c ∷ cs) ++ 44 ∷ []
unfolding commas separated
commas-separated c [] = append-nil (node_time_text c) ∙ node_time_text-entry c
commas-separated c (d ∷ cs) =
    ap₂ ◌++◌ (node_time_text-entry c) (commas-separated d cs)
    ∙ append_assoc (entry c) (44 ∷ []) (separated (d ∷ cs) ++ 44 ∷ [])
    ∙ sym (append_assoc (entry c) (44 ∷ separated (d ∷ cs)) (44 ∷ []))

pub drop_last-append : (xs : List ℕ) (z : ℕ) → drop_last (xs ++ z ∷ []) ≡ xs
unfolding drop_last
drop_last-append [] z = refl
drop_last-append (x ∷ []) z = refl
drop_last-append (x ∷ y ∷ xs) z = ap (λ t. x ∷ t) (drop_last-append (y ∷ xs) z)
