-- ===== src/Bully/Merge.antt =====
-- The merge of clocks in bully_algorithm/node.c, slot by slot.
use distributed_system.Base.{ℕ, zero, suc, ◌≤◌, max, ◌≡◌, refl, ap, List, [], ◌∷◌, arith, length}
use distributed_system.Clock.{Clock}
use distributed_system.Bully.State.{merge_slots}

-- The time in a slot, 0 past the end.
unfoldable pub time_at : ℕ → List Clock → ℕ
time_at i [] = 0
time_at zero (c ∷ vc) = c.time
time_at (suc i) (c ∷ vc) = time_at i vc

-- After the merge of a message with no more slots than the own clock, the time in each slot is the
-- greater of the two.
pub time_at-merge_slots :
    (i : ℕ) (m vc : List Clock)
    → length m ≤ length vc
    → time_at i (merge_slots m vc) ≡ max (time_at i vc) (time_at i m)
unfolding time_at merge_slots
time_at-merge_slots i [] vc h = omega arith
time_at-merge_slots i (e ∷ m) [] h = absurd (omega (arith, h))
time_at-merge_slots zero (e ∷ m) (c ∷ vc) h = ground arith
time_at-merge_slots (suc i) (e ∷ m) (c ∷ vc) h = time_at-merge_slots i m vc (omega (arith, h))

pub length-merge_slots : (m vc : List Clock) → length (merge_slots m vc) ≡ length vc
unfolding merge_slots
length-merge_slots [] vc = refl
length-merge_slots (e ∷ m) [] = refl
length-merge_slots (e ∷ m) (c ∷ vc) = ap suc (length-merge_slots m vc)

-- The times after the merge of two messages, each with no more slots than the own clock, do not
-- depend on which of them came first.
pub merge_slots_comm :
    (i : ℕ) (m n vc : List Clock)
    → length m ≤ length vc
    → length n ≤ length vc
    → time_at i (merge_slots m (merge_slots n vc)) ≡ time_at i (merge_slots n (merge_slots m vc))
merge_slots_comm i m n vc h k = omega (
  arith,
  h,
  k,
  time_at-merge_slots i m (merge_slots n vc),
  time_at-merge_slots i n (merge_slots m vc),
  time_at-merge_slots i m vc h,
  time_at-merge_slots i n vc k,
  length-merge_slots m vc,
  length-merge_slots n vc,
)
