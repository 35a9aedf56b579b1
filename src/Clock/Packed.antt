-- ===== src/Clock/Packed.antt =====
-- The shape that both programs keep their clocks in: distinct nodes first, then unused slots.
use distributed_system.Base.{
  ℕ, suc, ◌+◌, ◌≤◌, ◌≡◌, refl, ◌≢◌, Bool, true, not, ◌&&◌, List, [], ◌∷◌, arith, ◌==◌,
  if◌then◌else◌,
}
use distributed_system.Clock.{
  Clock, tick, update_my_vector_clock, merge_entry, merge_vector_clock, time_of,
}

unfoldable pub unused : List Clock → Bool
unused [] = true
unused (c ∷ vc) = (c.node_id == 0) && unused vc

unfoldable pub absent : ℕ → List Clock → Bool
absent id [] = true
absent id (c ∷ vc) = not (c.node_id == id) && absent id vc

unfoldable pub packed : List Clock → Bool
unfolding unused absent
packed [] = true
packed (c ∷ vc) = if c.node_id == 0 then unused vc else (absent c.node_id vc && packed vc)

-- The slots in front of the first unused one.
unfoldable pub active : List Clock → ℕ
active [] = 0
active (e ∷ m) = if e.node_id == 0 then 0 else suc (active m)

pub time_of-unused : (id : ℕ) (vc : List Clock) → id ≢ 0 → unused vc ≡ true → time_of id vc ≡ 0
unfolding time_of unused
time_of-unused id [] h u = refl
time_of-unused id (c ∷ vc) h u = ground arith

active-unused : (vc : List Clock) → unused vc ≡ true → active vc ≡ 0
unfolding active unused
active-unused [] u = refl
active-unused (c ∷ vc) u = ground arith

packed-unused : (vc : List Clock) → unused vc ≡ true → packed vc ≡ true
unfolding packed
packed-unused [] u = refl
packed-unused (c ∷ vc) u = ground arith

absent-unused : (id : ℕ) (vc : List Clock) → id ≢ 0 → unused vc ≡ true → absent id vc ≡ true
unfolding absent unused
absent-unused id [] h u = refl
absent-unused id (c ∷ vc) h u = ground (arith, absent-unused id vc h)

absent-merge_entry :
    (id : ℕ) (e : Clock) (vc : List Clock)
    → id ≢ e.node_id
    → absent id vc ≡ true
    → absent id (merge_entry e vc) ≡ true
unfolding absent merge_entry
absent-merge_entry id e [] h a = refl
absent-merge_entry id e (c ∷ vc) h a = ground (arith, absent-merge_entry id e vc h)

pub packed-merge_entry :
    (e : Clock) (vc : List Clock)
    → e.node_id ≢ 0
    → packed vc ≡ true
    → packed (merge_entry e vc) ≡ true
unfolding packed merge_entry
packed-merge_entry e [] h p = refl
packed-merge_entry e (c ∷ vc) h p = ground (
  arith,
  packed-merge_entry e vc h,
  absent-merge_entry c.node_id e vc,
  absent-unused e.node_id vc h,
  packed-unused vc,
)

absent-update :
    (port id : ℕ) (vc : List Clock) → absent id (update_my_vector_clock port vc) ≡ absent id vc
unfolding absent update_my_vector_clock tick
absent-update port id [] = refl
absent-update port id (c ∷ vc) = ground (arith, absent-update port id vc)

unused-update : (port : ℕ) (vc : List Clock) → unused (update_my_vector_clock port vc) ≡ unused vc
unfolding unused update_my_vector_clock tick
unused-update port [] = refl
unused-update port (c ∷ vc) = ground (arith, unused-update port vc)

-- Incrementing the own clock keeps the shape.
pub packed-update :
    (port : ℕ) (vc : List Clock) → packed (update_my_vector_clock port vc) ≡ packed vc
unfolding packed update_my_vector_clock tick
packed-update port [] = refl
packed-update port (c ∷ vc) =
    ground (arith, packed-update port vc, absent-update port c.node_id vc, unused-update port vc)

-- If the own clock is distinct nodes followed by unused slots, it is so after the merge of any
-- message, whatever its entries are.
pub packed-merge : (m vc : List Clock) → packed vc ≡ true → packed (merge_vector_clock m vc) ≡ true
unfolding merge_vector_clock
packed-merge [] vc p = p
packed-merge (e ∷ m) vc p =
    ground (arith, packed-merge_entry e vc, packed-merge m (merge_entry e vc))

pub active-merge_entry :
    (e : Clock) (vc : List Clock) → packed vc ≡ true → active (merge_entry e vc) ≤ active vc + 1
unfolding active merge_entry packed
active-merge_entry e [] p = omega arith
active-merge_entry e (c ∷ vc) p = ground (arith, active-merge_entry e vc, active-unused vc)
