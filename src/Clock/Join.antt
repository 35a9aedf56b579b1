-- ===== src/Clock/Join.antt =====
-- The merge is the least upper bound of the two clocks while there are slots for the new nodes.
use distributed_system.Base.{
  ℕ, ◌+◌, ◌≤◌, ◌<◌, max, ◌≡◌, refl, subst, ◌≢◌, inl, inr, true, List, [], ◌∷◌, arith, ◌==◌,
  if◌then◌else◌, ==_iff, Bool-cases, length,
}
use distributed_system.Clock.{Clock, merge_entry, merge_vector_clock, time_of}
use distributed_system.Clock.Merge.{length-merge_entry}
use distributed_system.Clock.Packed.{
  packed, active, absent, time_of-unused, packed-merge_entry, active-merge_entry,
}

-- What a message says of a node: the greatest time in the entries that the merge reads.
unfoldable pub latest : ℕ → List Clock → ℕ
latest id [] = 0
latest id (e ∷ m) =
    if e.node_id == 0 then 0 else max (if e.node_id == id then e.time else 0) (latest id m)

time_of-absent : (id : ℕ) (vc : List Clock) → absent id vc ≡ true → time_of id vc ≡ 0
unfolding time_of absent
time_of-absent id [] a = refl
time_of-absent id (c ∷ vc) a = ground (arith, time_of-absent id vc)

-- Among distinct nodes the greatest time is the only one.
pub latest-packed :
    (id : ℕ) (m : List Clock) → id ≢ 0 → packed m ≡ true → latest id m ≡ time_of id m
unfolding latest time_of packed
latest-packed id [] h p = refl
latest-packed id (e ∷ m) h p = ground (arith, latest-packed id m h, time_of-absent id m)

time_of-merge_entry_self :
    (e : Clock) (vc : List Clock)
    → e.node_id ≢ 0
    → active vc < length vc
    → time_of e.node_id (merge_entry e vc) ≡ max (time_of e.node_id vc) e.time
unfolding time_of merge_entry active
time_of-merge_entry_self e [] h room = absurd (omega arith)
time_of-merge_entry_self e (c ∷ vc) h room = ground (arith, time_of-merge_entry_self e vc h)

time_of-merge_entry_ne :
    (id : ℕ) (e : Clock) (vc : List Clock)
    → packed vc ≡ true
    → id ≢ 0
    → e.node_id ≢ id
    → time_of id (merge_entry e vc) ≡ time_of id vc
unfolding time_of merge_entry packed
time_of-merge_entry_ne id e [] p h k = refl
time_of-merge_entry_ne id e (c ∷ vc) p h k =
    ground (arith, time_of-unused id vc h, time_of-merge_entry_ne id e vc)

time_of-merge_entry :
    (id : ℕ) (e : Clock) (vc : List Clock)
    → packed vc ≡ true
    → id ≢ 0
    → e.node_id ≢ 0
    → active vc < length vc
    → time_of id (merge_entry e vc) ≡ max (time_of id vc) (if e.node_id == id then e.time else 0)
time_of-merge_entry id e vc p h nz room = elim (Bool-cases (e.node_id == id)) [
  | inl same ↦
      let eq : e.node_id ≡ id = (==_iff _ _).0 same in
      rw same (
        subst (λ k. time_of k (merge_entry e vc) ≡ max (time_of k vc) e.time) eq
          (time_of-merge_entry_self e vc nz room))
  | inr other ↦ rw other (omega (arith, time_of-merge_entry_ne id e vc p h (ground arith)))
]

-- For a node id other than 0, a clock of distinct nodes followed by unused slots, and a message
-- with no more entries than there are unused slots, the time after the merge is the greater of the
-- own one and the greatest in the message.
pub time_of-merge :
    (id : ℕ) (m vc : List Clock)
    → id ≢ 0
    → packed vc ≡ true
    → active m + active vc ≤ length vc
    → time_of id (merge_vector_clock m vc) ≡ max (time_of id vc) (latest id m)
unfolding merge_vector_clock active latest
time_of-merge id [] vc h p room = omega arith
time_of-merge id (e ∷ m) vc h p room = ground (
  arith,
  time_of-merge id m (merge_entry e vc) h,
  time_of-merge_entry id e vc p h,
  packed-merge_entry e vc,
  active-merge_entry e vc p,
  length-merge_entry e vc,
)
