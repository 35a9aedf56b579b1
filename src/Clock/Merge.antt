-- ===== src/Clock/Merge.antt =====
-- mergeVectorClock of tworker.c and tmanager.c, one entry and one whole message at a time.
use distributed_system.Base.{
  ℕ, ◌+◌, ◌%◌, ◌^◌, ◌≤◌, ◌≡◌, refl, ◌≢◌, true, List, [], ◌∷◌, arith, length,
}
use distributed_system.Clock.{
  Clock, tick, update_my_vector_clock, merge_entry, merge_vector_clock, time_of, knows,
}

pub merge_entry-time_of-le :
    (id : ℕ) (e : Clock) (vc : List Clock) → id ≢ 0 → time_of id vc ≤ time_of id (merge_entry e vc)
unfolding time_of merge_entry
merge_entry-time_of-le id e [] h = omega arith
merge_entry-time_of-le id e (c ∷ vc) h = ground (arith, merge_entry-time_of-le id e vc h)

-- The time of a node with an id other than 0 is never lowered by a merge, whatever the clocks hold.
pub merge-time_of-le :
    (id : ℕ) (m vc : List Clock) → id ≢ 0 → time_of id vc ≤ time_of id (merge_vector_clock m vc)
unfolding merge_vector_clock
merge-time_of-le id [] vc h = omega arith
merge-time_of-le id (e ∷ m) vc h =
    ground (arith, merge_entry-time_of-le id e vc h, merge-time_of-le id m (merge_entry e vc) h)

pub length-merge_entry : (e : Clock) (vc : List Clock) → length (merge_entry e vc) ≡ length vc
unfolding merge_entry
length-merge_entry e [] = refl
length-merge_entry e (c ∷ vc) = ground (arith, length-merge_entry e vc)

pub length-merge : (m vc : List Clock) → length (merge_vector_clock m vc) ≡ length vc
unfolding merge_vector_clock
length-merge [] vc = refl
length-merge (e ∷ m) vc = ground (arith, length-merge m (merge_entry e vc), length-merge_entry e vc)

pub length-update :
    (port : ℕ) (vc : List Clock) → length (update_my_vector_clock port vc) ≡ length vc
unfolding update_my_vector_clock
length-update port [] = refl
length-update port (c ∷ vc) = ground (arith, length-update port vc)

-- Incrementing the own clock adds one to the own time, modulo 2 ^ 32.
pub update-time_of_self :
    (port : ℕ) (vc : List Clock)
    → knows port vc ≡ true
    → time_of port (update_my_vector_clock port vc) ≡ (time_of port vc + 1) % 2 ^ 32
unfolding knows time_of update_my_vector_clock tick
update-time_of_self port [] h = absurd (ground arith)
update-time_of_self port (c ∷ vc) h = ground (arith, update-time_of_self port vc)

pub update-time_of_ne :
    (port id : ℕ) (vc : List Clock)
    → port ≢ id
    → time_of id (update_my_vector_clock port vc) ≡ time_of id vc
unfolding time_of update_my_vector_clock tick
update-time_of_ne port id [] h = refl
update-time_of_ne port id (c ∷ vc) h = ground (arith, update-time_of_ne port id vc h)

-- A node that is known stays known.
pub knows-update :
    (port id : ℕ) (vc : List Clock) → knows id (update_my_vector_clock port vc) ≡ knows id vc
unfolding knows update_my_vector_clock tick
knows-update port id [] = refl
knows-update port id (c ∷ vc) = ground (arith, knows-update port id vc)

pub knows-merge_entry :
    (id : ℕ) (e : Clock) (vc : List Clock)
    → id ≢ 0
    → knows id vc ≡ true
    → knows id (merge_entry e vc) ≡ true
unfolding knows merge_entry
knows-merge_entry id e [] nz h = h
knows-merge_entry id e (c ∷ vc) nz h = ground (arith, knows-merge_entry id e vc nz)

pub knows-merge :
    (id : ℕ) (m vc : List Clock)
    → id ≢ 0
    → knows id vc ≡ true
    → knows id (merge_vector_clock m vc) ≡ true
unfolding merge_vector_clock
knows-merge id [] vc nz h = h
knows-merge id (e ∷ m) vc nz h =
    ground (arith, knows-merge id m (merge_entry e vc) nz, knows-merge_entry id e vc nz)
