-- ===== src/Clock/Tests.antt =====
-- Runs of the clock operations of helper.c, tworker.c and tmanager.c, and instances of the theorems.
use distributed_system.Base.{ℕ, max, ◌≡◌, refl, List, [], ◌∷◌, arith}
use distributed_system.Clock.{
  Clock, empty, merge_vector_clock, tick, time_of, update_my_vector_clock,
}
use distributed_system.Clock.Packed.{active, packed}
use distributed_system.Clock.Join.{latest, time_of-merge}

abbrev at : ℕ → ℕ → Clock
at id time = record { node_id = id; time = time }

-- A clock of two nodes with two slots left, and a message with a later time and a new node.
abbrev mine : List Clock
mine = at 5000 3 ∷ at 6000 5 ∷ empty ∷ empty ∷ []

abbrev theirs : List Clock
theirs = at 6000 7 ∷ at 7000 2 ∷ empty ∷ at 8000 9 ∷ []

merge_runs : merge_vector_clock theirs mine ≡ at 5000 3 ∷ at 6000 7 ∷ at 7000 2 ∷ empty ∷ []
unfolding merge_vector_clock
merge_runs = refl

update_wraps : update_my_vector_clock 5000 (at 5000 4294967295 ∷ []) ≡ at 5000 0 ∷ []
unfolding update_my_vector_clock tick
update_wraps = refl

time_of-merge_example :
    time_of 6000 (merge_vector_clock theirs mine) ≡ max (time_of 6000 mine) (latest 6000 theirs)
unfolding packed active
time_of-merge_example = time_of-merge 6000 theirs mine (omega arith) refl (omega arith)
