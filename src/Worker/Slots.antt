-- ===== src/Worker/Slots.antt =====
-- The slots of the own node in the clocks of a worker (tworker.c), which an update of its object
-- needs.
use distributed_system.Base.{
  ℕ, zero, suc, ◌<◌, ◌≡◌, refl, inl, inr, some, List, [], ◌∷◌, arith, Bool-cases, length,
}
use distributed_system.Clock.{Clock, my_index}
use distributed_system.Worker.State.{Worker, write_record_to_log}
use distributed_system.Worker.Command.{copy_time, log_old_value}

-- The own node has a slot in the clock, and the object's clock reaches as far.
abbrev pub HasSlot : Worker → Type 0
HasSlot s =
    (my_index s.node_id s.my_vector_clock < length s.my_vector_clock)
    × (my_index s.node_id s.my_vector_clock < length s.obj.vector_clock)

pub copy_time-is_some :
    (i : ℕ) (vc from : List Clock)
    → i < length vc
    → i < length from
    → (vc' : List Clock) × (copy_time i vc from ≡ some vc')
unfolding copy_time
copy_time-is_some i [] from h k = absurd (omega (arith, h))
copy_time-is_some i (c ∷ vc) [] h k = absurd (omega (arith, k))
copy_time-is_some zero (c ∷ vc) (d ∷ from) h k = (_, refl)
copy_time-is_some (suc i) (c ∷ vc) (d ∷ from) h k =
    let (vc', e) = copy_time-is_some i vc from (omega (arith, h)) (omega (arith, k)) in
    (c ∷ vc', rw e refl)

pub log_old_value-HasSlot :
    (kind value : ℕ) (s : Worker) → HasSlot s → HasSlot (log_old_value kind value s)
unfolding log_old_value write_record_to_log
log_old_value-HasSlot kind value s h = elim (Bool-cases s.is_tx_run) [
  | inl e ↦ rw e h
  | inr e ↦ rw e h
]
