-- ===== src/FgMpi/Highest.antt =====
-- The node of the highest rank in bully_algorithm_fg_mpi/bully.c, while it hears nothing but the
-- clock.
use distributed_system.Base.{
  ℕ, zero, suc, ◌+◌, ◌-◌, ◌^◌, ◌<◌, ◌≡◌, refl, ap, ◌∙◌, inl, inr, arith, ◌==◌, Bool-cases,
  replicate,
}
use distributed_system.Outcome.{◌>>=◌, running}
use distributed_system.FgMpi.Silence.{
  IsLonely, check_timeout-at, check_timeout-before, later, round-clock_tick,
}
use distributed_system.FgMpi.State.{Node}
use distributed_system.FgMpi.Start.{clock_tick}
use distributed_system.FgMpi.Send.{for_above, for_ranks, resend_election}
use distributed_system.FgMpi.Liveness.{on_silence-step, on_timeout-silent}
use distributed_system.FgMpi.Handle.{on_timeout, round, run}

-- It has sent and received nothing since it started or came back to life.
record IsIdle (s : Node) : Type 0 where
  lonely : IsLonely s
  last_sent : s.last_sent ≡ 0
  last_received : s.last_received ≡ 0
  highest : s.rank + 1 ≡ s.size

on_timeout-idle :
    (s : Node) → IsIdle s → on_timeout s ≡ running (record s { tick = 0; coord_node = 0 })
unfolding for_above for_ranks
on_timeout-idle s idle =
    let none_above : s.size - (s.rank + 1) ≡ 0 = omega (arith, idle.highest) in
    on_timeout-silent s idle.last_sent
    ∙ on_silence-step s s idle.last_received
        (ap (λ n. for_ranks resend_election n (s.rank + 1) s) none_above) idle.last_received

IsIdle-round :
    (s : Node)
    → IsIdle s
    → s.tick < s.timeout_value
    → s.timeout_value < 2 ^ 31
    → s.aya_tick + 1 < 2 ^ 31
    → (t : Node) × (round s clock_tick ≡ running t)
      × IsIdle t
      × (t.history ≡ s.history)
      × (t.timeout_value ≡ s.timeout_value)
      × (t.tick < t.timeout_value)
      × (t.aya_tick ≡ s.aya_tick + 1)
unfolding later
IsIdle-round s idle due h a = elim (Bool-cases (s.tick + 1 == s.timeout_value)) [
  | inl e ↦ (
    record s { tick = 0; aya_tick = s.aya_tick + 1; coord_node = 0 },
    round-clock_tick s idle.lonely (omega (arith, due, h)) a
        ∙ (check_timeout-at (later 1 s) idle.lonely.2 (ground (arith, e))
            ∙ on_timeout-idle (later 1 s) (record {
              lonely = idle.lonely;
              last_sent = idle.last_sent;
              last_received = idle.last_received;
              highest = idle.highest;
            })),
    record {
      lonely = (idle.lonely.0, refl, idle.lonely.2);
      last_sent = idle.last_sent;
      last_received = idle.last_received;
      highest = idle.highest;
    },
    refl,
    refl,
    idle.lonely.2,
    refl,
  )
  | inr e ↦ (
    later 1 s,
    round-clock_tick s idle.lonely (omega (arith, due, h)) a
        ∙ check_timeout-before (later 1 s) (omega arith) (ground (arith, e, due)),
    record {
      lonely = idle.lonely;
      last_sent = idle.last_sent;
      last_received = idle.last_received;
      highest = idle.highest;
    },
    refl,
    refl,
    ground (arith, e, due),
    refl,
  )
]

-- The node of the highest rank, with no coordinator, nothing sent or received and a timeout that is
-- still to come, and that hears nothing but the clock: however often the clock ticks, it goes on and
-- sends nothing and prints no event, so it never declares itself the coordinator, as long as no int
-- overflows.
pub run-highest :
    (n : ℕ) (s : Node)
    → IsLonely s
    → s.last_sent ≡ 0
    → s.last_received ≡ 0
    → s.rank + 1 ≡ s.size
    → s.tick < s.timeout_value
    → s.timeout_value < 2 ^ 31
    → s.aya_tick + n < 2 ^ 31
    → (t : Node) × (run s (replicate n clock_tick) ≡ running t)
      × (t.history ≡ s.history)
      × (t.last_sent ≡ 0)
unfolding run
run-highest n s lonely l r top due h a =
    go n s (record { lonely = lonely; last_sent = l; last_received = r; highest = top }) due h a
  where
    go :
        (n : ℕ) (s : Node)
        → IsIdle s
        → s.tick < s.timeout_value
        → s.timeout_value < 2 ^ 31
        → s.aya_tick + n < 2 ^ 31
        → (t : Node) × (run s (replicate n clock_tick) ≡ running t)
          × (t.history ≡ s.history)
          × (t.last_sent ≡ 0)
    go zero s idle due h a = (s, refl, refl, idle.last_sent)
    go (suc n) s idle due h a =
        let (t, e, idle', same, timeout, due', ticks) =
          IsIdle-round s idle due h (omega (arith, a)) in
        let (u, e', same', l) =
          go n t idle' due' (omega (arith, timeout, h)) (omega (arith, ticks, a)) in
        (u, ap (λ o. o >>= λ v. run v (replicate n clock_tick)) e ∙ e', same' ∙ same, l)
