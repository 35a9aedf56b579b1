-- ===== src/FgMpi/Liveness.antt =====
-- The timeouts of a node of bully_algorithm_fg_mpi/bully.c that hears nothing but the clock.
use distributed_system.Base.{
  ℕ, zero, suc, ◌+◌, ◌-◌, ◌*◌, ◌^◌, ◌≤◌, ◌<◌, ◌≡◌, refl, sym, ap, fun_ext, ◌∙◌, true, List, [], ◌∷◌,
  ◌++◌, arith, ◌==◌, if◌then◌else◌, replicate,
}
use distributed_system.Outcome.{◌>>=◌, running, Outcome, bind_assoc}
use distributed_system.FgMpi.Silence.{
  IsLonely, for_ranks-runs, isends, sends_to, later, run-until_timeout, sending,
}
use distributed_system.FgMpi.State.{Node, election_id, Message, coord_id}
use distributed_system.FgMpi.Send.{declare, for_above, resend_election, send_coord}
use distributed_system.FgMpi.Handle.{gives_up, on_silence, on_timeout, start_over, round, run}
use distributed_system.FgMpi.Start.{clock_tick}

-- A node that begins to wait: its last timeout is behind it.
record IsWaiting (kind : ℕ) (s : Node) : Type 0 where
  lonely : IsLonely s
  tick : s.tick ≡ 0
  last_sent : s.last_sent ≡ kind
  last_received : s.last_received ≡ 0

start_over-IsWaiting :
    (kind : ℕ) (t : Node)
    → IsLonely t
    → t.last_sent ≡ kind
    → t.last_received ≡ 0
    → IsWaiting kind (record t { tick = 0; coord_node = 0 })
start_over-IsWaiting kind t (alive, alone, positive) l r = record {
  lonely = (alive, refl, positive);
  tick = refl;
  last_sent = l;
  last_received = r;
}

pub on_timeout-silent : (s : Node) → s.last_sent ≡ 0 → on_timeout s ≡ on_silence s
unfolding on_timeout
on_timeout-silent s e = ground (arith, e)

on_timeout-election :
    (s : Node) → s.last_sent ≡ election_id → on_timeout s ≡ declare s >>= start_over
unfolding on_timeout
on_timeout-election s e = ground (arith, e)

pub on_silence-step :
    (s t : Node)
    → s.last_received ≡ 0
    → for_above resend_election s ≡ running t
    → t.last_received ≡ 0
    → on_silence s ≡ running (record t { tick = 0; coord_node = 0 })
unfolding on_silence gives_up start_over
on_silence-step s t r e r' =
    ap (λ b. (if b then for_above resend_election s >>= start_over else running s) >>= last)
      given_up
    ∙ (ap (λ o. (o >>= start_over) >>= last) e
        ∙ ap (λ k. if k == election_id then declare u >>= start_over else running u) r')
  where
    u : Node
    u = record t { tick = 0; coord_node = 0 }

    last : Node → Outcome Node
    last v = if v.last_received == election_id then declare v >>= start_over else running v

    given_up : gives_up s ≡ true
    given_up = ground (arith, r)

-- A timeout with nothing sent or received calls an election.
on_silence-runs :
    (s : Node)
    → IsLonely s
    → s.last_received ≡ 0
    → s.dlc_time + s.size < 2 ^ 31
    → s.rank + 1 < s.size
    → (t : Node) × (on_silence s ≡ running t)
      × IsWaiting election_id t
      × (t.rank ≡ s.rank)
      × (t.timeout_value ≡ s.timeout_value)
      × (t.aya_tick ≡ s.aya_tick)
      × (t.dlc_time ≤ s.dlc_time + s.size)
      × (isends t.history
          ≡ sends_to election_id (s.rank + 1) (s.size - (s.rank + 1)) (isends s.history))
unfolding for_above resend_election sending
on_silence-runs s lonely r h above =
    let (t, e, after, r', l, sends) =
      for_ranks-runs election_id election_id (λ x. 0) 0 (s.size - (s.rank + 1)) (s.rank + 1) s
        (omega (arith, h)) refl r in
    (
      record t { tick = 0; coord_node = 0 },
      on_silence-step s t r e r',
      start_over-IsWaiting election_id t (after.lonely lonely) (ground (arith, l, above)) r',
      after.rank,
      after.timeout_value,
      after.aya_tick,
      omega (arith, after.dlc_time, above),
      sends,
    )

-- A timeout while waiting for an answer declares the node the coordinator.
declare-runs :
    (s : Node)
    → IsLonely s
    → s.last_received ≡ 0
    → s.dlc_time + s.rank < 2 ^ 31
    → 1 < s.rank
    → (t : Node) × ((declare s >>= start_over) ≡ running t)
      × IsWaiting coord_id t
      × (isends t.history ≡ sends_to coord_id 1 (s.rank - 1) (isends s.history))
unfolding declare start_over send_coord sending
declare-runs s lonely r h below =
    let (t, e, after, r', l, sends) =
      for_ranks-runs coord_id coord_id (λ x. x) 0 (s.rank - 1) 1 s (omega (arith, h)) refl r in
    (
      record t { tick = 0; coord_node = 0 },
      ap (λ o. o >>= start_over) e,
      start_over-IsWaiting coord_id t (after.lonely lonely) (ground (arith, l, below)) r',
      sends,
    )

pub run-append : (ms ns : List Message) (s : Node) → run s (ms ++ ns) ≡ (run s ms >>= λ t. run t ns)
unfolding run
run-append [] ns s = refl
run-append (m ∷ ms) ns s =
    ap (λ f. round s m >>= f) (fun_ext (λ t. run-append ms ns t))
    ∙ sym (bind_assoc (round s m) (λ t. run t ms) (λ t. run t ns))

-- The ticks of one timeout.
abbrev pub silence : Node → List Message
silence s = replicate s.timeout_value clock_tick

run-silence :
    (s : Node)
    → IsLonely s
    → s.tick ≡ 0
    → s.timeout_value < 2 ^ 31
    → s.aya_tick + s.timeout_value < 2 ^ 31
    → run s (silence s) ≡ on_timeout (later s.timeout_value s)
run-silence s lonely zero_tick h a = go s.timeout_value refl lonely.2
  where
    go :
        (n : ℕ)
        → s.timeout_value ≡ n
        → 0 < n
        → run s (replicate n clock_tick) ≡ on_timeout (later n s)
    go zero e positive = absurd (omega (arith, positive))
    go (suc k) e positive =
        run-until_timeout k s lonely (omega (arith, zero_tick, e)) h (omega (arith, a, e))

-- A node that is neither of the lowest nor of the highest rank, that has no coordinator and has
-- sent and received nothing, and that hears nothing but the clock: after one timeout it has sent an
-- ELECTION to each greater rank in turn, and after a second one, besides, a COORD to each smaller
-- rank but the clock node's, and nothing else, as long as no int overflows. It has noted each.
pub run-silence_declares :
    (s : Node)
    → IsLonely s
    → s.tick ≡ 0
    → s.last_sent ≡ 0
    → s.last_received ≡ 0
    → s.timeout_value < 2 ^ 31
    → s.aya_tick + 2 * s.timeout_value < 2 ^ 31
    → s.dlc_time + 2 * s.size < 2 ^ 31
    → 1 < s.rank
    → s.rank + 1 < s.size
    → (t u : Node) × (run s (silence s) ≡ running t)
      × (t.last_sent ≡ election_id)
      × (isends t.history
          ≡ sends_to election_id (s.rank + 1) (s.size - (s.rank + 1)) (isends s.history))
      × (run s (silence s ++ silence s) ≡ running u)
      × (u.last_sent ≡ coord_id)
      × (isends u.history ≡ sends_to coord_id 1 (s.rank - 1) (isends t.history))
unfolding later
run-silence_declares s lonely zero_tick l r h a d below above =
    let s1 = later s.timeout_value s in
    let (t, e, waiting, rank, timeout, ticks, time, sends) =
      on_silence-runs s1 lonely r (omega (arith, d)) above in
    let first : run s (silence s) ≡ running t =
      run-silence s lonely zero_tick h (omega (arith, a)) ∙ (on_timeout-silent s1 l ∙ e) in
    let t1 = later t.timeout_value t in
    let (u, e', waiting', coords) =
      declare-runs t1 waiting.lonely waiting.last_received (omega (arith, d, time, rank, above))
        (omega (arith, rank, below)) in
    let second : run t (silence s) ≡ running u =
      ap (λ n. run t (replicate n clock_tick)) (sym timeout)
      ∙ (run-silence t waiting.lonely waiting.tick (omega (arith, timeout, h))
            (omega (arith, timeout, ticks, a))
          ∙ (on_timeout-election t1 waiting.last_sent ∙ e')) in
    (
      t,
      u,
      first,
      waiting.last_sent,
      sends,
      run-append (silence s) (silence s) s
          ∙ (ap (λ o. o >>= λ v. run v (silence s)) first ∙ second),
      waiting'.last_sent,
      coords ∙ ap (λ r. sends_to coord_id 1 (r - 1) (isends t.history)) rank,
    )
