-- ===== src/FgMpi/Silence.antt =====
-- A node of bully_algorithm_fg_mpi/bully.c that hears nothing but the clock.
use distributed_system.Base.{
  ℕ, zero, suc, ◌+◌, ◌^◌, ◌<◌, ◌≡◌, refl, ap, ap₂, ◌∙◌, true, Option, none, some, List, [], ◌∷◌,
  arith, ltb, ◌==◌, if◌then◌else◌, replicate,
}
use distributed_system.Outcome.{◌>>=◌, Outcome, exited, running, undefined}
use native.Mathlib.Nat.{mod-eq_of_lt, mod_self}
use distributed_system.FgMpi.State.{
  Node, clock_id, event_printing, print_event, Effect, Line, printed, received, discarded, isend,
  put_lines,
}
use distributed_system.FgMpi.Handle.{
  aya_due, check_timeout, dead_turn, discard, finish, on_clock, on_timeout, round, run,
}
use distributed_system.FgMpi.Start.{clock_tick}
use distributed_system.FgMpi.Send.{advance, for_ranks, post, send_event}

-- It is alive and has no coordinator, and its timeout is not 0.
abbrev pub IsLonely : Node → Type 0
IsLonely s = (s.dead ≡ none) × (s.coord_node ≡ 0) × (0 < s.timeout_value)

-- The node when the clock has ticked k times more.
unfoldable pub later : ℕ → Node → Node
later k s = record s { tick = s.tick + k; aya_tick = s.aya_tick + k }

bind-return : (o : Outcome Node) → (o >>= λ t. running t) ≡ o
bind-return (running s) = refl
bind-return (exited s) = refl
bind-return undefined = refl

on_clock-lonely :
    (s : Node)
    → s.coord_node ≡ 0
    → s.tick + 1 < 2 ^ 31
    → s.aya_tick + 1 < 2 ^ 31
    → on_clock s ≡ running (later 1 s)
unfolding on_clock later aya_due
on_clock-lonely s alone h k = ground (arith, alone, h, k)

pub round-clock_tick :
    (s : Node)
    → IsLonely s
    → s.tick + 1 < 2 ^ 31
    → s.aya_tick + 1 < 2 ^ 31
    → round s clock_tick ≡ check_timeout (later 1 s)
unfolding round finish later
round-clock_tick s (alive, alone, positive) h k =
    ap
      (λ (o : Option ℕ). elim o [
        | some since ↦ finish clock_id (dead_turn since 0 (discard clock_tick s))
        | none ↦ on_clock s >>= λ t. finish clock_id t
      ])
      alive
    ∙ (ap (λ o. o >>= λ t. finish clock_id t) (on_clock-lonely s alone h k)
        ∙ (ap
              (λ (o : Option ℕ). elim o [
                | some since ↦ running (later 1 s)
                | none ↦ check_timeout (later 1 s) >>= λ t. running t
              ])
              alive
            ∙ bind-return (check_timeout (later 1 s))))

pub check_timeout-before :
    (s : Node) → 0 < s.tick → s.tick < s.timeout_value → check_timeout s ≡ running s
unfolding check_timeout
check_timeout-before s h k = let e = mod-eq_of_lt k in ground (arith, h, k, e)

pub check_timeout-at :
    (s : Node) → 0 < s.timeout_value → s.tick ≡ s.timeout_value → check_timeout s ≡ on_timeout s
unfolding check_timeout
check_timeout-at s h e = let m = mod_self s.timeout_value in ground (arith, h, e, m)

-- The clock ticks up to the timeout.
pub run-until_timeout :
    (k : ℕ) (s : Node)
    → IsLonely s
    → s.tick + suc k ≡ s.timeout_value
    → s.timeout_value < 2 ^ 31
    → s.aya_tick + suc k < 2 ^ 31
    → run s (replicate (suc k) clock_tick) ≡ on_timeout (later (suc k) s)
unfolding run later
run-until_timeout zero s lonely due h a =
    ap (λ o. o >>= λ t. running t)
      (round-clock_tick s lonely (omega (arith, due, h)) (omega (arith, a)))
    ∙ (bind-return (check_timeout (later 1 s)) ∙ check_timeout-at (later 1 s) lonely.2 due)
run-until_timeout (suc k) s lonely due h a =
    ap (λ o. o >>= λ t. run t (replicate (suc k) clock_tick))
      (round-clock_tick s lonely (omega (arith, due, h)) (omega (arith, a))
        ∙ check_timeout-before (later 1 s) (omega arith) (omega (arith, due)))
    ∙ (run-until_timeout k (later 1 s) lonely (omega (arith, due)) h (omega (arith, a))
        ∙ ap on_timeout later_later)
  where
    later_later : later (suc k) (later 1 s) ≡ later (suc (suc k)) s
    later_later = ap₂ (λ i j. record s { tick = i; aya_tick = j }) (omega arith) (omega arith)

-- What the loops over the ranks leave alone, and how far they advance the time.
pub record IsAfter (n : ℕ) (s t : Node) : Type 0 where
  pub lonely : IsLonely s → IsLonely t
  pub rank : t.rank ≡ s.rank
  pub size : t.size ≡ s.size
  pub timeout_value : t.timeout_value ≡ s.timeout_value
  pub aya_tick : t.aya_tick ≡ s.aya_tick
  pub dlc_time : t.dlc_time ≡ s.dlc_time + n

-- The messages of a history that are sent: the rank each goes to, and its event.
unfoldable pub isends : List Effect → List (ℕ × ℕ)
isends [] = []
isends (printed l ∷ h) = isends h
isends (received m ∷ h) = isends h
isends (discarded m ∷ h) = isends h
isends (isend to event time c ∷ h) = (to, event) ∷ isends h

-- The event is sent to the n ranks from i on, one after the other.
unfoldable pub sends_to : ℕ → ℕ → ℕ → List (ℕ × ℕ) → List (ℕ × ℕ)
sends_to event i zero h = h
sends_to event i (suc n) h = sends_to event (i + 1) n ((i, event) ∷ h)

isends-put_lines : (ls : List Line) (h : List Effect) → isends (put_lines ls h) ≡ isends h
unfolding put_lines isends
isends-put_lines [] h = refl
isends-put_lines (l ∷ ls) h = isends-put_lines ls (printed l ∷ h)

send_event-runs :
    (event to : ℕ) (s : Node)
    → s.dlc_time + 1 < 2 ^ 31
    → send_event event to s
      ≡ running (
          post event to (print_event event s.rank to true (record s { dlc_time = s.dlc_time + 1 })))
unfolding send_event advance
send_event-runs event to s h =
    let b : ltb (s.dlc_time + 1) (2 ^ 31) ≡ true = ground (arith, h) in rw b refl

-- A loop over the ranks whose body sends an event and sets the states.
unfoldable pub sending : ℕ → ℕ → (ℕ → ℕ) → ℕ → Node → Outcome Node
sending event kind f to s = send_event event to s >>= λ t.
    running (record t { last_sent = kind; last_received = f t.last_received })

pub for_ranks-runs :
    (event kind : ℕ) (f : ℕ → ℕ) (r n i : ℕ) (s : Node)
    → s.dlc_time + n < 2 ^ 31
    → f r ≡ r
    → s.last_received ≡ r
    → (t : Node) × (for_ranks (sending event kind f) n i s ≡ running t)
      × IsAfter n s t
      × (t.last_received ≡ r)
      × (t.last_sent ≡ (if n == 0 then s.last_sent else kind))
      × (isends t.history ≡ sends_to event i n (isends s.history))
unfolding for_ranks sending post print_event isends sends_to
for_ranks-runs event kind f r zero i s h fixed e = (
  s,
  refl,
  record {
    lonely = λ l. l;
    rank = refl;
    size = refl;
    timeout_value = refl;
    aya_tick = refl;
    dlc_time = omega arith;
  },
  e,
  refl,
  refl,
)
for_ranks-runs event kind f r (suc n) i s h fixed e =
    let sent =
      post event i (print_event event s.rank i true (record s { dlc_time = s.dlc_time + 1 })) in
    let u = record sent { last_sent = kind; last_received = f s.last_received } in
    let (t, q, after, r', l, sends) =
      for_ranks-runs event kind f r n (i + 1) u (omega (arith, h)) fixed (ap f e ∙ fixed) in
    (
      t,
      ap
            (λ o.
              (o >>= λ v.
              running (record v { last_sent = kind; last_received = f v.last_received }))
              >>= λ v. for_ranks (sending event kind f) n (i + 1) v)
            (send_event-runs event i s (omega (arith, h)))
          ∙ q,
      record {
        lonely = after.lonely;
        rank = after.rank;
        size = after.size;
        timeout_value = after.timeout_value;
        aya_tick = after.aya_tick;
        dlc_time = omega (arith, after.dlc_time);
      },
      r',
      ground (arith, l),
      sends
          ∙ ap (λ h. sends_to event (i + 1) n ((i, event) ∷ h))
              (isends-put_lines (event_printing (s.dlc_time + 1) event s.rank i s.is_debug true)
                s.history),
    )
