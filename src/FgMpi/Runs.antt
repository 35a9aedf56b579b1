-- ===== src/FgMpi/Runs.antt =====
-- The handlers of bully_algorithm_fg_mpi/bully.c keep a closed property.
use distributed_system.Base.{
  ℕ, zero, suc, ◌+◌, ◌-◌, ◌*◌, ◌%◌, ◌^◌, ◌≤◌, ◌<◌, ◌≢◌, Bool, true, false, ◌&&◌, none, some, List,
  arith, ltb, ◌==◌, if◌then◌else◌,
}
use distributed_system.Outcome.{◌>>=◌, Leaves, Leaves-bind, Outcome, running, undefined}
use distributed_system.FgMpi.Closed.{At, Closed, May, print-keep, send-keep}
use distributed_system.FgMpi.State.{
  Effect, Node, answer_id, aya_id, coord_id, election_id, iam_alive, print_event,
}
use distributed_system.FgMpi.Handle.{
  aya_due, dead_turn, draw_rate, on_answer, on_clock, on_election,
}
use distributed_system.FgMpi.Send.{
  declare, for_above, for_ranks, resend_election, send_coord, send_election, send_event,
}

module _ {P F : ℕ → ℕ → ℕ → List Effect → Type 0} (closed : Closed P F) (r z : ℕ) where
  open closed use {receives, advances, settles, posts}

  for_ranks-keep :
      (body : ℕ → Node → Outcome Node) (n i : ℕ) (s : Node)
      → ((j : ℕ) (t : Node)
          → i ≤ j
          → j < i + n
          → At closed r z t
          → Leaves (At closed r z) (body j t))
      → At closed r z s
      → Leaves (At closed r z) (for_ranks body n i s)
  unfolding for_ranks
  for_ranks-keep body zero i s keep p = p
  for_ranks-keep body (suc n) i s keep p =
      Leaves-bind (At closed r z) (body i s) (λ t. for_ranks body n (i + 1) t)
        (keep i s (omega arith) (omega arith) p)
        (λ t q.
          for_ranks-keep body n (i + 1) t
            (λ j u h k. keep j u (omega (arith, h)) (omega (arith, k))) q)

  -- A send, and a change behind it that the property does not see.
  after-keep :
      (event to : ℕ) (change : Node → Node) (s : Node)
      → May r z event to
      → ((t : Node) → At closed r z t → At closed r z (change t))
      → At closed r z s
      → Leaves (At closed r z) (send_event event to s >>= λ t. running (change t))
  after-keep event to change s may same p =
      Leaves-bind (At closed r z) (send_event event to s) (λ t. running (change t))
        (send-keep closed r z event to s may p) same

  above-May : (j : ℕ) → r + 1 ≤ j → j < r + 1 + (z - (r + 1)) → May r z election_id j
  above-May j h k = (λ e. absurd (omega (arith, e)), λ e. (omega (arith, h), omega (arith, h, k)))

  pub other-May : (event to : ℕ) → event ≢ coord_id → event ≢ election_id → May r z event to
  other-May event to h k = (λ e. absurd (h e), λ e. absurd (k e))

  pub send_elections-keep :
      (s : Node) → At closed r z s → Leaves (At closed r z) (for_above send_election s)
  unfolding for_above send_election
  send_elections-keep s (p, rank, size) =
      for_ranks-keep send_election (s.size - (s.rank + 1)) (s.rank + 1) s
        (λ j t h k q.
          after-keep election_id j (λ u. record u { last_sent = election_id }) t
            (above-May j (omega (arith, h, rank)) (omega (arith, k, rank, size))) (λ u w. w) q)
        (p, rank, size)

  pub resend_elections-keep :
      (s : Node) → At closed r z s → Leaves (At closed r z) (for_above resend_election s)
  unfolding for_above resend_election
  resend_elections-keep s (p, rank, size) =
      for_ranks-keep resend_election (s.size - (s.rank + 1)) (s.rank + 1) s
        (λ j t h k q.
          after-keep election_id j (λ u. record u { last_sent = election_id; last_received = 0 }) t
            (above-May j (omega (arith, h, rank)) (omega (arith, k, rank, size))) (λ u w. w) q)
        (p, rank, size)

  pub declare-keep : (s : Node) → At closed r z s → Leaves (At closed r z) (declare s)
  unfolding declare send_coord
  declare-keep s (p, rank, size) =
      for_ranks-keep send_coord (s.rank - 1) 1 s
        (λ j t h k q.
          after-keep coord_id j (λ u. record u { last_sent = coord_id }) t
            (λ e. (h, omega (arith, h, k, rank)), λ e. absurd (omega (arith, e))) (λ u w. w) q)
        (p, rank, size)

  pub on_clock-keep : (s : Node) → At closed r z s → Leaves (At closed r z) (on_clock s)
  unfolding on_clock draw_rate
  on_clock-keep s p =
      go (ltb (s.tick + 1) (2 ^ 31) && ltb (s.aya_tick + 1) (2 ^ 31)) (aya_due s1)
        (s1.aya_time == 0)
    where
      s1 : Node
      s1 = record s { tick = s.tick + 1; aya_tick = s.aya_tick + 1 }

      drawn_rate : Node
      drawn_rate = record s1 {
        aya_rate = s1.random (s1.drawn + 9) % (2 * s1.aya_time);
        drawn = s1.drawn + 10;
      }

      go :
          (b c d : Bool)
          → Leaves (At closed r z) (
              if b
              then (if c
                  then ((if d then undefined else running drawn_rate) >>= λ t.
                      send_event aya_id t.coord_node (record t { last_sent = aya_id }))
                  else running s1)
              else undefined)
      go false c d = tt
      go true false d = p
      go true true true = tt
      go true true false =
          send-keep closed r z aya_id s1.coord_node (record drawn_rate { last_sent = aya_id })
            (other-May aya_id s1.coord_node (λ e. omega (arith, e)) (λ e. omega (arith, e))) p

  pub on_election-keep :
      (source : ℕ) (s : Node) → At closed r z s → Leaves (At closed r z) (on_election source s)
  unfolding on_election
  on_election-keep source s p =
      Leaves-bind (At closed r z) (send_event answer_id source s) _
        (send-keep closed r z answer_id source s
          (other-May answer_id source (λ e. omega (arith, e)) (λ e. omega (arith, e))) p)
        (λ t q. go t q (t.last_sent == election_id))
    where
      last :
          (b : Bool) (v : Node)
          → At closed r z v
          → Leaves (At closed r z) (if b then declare v else running v)
      last true v q = declare-keep v q
      last false v q = q

      go :
          (t : Node)
          → At closed r z t
          → (b : Bool)
          → Leaves (At closed r z) (
              if b
              then running (record t { last_received = election_id })
              else for_above send_election (record t { last_received = election_id; last_sent = 0 })
                >>= λ v. if v.last_sent == 0 then declare v else running v)
      go t q true = q
      go t q false =
          Leaves-bind (At closed r z)
            (for_above send_election (record t { last_received = election_id; last_sent = 0 })) _
            (send_elections-keep (record t { last_received = election_id; last_sent = 0 }) q)
            (λ v w. last (v.last_sent == 0) v w)

  pub on_answer-keep : (s : Node) → At closed r z s → At closed r z (on_answer s)
  unfolding on_answer
  on_answer-keep s p = go (s.last_received == coord_id) (s.last_sent == election_id)
    where
      go :
          (b c : Bool)
          → At closed r z (
              if b
              then record s { last_sent = 0 }
              else (if c then record s { last_received = answer_id; last_sent = 0 } else s))
      go true c = p
      go false true = p
      go false false = p

  pub dead_turn-keep :
      (since source : ℕ) (s : Node) → At closed r z s → At closed r z (dead_turn since source s)
  unfolding dead_turn print_event
  dead_turn-keep since source s (p, rank, size) =
      go (ltb (since + s.return_to_life * 1000000) (s.wtime s.timed))
    where
      s1 : Node
      s1 = record s { timed = suc s.timed }

      go :
          (b : Bool)
          → At closed r z (
              if b
              then record (print_event iam_alive s1.rank source true s1) {
                dead = none;
                last_sent = 0;
                last_received = 0;
              }
              else record s1 { dead = some since })
      go true = (print-keep closed iam_alive s.rank source true s1 p, rank, size)
      go false = (p, rank, size)
