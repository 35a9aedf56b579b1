-- ===== src/FgMpi/Rounds.antt =====
-- The rounds of handleNode in bully_algorithm_fg_mpi/bully.c keep a closed property.
use distributed_system.Base.{
  ℕ, suc, ◌+◌, ◌%◌, ◌^◌, refl, inl, inr, Bool, true, false, not, ◌&&◌, Option, none, some, List, [],
  ◌∷◌, arith, ltb, ◌==◌, if◌then◌else◌, Bool-cases,
}
use distributed_system.Outcome.{
  ◌>>=◌, Leaves, Leaves-bind, Outcome, exited, running, undefined, Leaves-weaken,
}
use distributed_system.FgMpi.Closed.{At, Closed, On, print-keep, fresh-keep}
use distributed_system.FgMpi.State.{
  Effect, Message, Node, answer_id, aya_id, clock_id, coord_id, election_id, iaa_id, leader_dead,
  print_event, received, terminate, iam_dead_jim,
}
use distributed_system.FgMpi.Send.{
  advance, declare, for_above, post, resend_election, send_election,
}
use distributed_system.FgMpi.Handle.{
  check_timeout, dead_turn, discard, finish, gives_up, lose_leader, on_aya, on_clock, on_message,
  on_silence, on_timeout, receive, round, run, start_over,
}
use distributed_system.FgMpi.Runs.{
  dead_turn-keep, declare-keep, on_answer-keep, on_clock-keep, on_election-keep,
  resend_elections-keep, send_elections-keep,
}

module _ {P F : ℕ → ℕ → ℕ → List Effect → Type 0} (closed : Closed P F) (r z : ℕ) where
  open closed use {receives, discards, advances, settles, posts}

  on_aya-keep : (source : ℕ) (s : Node) → At closed r z s → Leaves (At closed r z) (on_aya source s)
  unfolding on_aya advance post print_event
  on_aya-keep source s (p, rank, size) = go (ltb (s.dlc_time + 1) (2 ^ 31))
    where
      t : Node
      t = record s { last_received = aya_id; last_sent = iaa_id; dlc_time = s.dlc_time + 1 }

      u : Node
      u = record t { drawn = suc t.drawn; timed = suc t.timed }

      f : On F t
      f = advances s.rank s.size s.dlc_time s.history p

      answer :
          (c : Bool)
          → Leaves (At closed r z) (
              if c
              then running (
                  dead_turn
                    (t.wtime t.timed)
                    source
                    (print_event iam_dead_jim u.rank source true u))
              else running (post iaa_id source (print_event iaa_id u.rank source true u)))
      answer true =
          dead_turn-keep closed r z (t.wtime t.timed) source
            (print_event iam_dead_jim u.rank source true u)
            (
              print-keep closed iam_dead_jim u.rank source true u
                  (settles s.rank s.size (s.dlc_time + 1) s.history f),
              rank,
              size,
            )
      answer false = (
        posts s.rank s.size (s.dlc_time + 1) _ iaa_id source (s.test s.tested)
            ((λ e. absurd (omega (arith, e))), (λ e. absurd (omega (arith, e))))
            (fresh-keep closed iaa_id u.rank source true u f),
        rank,
        size,
      )

      go :
          (b : Bool)
          → Leaves (At closed r z) (
              (if b then running t else undefined) >>= λ v.
              if ltb (v.random v.drawn % 100) v.send_failure
              then running (
                  dead_turn (v.wtime v.timed) source (
                    print_event iam_dead_jim v.rank source true
                      (record v { drawn = suc v.drawn; timed = suc v.timed })))
              else running (
                  post iaa_id source (
                    print_event iaa_id v.rank source true
                      (record v { drawn = suc v.drawn; timed = suc v.timed }))))
      go false = tt
      go true = answer (ltb (t.random t.drawn % 100) t.send_failure)

  receive-keep : (m : Message) (s : Node) → At closed r z s → At closed r z (receive m s)
  unfolding receive print_event
  receive-keep m s (p, rank, size) = (
    print-keep closed m.tag m.source s.rank false
        (record s {
          tick = 0;
          dlc_time = if ltb s.dlc_time m.time then m.time else s.dlc_time;
          history = received m ∷ s.history;
        })
        (receives s.rank s.size s.dlc_time s.history m p),
    rank,
    size,
  )

  discard-keep : (m : Message) (s : Node) → At closed r z s → At closed r z (discard m s)
  unfolding discard
  discard-keep m s (p, rank, size) = (discards s.rank s.size s.dlc_time s.history m p, rank, size)

  on_message-keep :
      (m : Message) (s : Node) → At closed r z s → Leaves (At closed r z) (on_message m s)
  unfolding on_message
  on_message-keep m s p = elim (Bool-cases (m.tag == election_id)) [
    | inl e ↦ rw e (on_election-keep closed r z m.source s p)
    | inr e1 ↦ elim (Bool-cases (m.tag == answer_id)) [
      | inl e ↦ rw (e1, e) (on_answer-keep closed r z s p)
      | inr e2 ↦ elim (Bool-cases (m.tag == coord_id)) [
        | inl e ↦ rw (e1, e2, e) p
        | inr e3 ↦ elim (Bool-cases (m.tag == aya_id)) [
          | inl e ↦ rw (e1, e2, e3, e) (on_aya-keep m.source s p)
          | inr e4 ↦ elim (Bool-cases (m.tag == iaa_id)) [
            | inl e ↦ rw (e1, e2, e3, e4, e) p
            | inr e ↦ rw (e1, e2, e3, e4, e) p
          ]
        ]
      ]
    ]
  ]

  over-keep :
      (o : Outcome Node) → Leaves (At closed r z) o → Leaves (At closed r z) (o >>= start_over)
  unfolding start_over
  over-keep o h = Leaves-bind (At closed r z) o start_over h (λ t q. q)

  on_silence-keep : (s : Node) → At closed r z s → Leaves (At closed r z) (on_silence s)
  unfolding on_silence
  on_silence-keep s p =
      Leaves-bind (At closed r z) _ _ (first (gives_up s))
        (λ t q. last (t.last_received == election_id) t q)
    where
      first :
          (b : Bool)
          → Leaves
              (At closed r z)
              (if b then for_above resend_election s >>= start_over else running s)
      first true = over-keep (for_above resend_election s) (resend_elections-keep closed r z s p)
      first false = p

      last :
          (b : Bool) (t : Node)
          → At closed r z t
          → Leaves (At closed r z) (if b then declare t >>= start_over else running t)
      last true t q = over-keep (declare t) (declare-keep closed r z t q)
      last false t q = q

  lose_leader-keep : (s : Node) → At closed r z s → Leaves (At closed r z) (lose_leader s)
  unfolding lose_leader print_event
  lose_leader-keep s (p, rank, size) =
      over-keep (for_above send_election (print_event leader_dead s.rank 0 true s)) (
        send_elections-keep closed r z (print_event leader_dead s.rank 0 true s)
          (print-keep closed leader_dead s.rank 0 true s p, rank, size))

  on_timeout-keep : (s : Node) → At closed r z s → Leaves (At closed r z) (on_timeout s)
  unfolding on_timeout
  on_timeout-keep s p = elim (Bool-cases (s.last_sent == 0)) [
    | inl e ↦ rw e (on_silence-keep s p)
    | inr e1 ↦ elim (Bool-cases (s.last_sent == election_id)) [
      | inl e ↦ rw (e1, e) (over-keep (declare s) (declare-keep closed r z s p))
      | inr e2 ↦ elim (Bool-cases (s.last_sent == aya_id)) [
        | inl e ↦ rw (e1, e2, e) (lose_leader-keep s p)
        | inr e ↦ rw (e1, e2, e) p
      ]
    ]
  ]

  check_timeout-keep : (s : Node) → At closed r z s → Leaves (At closed r z) (check_timeout s)
  unfolding check_timeout
  check_timeout-keep s p =
      go (s.timeout_value == 0) ((s.tick % s.timeout_value == 0) && not (s.tick == 0))
    where
      go :
          (b c : Bool)
          → Leaves
              (At closed r z)
              (if b then undefined else (if c then on_timeout s else running s))
      go true c = tt
      go false true = on_timeout-keep s p
      go false false = p

  finish-keep : (event : ℕ) (s : Node) → At closed r z s → Leaves (At closed r z) (finish event s)
  unfolding finish
  finish-keep event s p = go s.dead
    where
      last :
          (b : Bool) (t : Node)
          → At closed r z t
          → Leaves (At closed r z) (if b then exited t else running t)
      last true t q = q
      last false t q = q

      go :
          (o : Option ℕ)
          → Leaves (At closed r z) (elim o [
            | some since ↦ running s
            | none ↦ check_timeout s >>= λ t. if event == terminate then exited t else running t
          ])
      go (some since) = p
      go none =
          Leaves-bind (At closed r z) (check_timeout s) _ (check_timeout-keep s p)
            (λ t q. last (event == terminate) t q)

  round-keep : (m : Message) (s : Node) → At closed r z s → Leaves (At closed r z) (round s m)
  unfolding round
  round-keep m s p = go s.dead
    where
      first :
          (b : Bool) → Leaves (At closed r z) (if b then on_clock s else on_message m (receive m s))
      first true = on_clock-keep closed r z s p
      first false = on_message-keep m (receive m s) (receive-keep m s p)

      go :
          (o : Option ℕ)
          → Leaves (At closed r z) (elim o [
            | some since ↦ finish m.event (dead_turn since m.source (discard m s))
            | none ↦ (if m.tag == clock_id then on_clock s else on_message m (receive m s)) >>= λ t.
                finish m.event t
          ])
      go (some since) =
          finish-keep m.event (dead_turn since m.source (discard m s))
            (dead_turn-keep closed r z since m.source (discard m s) (discard-keep m s p))
      go none =
          Leaves-bind (At closed r z) _ _ (first (m.tag == clock_id))
            (λ t q. finish-keep m.event t q)

  rounds-keep : (ms : List Message) (s : Node) → At closed r z s → Leaves (At closed r z) (run s ms)
  unfolding run
  rounds-keep [] s p = p
  rounds-keep (m ∷ ms) s p =
      Leaves-bind (At closed r z) (round s m) (λ t. run t ms) (round-keep m s p)
        (λ t q. rounds-keep ms t q)

-- A property that the single effects keep is kept by a run.
pub run-keep :
    {P F : ℕ → ℕ → ℕ → List Effect → Type 0} (closed : Closed P F) (s : Node) (ms : List Message)
    → On P s
    → Leaves (λ t. On P t) (run s ms)
run-keep closed s ms p =
    Leaves-weaken (run s ms) (λ t q. q.0) (rounds-keep closed s.rank s.size ms s (p, refl, refl))
