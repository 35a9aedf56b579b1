-- ===== src/Manager/Reach.antt =====
-- The manager over time: rounds of its loop, exits and crashes, and restarts from its log file.
use distributed_system.Base.{
  ℕ, ◌≡◌, refl, subst, inl, inr, Option, none, some, List, [], ◌∷◌, arith, ◌==◌, Bool-cases,
}
use distributed_system.Manager.Closed.{Closed, all_workers-keep}
use distributed_system.Manager.State.{
  CoordRecord, Manager, restore_vector_time, save_vector_time, update_clock,
  write_local_event_to_log,
}
use distributed_system.Manager.Handle.{
  Input, datagram, handle_worker_msg, no_bytes, on_message, poll_error, receive, timeout,
}
use distributed_system.Manager.Runs.{PollFits, message-keep, timeout-keep}
use distributed_system.Manager.Votes.{State, find_state_from_record}
use distributed_system.Msg.{TxMessage, decide_abort, poll_decision, restarted}
use distributed_system.Manager.Restart.{lose_memory, abort_uncommitted, restart}
use distributed_system.Wire.{deserialize_worker_msg}
use distributed_system.Outcome.{exited, running, undefined, Leaves}
use distributed_system.Manager.Table.{find_info}

-- `Fits` is what is asked of the inputs. A crash between two rounds loses the memory; a crash that
-- the manager makes itself does too.
pub data Reach (Fits : Manager → Input → Type 0) (s : Manager) : Manager → Type 0 where
  here : Reach Fits s s
  round :
      {t u : Manager} (i : Input)
      → Reach Fits s t
      → Fits t i
      → handle_worker_msg t i ≡ running u
      → Reach Fits s u
  exit_restart :
      {t u : Manager} (i : Input) (rec : CoordRecord) (out : TxMessage)
      → Reach Fits s t
      → Fits t i
      → handle_worker_msg t i ≡ exited u
      → Reach Fits s (restart rec out u)
  crash_restart :
      {t : Manager} (rec : CoordRecord) (out : TxMessage)
      → Reach Fits s t
      → Reach Fits s (restart rec out t)

-- A datagram that is a poll is about a transaction that the table no longer holds.
abbrev pub PollsFinished : Manager → Input → Type 0
PollsFinished s (datagram buffer addr) =
    (m : TxMessage) (rest : List ℕ)
    → deserialize_worker_msg buffer ≡ some (m, rest)
    → m.msg_id ≡ poll_decision
    → find_info m.tid s.worker_info ≡ none
PollsFinished s _ = Unit

-- Any input.
abbrev pub AnyInput : Manager → Input → Type 0
AnyInput s i = Unit

module _ {May : ℕ → ℕ → List CoordRecord → Type 0} {P : Manager → Type 0}
    (closed : Closed May P) where
  open closed use {forgets, others, ticks, restores, receives, locals}

  abbrev pub InputFits : Manager → Input → Type 0
  InputFits s (datagram buffer addr) =
      (m : TxMessage) (rest : List ℕ)
      → deserialize_worker_msg buffer ≡ some (m, rest)
      → PollFits closed m (receive m s)
  InputFits s _ = Unit

  pub round-keep :
      (s : Manager) (i : Input) → InputFits s i → P s → Leaves P (handle_worker_msg s i)
  unfolding handle_worker_msg
  round-keep s poll_error fits p = p
  round-keep s timeout fits p = timeout-keep closed s p
  round-keep s no_bytes fits p = p
  round-keep s (datagram buffer addr) fits p = go (deserialize_worker_msg buffer) fits
    where
      go :
          (o : Option (TxMessage × List ℕ))
          → ((m : TxMessage) (rest : List ℕ) → o ≡ some (m, rest) → PollFits closed m (receive m s))
          → Leaves P
              (elim o [ none ↦ undefined | some (m, rest) ↦ on_message m addr (receive m s) ])
      go none f = tt
      go (some (m, rest)) f =
          message-keep closed m addr (receive m s) (f m rest refl) (receives m s p)

  aborts-keep : (ks : List State) (s : Manager) → P s → P (abort_uncommitted ks s)
  unfolding abort_uncommitted
  aborts-keep [] s p = p
  aborts-keep (k ∷ ks) s p = elim (Bool-cases (k.is_commit == 0)) [
    | inl open_wait ↦ rw open_wait (
        aborts-keep ks _ (
          all_workers-keep closed (record s.new_msg { tid = k.tid }) s.new_msg decide_abort s
            (others decide_abort k.tid _ (omega arith)) p))
    | inr done ↦ rw done (aborts-keep ks s p)
  ]

  pub restart-keep :
      (rec : CoordRecord) (out : TxMessage) (s : Manager) → P s → P (restart rec out s)
  unfolding restart
  restart-keep rec out s p =
      let s1 =
        write_local_event_to_log restarted
          (save_vector_time (update_clock (restore_vector_time (lose_memory rec out s)))) in
      aborts-keep (find_state_from_record s1.worker_info s1.record_log) s1
        (locals restarted _ (ticks _ (restores _ (forgets rec out s p))))

  pub Reach-keep :
      (Fits : Manager → Input → Type 0) {s t : Manager}
      → ((s : Manager) (i : Input) → Fits s i → InputFits s i)
      → P s
      → Reach Fits s t
      → P t
  Reach-keep Fits ok p here = p
  Reach-keep Fits ok p (round {t} i r f e) =
      subst (Leaves P) e (round-keep t i (ok t i f) (Reach-keep Fits ok p r))
  Reach-keep Fits ok p (exit_restart {t} {u} i rec out r f e) =
      restart-keep rec out u
        (subst (Leaves P) e (round-keep t i (ok t i f) (Reach-keep Fits ok p r)))
  Reach-keep Fits ok p (crash_restart {t} rec out r) =
      restart-keep rec out t (Reach-keep Fits ok p r)
