-- ===== src/Manager/Closed.antt =====
-- One induction over the manager's handler: a predicate that each change of the state keeps is kept
-- by each round of the loop and by a restart.
use distributed_system.Base.{
  ℕ, ◌≡◌, refl, sym, subst, ◌∙◌, ◌≢◌, inl, inr, true, List, [], ◌∷◌, arith, ◌==◌, Bool-cases,
}
use distributed_system.Msg.{Addr, TxMessage, decide_abort, decide_commit}
use distributed_system.Manager.State.{
  CoordRecord, Info, Manager, W, restore_vector_time, save_vector_time, update_clock,
  write_local_event_to_log, write_record_to_log,
}
use distributed_system.Manager.Handle.{
  answer, change_table, log_message, receive, send_to_all_workers, send_to_slots, send_to_worker,
  send_to_workers,
}
use distributed_system.Manager.Restart.{lose_memory}
use distributed_system.Manager.Votes.{is_commit}

-- `May kind tid log` is what must hold of the log where a message of that kind about tid is sent.
pub record Closed (May : ℕ → ℕ → List CoordRecord → Type 0) (P : Manager → Type 0) : Type 0 where
  pub others : (kind tid : ℕ) (log : List CoordRecord) → kind ≢ decide_commit → May kind tid log
  pub commits :
      (tid : ℕ) (log : List CoordRecord) → is_commit tid log ≡ true → May decide_commit tid log
  pub ticks : (s : Manager) → P s → P (save_vector_time (update_clock s))
  pub restores : (s : Manager) → P s → P (restore_vector_time s)
  pub forgets :
      (rec : CoordRecord) (out : TxMessage) (s : Manager) → P s → P (lose_memory rec out s)
  pub receives : (m : TxMessage) (s : Manager) → P s → P (receive m s)
  pub answers :
      (m : TxMessage) (addr : Addr) (kind : ℕ) (s : Manager)
      → May kind m.tid s.record_log
      → P s
      → P (answer m addr kind s)
  pub sends :
      (m out : TxMessage) (kind : ℕ) (w : W) (s : Manager)
      → May kind m.tid s.record_log
      → P s
      → P (send_to_worker m out kind w s)
  pub logs : (kind : ℕ) (m : TxMessage) (s : Manager) → P s → P (log_message kind m s)
  pub locals : (kind : ℕ) (s : Manager) → P s → P (write_local_event_to_log kind s)
  pub tables : (f : List Info → List Info) (s : Manager) → P s → P (change_table f s)
  pub aborts :
      (tid : ℕ) (s : Manager)
      → P s
      → P (
          write_record_to_log
            (record s { abort_tid = tid; rec = record s.rec { msg_id = decide_abort; tid = tid } }))

send_to_worker-record_log :
    (m out : TxMessage) (kind : ℕ) (w : W) (s : Manager)
    → (send_to_worker m out kind w s).record_log ≡ s.record_log
unfolding send_to_worker
send_to_worker-record_log m out kind w s = ground arith

send_to_workers-record_log :
    (m out : TxMessage) (kind : ℕ) (ws : List W) (s : Manager)
    → (send_to_workers m out kind ws s).record_log ≡ s.record_log
unfolding send_to_workers
send_to_workers-record_log m out kind [] s = refl
send_to_workers-record_log m out kind (w ∷ ws) s =
    send_to_workers-record_log m out kind ws _ ∙ send_to_worker-record_log m out kind w s

-- Sending leaves the log of records alone.
send_to_slots-record_log :
    (m out : TxMessage) (kind : ℕ) (xs : List Info) (s : Manager)
    → (send_to_slots m out kind xs s).record_log ≡ s.record_log
unfolding send_to_slots
send_to_slots-record_log m out kind [] s = refl
send_to_slots-record_log m out kind (x ∷ xs) s = ground (
  arith,
  send_to_workers-record_log m out kind x.workers s,
  send_to_slots-record_log m out kind xs s,
  send_to_slots-record_log m out kind xs (send_to_workers m out kind x.workers s),
)

pub send_to_all_workers-record_log :
    (m out : TxMessage) (kind : ℕ) (s : Manager)
    → (send_to_all_workers m out kind s).record_log ≡ s.record_log
unfolding send_to_all_workers
send_to_all_workers-record_log m out kind s = send_to_slots-record_log m out kind s.worker_info s

module _ {May : ℕ → ℕ → List CoordRecord → Type 0} {P : Manager → Type 0}
    (closed : Closed May P) where
  open closed use {
    others, commits, ticks, restores, receives, answers, sends, logs, locals, tables, aborts,
  }

  workers-keep :
      (m out : TxMessage) (kind : ℕ) (ws : List W) (s : Manager)
      → May kind m.tid s.record_log
      → P s
      → P (send_to_workers m out kind ws s)
  unfolding send_to_workers
  workers-keep m out kind [] s a p = p
  workers-keep m out kind (w ∷ ws) s a p =
      workers-keep m out kind ws _
        (subst (May kind m.tid) (sym (send_to_worker-record_log m out kind w s)) a)
        (sends m out kind w s a p)

  slots-keep :
      (m out : TxMessage) (kind : ℕ) (xs : List Info) (s : Manager)
      → May kind m.tid s.record_log
      → P s
      → P (send_to_slots m out kind xs s)
  unfolding send_to_slots
  slots-keep m out kind [] s a p = p
  slots-keep m out kind (x ∷ xs) s a p = elim (Bool-cases (x.tid == m.tid)) [
    | inl mine ↦ rw mine (
        slots-keep m out kind xs _
          (subst (May kind m.tid) (sym (send_to_workers-record_log m out kind x.workers s)) a)
          (workers-keep m out kind x.workers s a p))
    | inr other ↦ rw other (slots-keep m out kind xs s a p)
  ]

  pub all_workers-keep :
      (m out : TxMessage) (kind : ℕ) (s : Manager)
      → May kind m.tid s.record_log
      → P s
      → P (send_to_all_workers m out kind s)
  unfolding send_to_all_workers
  all_workers-keep m out kind s = slots-keep m out kind s.worker_info s
