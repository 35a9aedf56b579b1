-- ===== src/Manager/Keeps.antt =====
-- A predicate that each change of the manager's state keeps is kept by each case of the handler, by
-- the timeout, by the loop and by a restart.
use distributed_system.Base.{
  ℕ, ◌≡◌, ap, inl, inr, true, Option, none, some, List, arith, ◌==◌, ==_iff, Bool-cases,
}
use distributed_system.Msg.{
  Addr, TxMessage, begin_fail, begin_success, begintx, commit_req, crash, decide_abort,
  decide_commit, join_fail, join_success, jointx, poll_decision, prepare_commit,
}
use distributed_system.Manager.Closed.{Closed, all_workers-keep}
use distributed_system.Manager.State.{CoordRecord, Manager, save_vector_time, update_clock}
use distributed_system.Manager.Table.{
  SaveResult, clean_worker_info, failed, get_crash, reset_crash, save_worker_info, saved, set_crash,
  unset,
}
use distributed_system.Manager.Handle.{
  announce, answer, change_table, log_message, note_crash, on_begin, on_commit, on_decision,
  on_join,
}
use distributed_system.Manager.Votes.{is_commit}
use distributed_system.Outcome.{running, undefined, Leaves}

module _ {May : ℕ → ℕ → List CoordRecord → Type 0} {P : Manager → Type 0}
    (closed : Closed May P) where
  open closed use {
    others, commits, ticks, restores, receives, answers, logs, locals, tables, aborts,
  }

  pub begin-keep : (m : TxMessage) (addr : Addr) (s : Manager) → P s → Leaves P (on_begin m addr s)
  unfolding on_begin change_table
  begin-keep m addr s p =
      go (save_worker_info addr.sin_port m.tid begintx m.node_id addr s.worker_info)
    where
      go :
          (r : SaveResult)
          → Leaves P (elim r [
            | saved infos ↦ running (
                answer m addr begin_success
                  (save_vector_time (update_clock (record s { worker_info = infos }))))
            | failed ↦ running (answer m addr begin_fail (save_vector_time (update_clock s)))
            | unset ↦ undefined
          ])
      go (saved infos) =
          answers m addr begin_success _ (others begin_success m.tid _ (omega arith))
            (ticks _ (tables (λ _. infos) s p))
      go failed = answers m addr begin_fail _ (others begin_fail m.tid _ (omega arith)) (ticks s p)
      go unset = tt

  pub join-keep : (m : TxMessage) (addr : Addr) (s : Manager) → P s → Leaves P (on_join m addr s)
  unfolding on_join change_table
  join-keep m addr s p =
      go (save_worker_info addr.sin_port m.tid jointx m.node_id addr s.worker_info)
    where
      go :
          (r : SaveResult)
          → Leaves P (elim r [
            | saved infos ↦ running (
                answer m addr join_success (
                  log_message jointx m
                    (save_vector_time (update_clock (record s { worker_info = infos })))))
            | failed ↦ running (answer m addr join_fail (save_vector_time (update_clock s)))
            | unset ↦ undefined
          ])
      go (saved infos) =
          answers m addr join_success _ (others join_success m.tid _ (omega arith))
            (logs jointx m _ (ticks _ (tables (λ _. infos) s p)))
      go failed = answers m addr join_fail _ (others join_fail m.tid _ (omega arith)) (ticks s p)
      go unset = tt

  pub commit-keep : (m : TxMessage) (s : Manager) → P s → Leaves P (on_commit m s)
  unfolding on_commit
  commit-keep m s p =
      all_workers-keep closed m s1.new_msg prepare_commit s1
        (others prepare_commit m.tid s1.record_log (omega arith)) (logs commit_req m s p)
    where
      s1 : Manager
      s1 = log_message commit_req m s

  pub announce-keep :
      (m : TxMessage) (kind : ℕ) (s : Manager)
      → May kind m.tid s.record_log
      → P s
      → Leaves P (announce m kind s)
  unfolding announce
  announce-keep m kind s a p = elim (Bool-cases (get_crash m s.worker_info == 1)) [
    | inl leaves ↦
        rw leaves (
          tables (clean_worker_info m.tid) _
            (locals crash _ (ticks _ (tables (reset_crash m) s p))))
    | inr stays ↦
        rw stays
          (tables (clean_worker_info m.tid) _ (all_workers-keep closed m s.new_msg kind s a p))
  ]

  pub note_crash-keep : (m : TxMessage) (s : Manager) → P s → P (note_crash m s)
  unfolding note_crash
  note_crash-keep m s p = elim (Bool-cases (m.is_crash == 1)) [
    | inl marks ↦ rw marks (tables (set_crash m) s p)
    | inr plain ↦ rw plain p
  ]

  is_commit-log_message :
      (m : TxMessage) (s : Manager)
      → is_commit m.tid (log_message decide_commit m s).record_log ≡ true
  unfolding is_commit log_message
  is_commit-log_message m s = ground arith

  pub decision-keep :
      (m : TxMessage) (addr : Addr) (d : Option ℕ) (s : Manager)
      → (d ≡ some decide_commit → m.msg_id ≡ poll_decision → May decide_commit m.tid s.record_log)
      → P s
      → Leaves P (on_decision m addr d s)
  unfolding on_decision
  decision-keep m addr none s polled p = tt
  decision-keep m addr (some d) s polled p = elim (Bool-cases (d == decide_commit)) [
    | inl agreed ↦
        let known = (==_iff d decide_commit).0 agreed in
        elim (Bool-cases (m.msg_id == poll_decision)) [
          | inl poll ↦
              rw (agreed, poll)
                (answers m addr decide_commit _
                  (tick_log (polled (ap some known) ((==_iff _ _).0 poll))) (ticks s p))
          | inr vote ↦
              rw (agreed, vote)
                (announce-keep m decide_commit (log_message decide_commit m s)
                  (commits m.tid _ (is_commit-log_message m s)) (logs decide_commit m s p))
        ]
    | inr other ↦ elim (Bool-cases (d == decide_abort)) [
      | inl refused ↦
          rw (other, refused)
            (answers m addr decide_abort _ (others decide_abort m.tid _ (omega arith)) (ticks s p))
      | inr waits ↦ rw (other, waits) p
    ]
  ]
    where
      tick_log :
          May decide_commit m.tid s.record_log
          → May decide_commit m.tid (save_vector_time (update_clock s)).record_log
      tick_log a = unfold save_vector_time update_clock in a
