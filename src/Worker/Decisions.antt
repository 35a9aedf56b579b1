-- ===== src/Worker/Decisions.antt =====
-- The commit records that handleManagerMsg, waitingForCoordResponse, the main loop and the restart of
-- tworker.c write.
use distributed_system.Base.{
  ℕ, ◌≡◌, refl, inl, inr, true, false, Option, none, some, List, arith, ◌==◌, if◌then◌else◌,
  Bool-cases,
}
use distributed_system.Outcome.{Leaves, Leaves-bind, running, undefined}
use distributed_system.Worker.Commits.{
  Logged, other-Logged, commit-Logged, on_command-IsLogged, send_msg-IsLogged,
}
use distributed_system.Msg.{
  TxMessage, decide_commit, Addr, CmdMessage, decide_abort, join_success, poll_decision,
  prepare_commit, vote_abort, vote_commit, abort, restarted,
}
use distributed_system.Worker.Command.{
  Input, command, handle_cmd_msg, manager, on_command, quiet, wait_reply,
}
use distributed_system.Worker.State.{
  Record, Worker, merge_clock, restore_vector_time, save_vector_time, update_clock,
  write_event_to_log, write_local_event_to_log, write_record_to_log,
}
use distributed_system.Worker.Coordinator.{
  Reply, after_vote, choose_vote, handle_manager_msg, no_bytes, on_answer, on_decide_abort,
  on_decide_commit, on_join, on_message, on_prepare_commit, poll_error, poll_manager, receive,
  reply, timed_out, waiting_for_coord_response,
}
use distributed_system.Worker.Restart.{abort_on_restart, lose_memory, restart, is_uncertain}
use distributed_system.Worker.Send.{construct_tx_message, send_msg}
use distributed_system.Wire.{deserialize_msg, deserialize_worker_msg}
use distributed_system.Worker.Record.{find_state_from_record, read_val_from_record}

module _ (Ok : ℕ → Type 0) where
  abbrev IsLogged : Worker → Type 0
  IsLogged s = Logged Ok s.record_log

  on_join-IsLogged :
      (rec : Record) (m : TxMessage) (addr : Addr) (s : Worker)
      → IsLogged s
      → IsLogged (on_join rec m addr s)
  unfolding on_join write_record_to_log
  on_join-IsLogged rec m addr s h = elim (Bool-cases (m.msg_id == join_success)) [
    | inl e ↦ rw e (other-Logged Ok _ s.record_log (omega arith) h)
    | inr e ↦ rw e (other-Logged Ok _ s.record_log (omega arith) h)
  ]

  on_prepare_commit-IsLogged :
      (rec : Record) (m : TxMessage) (addr : Addr) (s : Worker)
      → m.msg_id ≡ prepare_commit
      → IsLogged s
      → Leaves IsLogged (on_prepare_commit rec m addr s)
  unfolding on_prepare_commit after_vote write_record_to_log update_clock save_vector_time
      write_event_to_log
  on_prepare_commit-IsLogged rec m addr s e h =
      Leaves-bind IsLogged (send_msg out addr (write_event_to_log out true addr.sin_port s2)) _
        (send_msg-IsLogged Ok out addr (write_event_to_log out true addr.sin_port s2) voted)
        (λ t k.
          other-Logged Ok (record rec { msg_id = vote_commit; tid = m.tid }) t.record_log
            (omega arith) k)
    where
      r : Record
      r = record rec { msg_id = m.msg_id; tid = m.tid }

      s1 : Worker
      s1 = save_vector_time (update_clock s.node_id (write_record_to_log r s))

      out : TxMessage
      out = construct_tx_message s1 m (choose_vote s1)

      s2 : Worker
      s2 = if choose_vote s1 == vote_abort then record s1 { vote = 0 } else s1

      asked : IsLogged s1
      asked = other-Logged Ok r s.record_log (omega (arith, e)) h

      voted : IsLogged s2
      voted = elim (Bool-cases (choose_vote s1 == vote_abort)) [
        | inl b ↦ rw b asked
        | inr b ↦ rw b asked
      ]

  on_decide_commit-IsLogged :
      (rec : Record) (m : TxMessage) (s : Worker)
      → Ok m.tid
      → IsLogged s
      → IsLogged (on_decide_commit rec m s)
  unfolding on_decide_commit write_record_to_log
  on_decide_commit-IsLogged rec m s ok h =
      commit-Logged Ok (record rec { msg_id = m.msg_id; tid = m.tid }) s.record_log ok h

  on_decide_abort-IsLogged :
      (rec : Record) (m : TxMessage) (s : Worker)
      → m.msg_id ≡ decide_abort
      → IsLogged s
      → IsLogged (on_decide_abort rec m s)
  unfolding on_decide_abort read_val_from_record write_record_to_log
  on_decide_abort-IsLogged rec m s e h =
      other-Logged Ok (record rec { msg_id = m.msg_id; tid = m.tid }) s.record_log
        (omega (arith, e)) h

  -- What a message of the manager may ask for.
  abbrev pub MayDecide : TxMessage → Type 0
  MayDecide m = m.msg_id ≡ decide_commit → Ok m.tid

  on_message-IsLogged :
      (rec : Record) (m : TxMessage) (addr : Addr) (s : Worker)
      → MayDecide m
      → IsLogged s
      → Leaves IsLogged (on_message rec m addr s)
  unfolding on_message
  on_message-IsLogged rec m addr s ok h = ground (
    arith,
    on_join-IsLogged rec m addr s h,
    λ (e : m.msg_id ≡ decide_commit). on_decide_commit-IsLogged rec m s (ok e) h,
    λ (e : m.msg_id ≡ prepare_commit). on_prepare_commit-IsLogged rec m addr s e h,
    λ (e : m.msg_id ≡ decide_abort). on_decide_abort-IsLogged rec m s e h,
  )

  on_answer-IsLogged :
      (rec : Record) (m : TxMessage) (addr : Addr) (s : Worker)
      → MayDecide m
      → IsLogged s
      → IsLogged (on_answer rec m addr s)
  unfolding on_answer receive merge_clock update_clock save_vector_time write_event_to_log
  on_answer-IsLogged rec m addr s ok h =
      let s1 = record (receive m addr s) { waiting = none } in
      ground (
        arith,
        λ (e : m.msg_id ≡ decide_commit). on_decide_commit-IsLogged rec m s1 (ok e) h,
        λ (e : m.msg_id ≡ decide_abort). on_decide_abort-IsLogged rec m s1 e h,
      )

  poll_manager-IsLogged :
      (addr : Addr) (s : Worker) → IsLogged s → Leaves IsLogged (poll_manager addr s)
  unfolding poll_manager update_clock save_vector_time write_event_to_log
  poll_manager-IsLogged addr s h =
      let s1 =
        save_vector_time (update_clock s.node_id (record s { first_time_waiting = false })) in
      let our_msg = record s1.new_msg { tid = s1.cur_tid; node_id = s1.node_id } in
      let out = construct_tx_message s1 our_msg poll_decision in
      send_msg-IsLogged Ok out addr (write_event_to_log out true addr.sin_port s1) h

  -- A datagram, if it is a message that the manager may have sent.
  abbrev pub MayRead : List ℕ → Type 0
  MayRead buffer =
      (m : TxMessage) (rest : List ℕ) → deserialize_worker_msg buffer ≡ some (m, rest) → MayDecide m

  -- What arrives on the manager's socket.
  unfoldable pub MayArrive : Input → Type 0
  MayArrive (manager rec buffer addr) = MayRead buffer
  MayArrive (wait_reply rec (reply buffer addr)) = MayRead buffer
  MayArrive _ = Unit

  reply-IsLogged :
      (rec : Record) (addr : Addr) (r : Reply) (s : Worker)
      → MayArrive (wait_reply rec r)
      → IsLogged s
      → Leaves IsLogged (waiting_for_coord_response rec addr r s)
  unfolding waiting_for_coord_response MayArrive
  reply-IsLogged rec addr poll_error s f h = h
  reply-IsLogged rec addr timed_out s f h = poll_manager-IsLogged addr s h
  reply-IsLogged rec addr (no_bytes from) s f h = h
  reply-IsLogged rec addr (reply buffer from) s f h = go (deserialize_worker_msg buffer) f
    where
      go :
          (o : Option (TxMessage × List ℕ))
          → ((m : TxMessage) (rest : List ℕ) → o ≡ some (m, rest) → MayDecide m)
          → Leaves IsLogged
              (elim o [ none ↦ undefined | some (m, rest) ↦ running (on_answer rec m from s) ])
      go none f = tt
      go (some (m, rest)) f = on_answer-IsLogged rec m from s (f m rest refl) h

  receive-IsLogged :
      (m : TxMessage) (addr : Addr) (s : Worker) → IsLogged s → IsLogged (receive m addr s)
  unfolding receive merge_clock update_clock save_vector_time write_event_to_log
  receive-IsLogged m addr s h = h

  pub handle_cmd_msg-IsLogged :
      (s : Worker) (i : Input) → MayArrive i → IsLogged s → Leaves IsLogged (handle_cmd_msg s i)
  unfolding handle_cmd_msg handle_manager_msg MayArrive
  handle_cmd_msg-IsLogged s quiet f h = h
  handle_cmd_msg-IsLogged s (command buffer now resolved) f h =
      go s.waiting (deserialize_msg buffer)
    where
      go :
          (w : Option Addr) (o : Option (CmdMessage × List ℕ))
          → Leaves IsLogged (elim w [
            | some addr ↦ running s
            | none ↦ elim o [ none ↦ undefined | some (m, rest) ↦ on_command m now resolved s ]
          ])
      go (some addr) o = h
      go none none = tt
      go none (some (m, rest)) = on_command-IsLogged Ok m now resolved s h
  handle_cmd_msg-IsLogged s (manager rec buffer addr) f h =
      go s.waiting (deserialize_worker_msg buffer) f
    where
      go :
          (w : Option Addr) (o : Option (TxMessage × List ℕ))
          → ((m : TxMessage) (rest : List ℕ) → o ≡ some (m, rest) → MayDecide m)
          → Leaves IsLogged (elim w [
            | some addr' ↦ running s
            | none ↦ elim o [
              | none ↦ undefined
              | some (m, rest) ↦ on_message rec m addr (receive m addr s)
            ]
          ])
      go (some addr') o f = h
      go none none f = tt
      go none (some (m, rest)) f =
          on_message-IsLogged rec m addr (receive m addr s) (f m rest refl)
            (receive-IsLogged m addr s h)
  handle_cmd_msg-IsLogged s (wait_reply rec r) f h = go s.waiting
    where
      go :
          (w : Option Addr)
          → Leaves IsLogged
              (elim w [ some addr ↦ waiting_for_coord_response rec addr r s | none ↦ running s ])
      go none = h
      go (some addr) = reply-IsLogged rec addr r s f h

  pub restart-IsLogged :
      (addr : Addr) (out : TxMessage) (rec : Record) (s : Worker)
      → IsLogged s
      → IsLogged (restart addr out rec s)
  unfolding restart lose_memory restore_vector_time update_clock save_vector_time
      write_local_event_to_log find_state_from_record abort_on_restart read_val_from_record
      write_record_to_log
  restart-IsLogged addr out rec s h =
      let s1 = restore_vector_time (lose_memory addr out rec s) in
      let s2 = write_local_event_to_log restarted (save_vector_time (update_clock s1.node_id s1)) in
      let (state, s3) = find_state_from_record s2 in
      elim (Bool-cases (is_uncertain state)) [
        | inl b ↦ rw b h
        | inr b ↦ rw b (
            other-Logged Ok (record rec { msg_id = abort; tid = s3.cur_tid }) s.record_log
              (omega arith) h)
      ]
