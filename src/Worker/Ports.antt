-- ===== src/Worker/Ports.antt =====
-- The port in the log file of tworker.c over the commands and the messages of the manager.
use distributed_system.Base.{
  ℕ, ◌≡◌, Bool, true, false, Option, none, some, List, arith, ◌==◌, if◌then◌else◌,
}
use distributed_system.Outcome.{Leaves, Leaves-bind, running, undefined}
use distributed_system.Msg.{
  Addr, CmdMessage, TxMessage, abort, abort_crash, commit, commit_crash, vote_abort,
}
use distributed_system.Worker.State.{
  Worker, save_vector_time, update_clock, write_event_to_log, write_local_event_to_log,
  write_record_to_log, Record, merge_clock, restore_vector_time,
}
use distributed_system.Worker.Send.{crash_now, send_msg, construct_tx_message}
use distributed_system.Worker.Command.{
  local_event_now, log_old_id, log_old_value, on_abort, on_crash, on_new_a, on_new_b, on_new_idstr,
  stamp_object, tell_manager, on_begin, on_commit, Input, command, handle_cmd_msg, manager,
  on_command, quiet, wait_reply,
}
use distributed_system.Worker.Record.{read_val_from_record, find_state_from_record}
use distributed_system.Worker.Coordinator.{
  Reply, after_vote, choose_vote, handle_manager_msg, no_bytes, on_answer, on_decide_abort,
  on_decide_commit, on_join, on_message, on_prepare_commit, poll_error, poll_manager, receive,
  reply, timed_out, waiting_for_coord_response,
}
use distributed_system.Worker.Restart.{restart, abort_on_restart, lose_memory}
use distributed_system.Wire.{deserialize_worker_msg, deserialize_msg}

module _ (p : ℕ) where
  abbrev pub HasPort : Worker → Type 0
  HasPort s = s.sys_port ≡ p

  send_msg-HasPort :
      (m : TxMessage) (addr : Addr) (s : Worker) → HasPort s → Leaves HasPort (send_msg m addr s)
  unfolding send_msg crash_now
  send_msg-HasPort m addr s h = ground arith

  read_val_from_record-HasPort : (s : Worker) → HasPort s → HasPort (read_val_from_record s)
  unfolding read_val_from_record
  read_val_from_record-HasPort s h = h

  on_new_a-HasPort :
      (m : CmdMessage) (now : ℕ) (s : Worker) → HasPort s → Leaves HasPort (on_new_a m now s)
  unfolding on_new_a stamp_object log_old_value local_event_now update_clock save_vector_time
      write_local_event_to_log write_record_to_log
  on_new_a-HasPort m now s h = ground arith

  on_new_b-HasPort :
      (m : CmdMessage) (now : ℕ) (s : Worker) → HasPort s → Leaves HasPort (on_new_b m now s)
  unfolding on_new_b stamp_object log_old_value local_event_now update_clock save_vector_time
      write_local_event_to_log write_record_to_log
  on_new_b-HasPort m now s h = ground arith

  on_new_idstr-HasPort :
      (m : CmdMessage) (now : ℕ) (s : Worker) → HasPort s → Leaves HasPort (on_new_idstr m now s)
  unfolding on_new_idstr stamp_object log_old_id local_event_now update_clock save_vector_time
      write_local_event_to_log write_record_to_log
  on_new_idstr-HasPort m now s h = ground arith

  on_crash-HasPort : (s : Worker) → HasPort s → Leaves HasPort (on_crash s)
  unfolding on_crash local_event_now update_clock save_vector_time write_local_event_to_log
  on_crash-HasPort s h = h

  on_abort-HasPort : (kind flag : ℕ) (s : Worker) → HasPort s → HasPort (on_abort kind flag s)
  unfolding on_abort read_val_from_record update_clock save_vector_time write_local_event_to_log
      write_record_to_log
  on_abort-HasPort kind flag s h = h

  on_commit-HasPort :
      (m : CmdMessage) (kind flag : ℕ) (s : Worker)
      → HasPort s
      → Leaves HasPort (on_commit m kind flag s)
  unfolding on_commit tell_manager send_msg crash_now update_clock save_vector_time
      write_event_to_log write_record_to_log
  on_commit-HasPort m kind flag s h = ground arith

  on_begin-HasPort :
      (m : CmdMessage) (resolved : Bool) (s : Worker)
      → HasPort s
      → Leaves HasPort (on_begin m resolved s)
  unfolding on_begin tell_manager send_msg crash_now update_clock save_vector_time
      write_event_to_log
  on_begin-HasPort m true s h = ground arith
  on_begin-HasPort m false s h = tt

  on_command-HasPort :
      (m : CmdMessage) (now : ℕ) (resolved : Bool) (s : Worker)
      → HasPort s
      → Leaves HasPort (on_command m now resolved s)
  unfolding on_command
  on_command-HasPort m now resolved s h = ground (
    arith,
    on_begin-HasPort m resolved s h,
    on_new_a-HasPort m now s h,
    on_new_b-HasPort m now s h,
    on_new_idstr-HasPort m now s h,
    on_crash-HasPort s h,
    on_commit-HasPort m commit_crash 1 s h,
    on_commit-HasPort m commit 0 s h,
    on_abort-HasPort abort_crash 1 s h,
    on_abort-HasPort abort 0 s h,
  )

  on_prepare_commit-HasPort :
      (rec : Record) (m : TxMessage) (addr : Addr) (s : Worker)
      → HasPort s
      → Leaves HasPort (on_prepare_commit rec m addr s)
  unfolding on_prepare_commit after_vote write_record_to_log update_clock save_vector_time
      write_event_to_log
  on_prepare_commit-HasPort rec m addr s h =
      Leaves-bind HasPort (send_msg out addr (write_event_to_log out true addr.sin_port s2)) _
        (send_msg-HasPort out addr (write_event_to_log out true addr.sin_port s2) (ground arith))
        (λ t k. k)
    where
      s1 : Worker
      s1 = save_vector_time (
          update_clock s.node_id
            (write_record_to_log (record rec { msg_id = m.msg_id; tid = m.tid }) s))

      out : TxMessage
      out = construct_tx_message s1 m (choose_vote s1)

      s2 : Worker
      s2 = if choose_vote s1 == vote_abort then record s1 { vote = 0 } else s1

  on_message-HasPort :
      (rec : Record) (m : TxMessage) (addr : Addr) (s : Worker)
      → HasPort s
      → Leaves HasPort (on_message rec m addr s)
  unfolding on_message on_join on_decide_commit on_decide_abort write_record_to_log
      read_val_from_record
  on_message-HasPort rec m addr s h = ground (arith, on_prepare_commit-HasPort rec m addr s h)

  on_answer-HasPort :
      (rec : Record) (m : TxMessage) (addr : Addr) (s : Worker)
      → HasPort s
      → HasPort (on_answer rec m addr s)
  unfolding on_answer receive merge_clock update_clock save_vector_time write_event_to_log
      on_decide_commit on_decide_abort write_record_to_log read_val_from_record
  on_answer-HasPort rec m addr s h = ground arith

  poll_manager-HasPort :
      (addr : Addr) (s : Worker) → HasPort s → Leaves HasPort (poll_manager addr s)
  unfolding poll_manager send_msg crash_now update_clock save_vector_time write_event_to_log
  poll_manager-HasPort addr s h = ground arith

  reply-HasPort :
      (rec : Record) (addr : Addr) (r : Reply) (s : Worker)
      → HasPort s
      → Leaves HasPort (waiting_for_coord_response rec addr r s)
  unfolding waiting_for_coord_response
  reply-HasPort rec addr poll_error s h = h
  reply-HasPort rec addr timed_out s h = poll_manager-HasPort addr s h
  reply-HasPort rec addr (no_bytes from) s h = h
  reply-HasPort rec addr (reply buffer from) s h = go (deserialize_worker_msg buffer)
    where
      go :
          (o : Option (TxMessage × List ℕ))
          → Leaves HasPort
              (elim o [ none ↦ undefined | some (m, rest) ↦ running (on_answer rec m from s) ])
      go none = tt
      go (some (m, rest)) = on_answer-HasPort rec m from s h

  pub handle_cmd_msg-HasPort :
      (s : Worker) (i : Input) → HasPort s → Leaves HasPort (handle_cmd_msg s i)
  unfolding handle_cmd_msg handle_manager_msg receive merge_clock update_clock save_vector_time
      write_event_to_log
  handle_cmd_msg-HasPort s quiet h = h
  handle_cmd_msg-HasPort s (command buffer now resolved) h = go s.waiting (deserialize_msg buffer)
    where
      go :
          (w : Option Addr) (o : Option (CmdMessage × List ℕ))
          → Leaves HasPort (elim w [
            | some addr ↦ running s
            | none ↦ elim o [ none ↦ undefined | some (m, rest) ↦ on_command m now resolved s ]
          ])
      go (some addr) o = h
      go none none = tt
      go none (some (m, rest)) = on_command-HasPort m now resolved s h
  handle_cmd_msg-HasPort s (manager rec buffer addr) h =
      go s.waiting (deserialize_worker_msg buffer)
    where
      go :
          (w : Option Addr) (o : Option (TxMessage × List ℕ))
          → Leaves HasPort (elim w [
            | some addr' ↦ running s
            | none ↦ elim o [
              | none ↦ undefined
              | some (m, rest) ↦ on_message rec m addr (receive m addr s)
            ]
          ])
      go (some addr') o = h
      go none none = tt
      go none (some (m, rest)) = on_message-HasPort rec m addr (receive m addr s) h
  handle_cmd_msg-HasPort s (wait_reply rec r) h = go s.waiting
    where
      go :
          (w : Option Addr)
          → Leaves HasPort
              (elim w [ some addr ↦ waiting_for_coord_response rec addr r s | none ↦ running s ])
      go none = h
      go (some addr) = reply-HasPort rec addr r s h

  pub restart-HasPort :
      (addr : Addr) (out : TxMessage) (rec : Record) (s : Worker)
      → HasPort s
      → HasPort (restart addr out rec s)
  unfolding restart lose_memory restore_vector_time update_clock save_vector_time
      write_local_event_to_log find_state_from_record abort_on_restart read_val_from_record
      write_record_to_log
  restart-HasPort addr out rec s h = ground arith
