-- ===== src/Worker/Persist.antt =====
-- The vector clock in the worker's log file is the one in memory after every event.
use distributed_system.Base.{
  ℕ, ◌%◌, ◌^◌, ◌≡◌, refl, Bool, true, false, Option, none, some, List, arith, ◌==◌, if◌then◌else◌,
}
use distributed_system.Msg.{
  Addr, CmdMessage, TxMessage, abort, abort_crash, commit, commit_crash, vote_abort,
}
use distributed_system.Outcome.{Leaves, Leaves-bind, running, undefined}
use distributed_system.Worker.State.{
  Worker, Record, save_vector_time, update_clock, write_event_to_log, write_record_to_log,
}
use distributed_system.Worker.Command.{
  on_abort, on_begin, on_command, on_commit, on_crash, on_new_a, on_new_b, on_new_idstr,
  tell_manager, Input, command, handle_cmd_msg, manager, quiet, wait_reply,
}
use distributed_system.Worker.Send.{send_msg, construct_tx_message}
use distributed_system.Worker.Coordinator.{
  Reply, choose_vote, handle_manager_msg, no_bytes, on_answer, on_decide_abort, on_decide_commit,
  on_join, on_message, on_prepare_commit, poll_error, poll_manager, receive, reply, timed_out,
  waiting_for_coord_response,
}
use distributed_system.Wire.{deserialize_msg, deserialize_worker_msg}

abbrev pub IsPersisted : Worker → Type 0
IsPersisted s = s.saved_clock ≡ s.my_vector_clock

send_msg-IsPersisted :
    (m : TxMessage) (addr : Addr) (s : Worker)
    → IsPersisted s
    → Leaves IsPersisted (send_msg m addr s)
unfolding send_msg
send_msg-IsPersisted m addr s h = ground arith

on_new_a-IsPersisted :
    (m : CmdMessage) (now : ℕ) (s : Worker) → Leaves IsPersisted (on_new_a m now s)
unfolding on_new_a
on_new_a-IsPersisted m now s = ground arith

on_new_b-IsPersisted :
    (m : CmdMessage) (now : ℕ) (s : Worker) → Leaves IsPersisted (on_new_b m now s)
unfolding on_new_b
on_new_b-IsPersisted m now s = ground arith

on_new_idstr-IsPersisted :
    (m : CmdMessage) (now : ℕ) (s : Worker) → Leaves IsPersisted (on_new_idstr m now s)
unfolding on_new_idstr
on_new_idstr-IsPersisted m now s = ground arith

on_crash-IsPersisted : (s : Worker) → Leaves IsPersisted (on_crash s)
unfolding on_crash
on_crash-IsPersisted s = refl

on_abort-IsPersisted : (kind flag : ℕ) (s : Worker) → IsPersisted (on_abort kind flag s)
unfolding on_abort
on_abort-IsPersisted kind flag s = refl

tell_manager-IsPersisted : (m : CmdMessage) (s : Worker) → Leaves IsPersisted (tell_manager m s)
unfolding tell_manager
tell_manager-IsPersisted m s = ground arith

on_commit-IsPersisted :
    (m : CmdMessage) (kind flag : ℕ) (s : Worker) → Leaves IsPersisted (on_commit m kind flag s)
unfolding on_commit
on_commit-IsPersisted m kind flag s =
    tell_manager-IsPersisted (record m { msg_id = commit; tid = s.cur_tid })
      (write_record_to_log r (record s { rec = r; is_crash = flag }))
  where
    r : Record
    r = record s.rec { msg_id = kind; tid = s.cur_tid }

on_begin-IsPersisted :
    (m : CmdMessage) (resolved : Bool) (s : Worker) → Leaves IsPersisted (on_begin m resolved s)
unfolding on_begin
on_begin-IsPersisted m true s =
    tell_manager-IsPersisted m
      (record s { to_addr = record { host = 0; sin_port = m.port % 2 ^ 16 } })
on_begin-IsPersisted m false s = tt

on_command-IsPersisted :
    (m : CmdMessage) (now : ℕ) (resolved : Bool) (s : Worker)
    → IsPersisted s
    → Leaves IsPersisted (on_command m now resolved s)
unfolding on_command
on_command-IsPersisted m now resolved s h = ground (
  arith,
  on_begin-IsPersisted m resolved s,
  on_new_a-IsPersisted m now s,
  on_new_b-IsPersisted m now s,
  on_new_idstr-IsPersisted m now s,
  on_crash-IsPersisted s,
  on_commit-IsPersisted m commit_crash 1 s,
  on_commit-IsPersisted m commit 0 s,
  on_abort-IsPersisted abort_crash 1 s,
  on_abort-IsPersisted abort 0 s,
)

receive-IsPersisted : (m : TxMessage) (addr : Addr) (s : Worker) → IsPersisted (receive m addr s)
unfolding receive
receive-IsPersisted m addr s = refl

on_join-IsPersisted :
    (rec : Record) (m : TxMessage) (addr : Addr) (s : Worker)
    → IsPersisted s
    → IsPersisted (on_join rec m addr s)
unfolding on_join
on_join-IsPersisted rec m addr s h = ground arith

on_prepare_commit-IsPersisted :
    (rec : Record) (m : TxMessage) (addr : Addr) (s : Worker)
    → Leaves IsPersisted (on_prepare_commit rec m addr s)
unfolding on_prepare_commit
on_prepare_commit-IsPersisted rec m addr s =
    Leaves-bind IsPersisted (send_msg out addr (write_event_to_log out true addr.sin_port s2)) _
      (send_msg-IsPersisted out addr (write_event_to_log out true addr.sin_port s2) (ground arith))
      (λ t h. h)
  where
    s1 : Worker
    s1 = save_vector_time (
        update_clock s.node_id
          (write_record_to_log (record rec { msg_id = m.msg_id; tid = m.tid }) s))

    out : TxMessage
    out = construct_tx_message s1 m (choose_vote s1)

    s2 : Worker
    s2 = if choose_vote s1 == vote_abort then record s1 { vote = 0 } else s1

on_message-IsPersisted :
    (rec : Record) (m : TxMessage) (addr : Addr) (s : Worker)
    → IsPersisted s
    → Leaves IsPersisted (on_message rec m addr s)
unfolding on_message on_decide_commit on_decide_abort
on_message-IsPersisted rec m addr s h =
    ground (arith, on_join-IsPersisted rec m addr s h, on_prepare_commit-IsPersisted rec m addr s)

on_answer-IsPersisted :
    (rec : Record) (m : TxMessage) (addr : Addr) (s : Worker) → IsPersisted (on_answer rec m addr s)
unfolding on_answer
on_answer-IsPersisted rec m addr s = ground arith

poll_manager-IsPersisted : (addr : Addr) (s : Worker) → Leaves IsPersisted (poll_manager addr s)
unfolding poll_manager
poll_manager-IsPersisted addr s = ground arith

reply-IsPersisted :
    (rec : Record) (addr : Addr) (r : Reply) (s : Worker)
    → IsPersisted s
    → Leaves IsPersisted (waiting_for_coord_response rec addr r s)
unfolding waiting_for_coord_response
reply-IsPersisted rec addr poll_error s h = h
reply-IsPersisted rec addr timed_out s h = poll_manager-IsPersisted addr s
reply-IsPersisted rec addr (no_bytes from) s h = h
reply-IsPersisted rec addr (reply buffer from) s h = go (deserialize_worker_msg buffer)
  where
    go :
        (o : Option (TxMessage × List ℕ))
        → Leaves IsPersisted
            (elim o [ none ↦ undefined | some (m, rest) ↦ running (on_answer rec m from s) ])
    go none = tt
    go (some (m, rest)) = on_answer-IsPersisted rec m from s

-- From a state of the worker whose clock is in the log file, every event leaves such a state:
-- commands, messages of the manager, replies, timeouts and polls, also where the process
-- leaves, and wherever the behaviour is defined.
pub handle_cmd_msg-IsPersisted :
    (s : Worker) (i : Input) → IsPersisted s → Leaves IsPersisted (handle_cmd_msg s i)
unfolding handle_cmd_msg handle_manager_msg
handle_cmd_msg-IsPersisted s quiet h = h
handle_cmd_msg-IsPersisted s (command buffer now resolved) h = go s.waiting (deserialize_msg buffer)
  where
    go :
        (w : Option Addr) (o : Option (CmdMessage × List ℕ))
        → Leaves IsPersisted (elim w [
          | some addr ↦ running s
          | none ↦ elim o [ none ↦ undefined | some (m, rest) ↦ on_command m now resolved s ]
        ])
    go (some addr) o = h
    go none none = tt
    go none (some (m, rest)) = on_command-IsPersisted m now resolved s h
handle_cmd_msg-IsPersisted s (manager rec buffer addr) h =
    go s.waiting (deserialize_worker_msg buffer)
  where
    go :
        (w : Option Addr) (o : Option (TxMessage × List ℕ))
        → Leaves IsPersisted (elim w [
          | some addr' ↦ running s
          | none ↦ elim o [
            | none ↦ undefined
            | some (m, rest) ↦ on_message rec m addr (receive m addr s)
          ]
        ])
    go (some addr') o = h
    go none none = tt
    go none (some (m, rest)) =
        on_message-IsPersisted rec m addr (receive m addr s) (receive-IsPersisted m addr s)
handle_cmd_msg-IsPersisted s (wait_reply rec r) h = go s.waiting
  where
    go :
        (w : Option Addr)
        → Leaves IsPersisted
            (elim w [ some addr ↦ waiting_for_coord_response rec addr r s | none ↦ running s ])
    go none = h
    go (some addr) = reply-IsPersisted rec addr r s h
