-- ===== src/Worker/Coordinator.antt =====
-- Messages of the transaction manager: handleManagerMsg and waitingForCoordResponse of tworker.c.
use distributed_system.Base.{ℕ, true, false, ◌||◌, none, some, List, ◌==◌, if◌then◌else◌}
use distributed_system.Outcome.{◌>>=◌, Outcome, running, undefined}
use distributed_system.Msg.{
  Addr, TxMessage, decide_abort, decide_commit, join_fail, join_success, jointx, poll_decision,
  prepare_commit, vote_abort, vote_commit,
}
use distributed_system.Worker.State.{
  Record, Worker, merge_clock, save_vector_time, update_clock, write_event_to_log,
  write_record_to_log,
}
use distributed_system.Worker.Send.{construct_tx_message, send_msg}
use distributed_system.Wire.{deserialize_worker_msg}
use distributed_system.Worker.Record.{is_local_abort, read_val_from_record}

-- The local `rec` of these functions has no value at first: what it holds then is an argument.

-- What both functions do first with a message received.
unfoldable pub receive : TxMessage → Addr → Worker → Worker
unfolding merge_clock update_clock save_vector_time write_event_to_log
receive m addr s =
    write_event_to_log m false addr.sin_port
      (save_vector_time (update_clock s.node_id (merge_clock m s)))

-- A decision: the record is written and the transaction has ended; an abort restores the object.
unfoldable pub on_decide_commit : Record → TxMessage → Worker → Worker
unfolding write_record_to_log
on_decide_commit rec m s =
    record (write_record_to_log (record rec { msg_id = m.msg_id; tid = m.tid }) s) {
      is_tx_run = false;
    }

unfoldable pub on_decide_abort : Record → TxMessage → Worker → Worker
unfolding write_record_to_log read_val_from_record
on_decide_abort rec m s =
    record (write_record_to_log (record rec { msg_id = m.msg_id; tid = m.tid })
      (read_val_from_record s)) { is_tx_run = false }

-- case JOIN_FAIL and case JOIN_SUCCESS: a record of a join is written for both.
unfoldable pub on_join : Record → TxMessage → Addr → Worker → Worker
unfolding write_record_to_log
on_join rec m addr s =
    let s1 =
      if m.msg_id == join_success
      then record s { cur_tid = m.tid; is_tx_run = true; manager_addr = addr }
      else s in
    write_record_to_log
      (record rec {
        msg_id = jointx;
        tid = m.tid;
        vector_clock = s1.obj.vector_clock;
        last_update_time = s1.obj.last_update_time;
      })
      s1

-- The vote: abort if the transaction was aborted here, or if a command has asked for it.
unfoldable pub choose_vote : Worker → ℕ
unfolding is_local_abort
choose_vote s =
    if is_local_abort s.cur_tid s.record_log || (s.vote == vote_abort)
    then vote_abort
    else vote_commit

-- After the vote is sent its record says VOTE_COMMIT, whatever the vote was; then the worker waits.
unfoldable pub after_vote : Record → TxMessage → Addr → Worker → Outcome Worker
unfolding write_record_to_log
after_vote rec m addr s =
    running (record (write_record_to_log (record rec { msg_id = vote_commit; tid = m.tid }) s) {
      first_time_waiting = true;
      waiting = some addr;
    })

-- case PREPARE_COMMIT
unfoldable pub on_prepare_commit : Record → TxMessage → Addr → Worker → Outcome Worker
unfolding write_record_to_log update_clock save_vector_time choose_vote construct_tx_message
    write_event_to_log send_msg after_vote
on_prepare_commit rec m addr s =
    let s1 = save_vector_time (
      update_clock s.node_id
        (write_record_to_log (record rec { msg_id = m.msg_id; tid = m.tid }) s)) in
    let kind = choose_vote s1 in
    let out = construct_tx_message s1 m kind in
    let s2 = if kind == vote_abort then record s1 { vote = 0 } else s1 in
    send_msg out addr (write_event_to_log out true addr.sin_port s2) >>= λ t.
    after_vote (record rec { msg_id = m.msg_id; tid = m.tid }) m addr t

unfoldable pub on_message : Record → TxMessage → Addr → Worker → Outcome Worker
on_message rec m addr s =
    if (m.msg_id == join_fail) || (m.msg_id == join_success)
    then running (on_join rec m addr s)
    else (if m.msg_id == decide_commit
        then running (on_decide_commit rec m s)
        else (if m.msg_id == prepare_commit
            then on_prepare_commit rec m addr s
            else (if m.msg_id == decide_abort
                then running (on_decide_abort rec m s)
                else running s)))

-- handleManagerMsg, for a datagram.
unfoldable pub handle_manager_msg : Record → List ℕ → Addr → Worker → Outcome Worker
handle_manager_msg rec buffer addr s = elim (deserialize_worker_msg buffer) [
  | none ↦ undefined
  | some (m, rest) ↦ on_message rec m addr (receive m addr s)
]

-- The answer that ends the wait, whatever it is.
unfoldable pub on_answer : Record → TxMessage → Addr → Worker → Worker
unfolding receive on_decide_commit on_decide_abort
on_answer rec m addr s =
    let s1 = record (receive m addr s) { waiting = none } in
    if m.msg_id == decide_commit
    then on_decide_commit rec m s1
    else (if m.msg_id == decide_abort then on_decide_abort rec m s1 else s1)

-- The wait times out: the manager is asked for its decision, in the name of the own node. Of
-- `ourMsg` only the tid and the node id are set, and only they are read.
unfoldable pub poll_manager : Addr → Worker → Outcome Worker
unfolding construct_tx_message update_clock save_vector_time write_event_to_log send_msg
poll_manager addr s =
    let s1 = save_vector_time (update_clock s.node_id (record s { first_time_waiting = false })) in
    let our_msg = record s1.new_msg { tid = s1.cur_tid; node_id = s1.node_id } in
    let out = construct_tx_message s1 our_msg poll_decision in
    send_msg out addr (write_event_to_log out true addr.sin_port s1)

-- What poll and recvfrom give on the manager's socket while the worker waits.
pub data Reply : Type 0 where
  poll_error : Reply
  timed_out : Reply
  no_bytes : Addr → Reply
  reply : List ℕ → Addr → Reply

-- One round of the loop of waitingForCoordResponse. recvfrom overwrites managerAddr, the local one,
-- also where the datagram is empty.
unfoldable pub waiting_for_coord_response : Record → Addr → Reply → Worker → Outcome Worker
waiting_for_coord_response rec addr poll_error s = running s
waiting_for_coord_response rec addr timed_out s = poll_manager addr s
waiting_for_coord_response rec addr (no_bytes from) s = running (record s { waiting = some from })
waiting_for_coord_response rec addr (reply buffer from) s = elim (deserialize_worker_msg buffer) [
  | none ↦ undefined
  | some (m, rest) ↦ running (on_answer rec m from s)
]
