-- ===== src/Worker/Command.antt =====
-- Commands from the command program: handleCmdMsg of tworker.c, and the loop that serves both
-- sockets.
use distributed_system.Base.{
  ℕ, zero, suc, ◌%◌, ◌^◌, Bool, true, ◌||◌, Option, none, some, List, [], ◌∷◌, ◌==◌, if◌then◌else◌,
}
use distributed_system.Outcome.{Outcome, exited, running, undefined}
use distributed_system.Msg.{
  Addr, CmdMessage, abort, abort_crash, begintx, commit, commit_crash, crash, delay_response,
  jointx, new_a, new_b, new_idstr, vote_abort,
}
use distributed_system.Clock.{Clock, my_index}
use distributed_system.Worker.State.{
  Record, Worker, save_vector_time, update_clock, write_event_to_log, write_local_event_to_log,
  write_record_to_log,
}
use distributed_system.Worker.Coordinator.{Reply, handle_manager_msg, waiting_for_coord_response}
use distributed_system.Wire.{deserialize_msg}
use distributed_system.Worker.Record.{read_val_from_record}
use distributed_system.Worker.Send.{construct_message, send_msg}

-- The text of a char array: its bytes in front of the first null byte, none if there is none.
unfoldable pub c_string : List ℕ → Option (List ℕ)
c_string [] = none
c_string (c ∷ cs) = elim (c_string cs) [
  | none ↦ if c == 0 then some [] else none
  | some t ↦ if c == 0 then some [] else some (c ∷ t)
]

-- `objData->vectorClock[myTime].time = myVectorClock[myTime].time`, at the slot that
-- updateMyVectorClock returned; none if that is past the end of an array.
unfoldable pub copy_time : ℕ → List Clock → List Clock → Option (List Clock)
copy_time i [] from = none
copy_time i (c ∷ vc) [] = none
copy_time zero (c ∷ vc) (d ∷ from) = some (record c { time = d.time } ∷ vc)
copy_time (suc i) (c ∷ vc) (d ∷ from) = elim (copy_time i vc from) [
  | none ↦ none
  | some vc' ↦ some (c ∷ vc')
]

-- The record of an old value, written while a transaction runs.
unfoldable pub log_old_value : ℕ → ℕ → Worker → Worker
unfolding write_record_to_log
log_old_value kind value s =
    if s.is_tx_run
    then (let r = record s.rec { msg_id = kind; tid = s.cur_tid; old_value = value } in
        write_record_to_log r (record s { rec = r }))
    else s

unfoldable pub log_old_id : List ℕ → Worker → Worker
unfolding write_record_to_log
log_old_id text s =
    if s.is_tx_run
    then (let r = record s.rec { msg_id = new_idstr; tid = s.cur_tid; old_id = text } in
        write_record_to_log r (record s { rec = r }))
    else s

-- The clock is advanced and saved, and the local event is logged.
unfoldable pub local_event_now : ℕ → Worker → Worker
unfolding update_clock save_vector_time write_local_event_to_log
local_event_now kind s = write_local_event_to_log kind (save_vector_time (update_clock s.node_id s))

-- The object's own time becomes that of the worker, and the time of day is noted.
unfoldable pub stamp_object : ℕ → ℕ → Worker → Outcome Worker
unfolding copy_time
stamp_object my_time now s = elim (copy_time my_time s.obj.vector_clock s.my_vector_clock) [
  | none ↦ undefined
  | some vc ↦
      running (record s { obj = record s.obj { last_update_time = now; vector_clock = vc } })
]

-- case NEW_A and case NEW_B
unfoldable pub on_new_a : CmdMessage → ℕ → Worker → Outcome Worker
unfolding log_old_value local_event_now stamp_object my_index
on_new_a m now s =
    let s1 = log_old_value new_a s.obj.a s in
    let s2 = record s1 { obj = record s1.obj { a = m.new_value } } in
    stamp_object (my_index s2.node_id s2.my_vector_clock) now (local_event_now new_a s2)

unfoldable pub on_new_b : CmdMessage → ℕ → Worker → Outcome Worker
unfolding log_old_value local_event_now stamp_object my_index
on_new_b m now s =
    let s1 = log_old_value new_b s.obj.b s in
    let s2 = record s1 { obj = record s1.obj { b = m.new_value } } in
    stamp_object (my_index s2.node_id s2.my_vector_clock) now (local_event_now new_b s2)

-- case NEW_IDSTR: strcpy from an array with no null byte is undefined. The object's clock stays.
unfoldable pub on_new_idstr : CmdMessage → ℕ → Worker → Outcome Worker
unfolding c_string log_old_id local_event_now
on_new_idstr m now s = elim (c_string m.str_data) [
  | none ↦ undefined
  | some text ↦
      let s1 = log_old_id s.obj.id_string s in
      let s2 = local_event_now new_idstr (record s1 { obj = record s1.obj { id_string = text } }) in
      running (record s2 { obj = record s2.obj { last_update_time = now } })
]

-- case CRASH
unfoldable pub on_crash : Worker → Outcome Worker
unfolding local_event_now
on_crash s = exited (local_event_now crash s)

-- case ABORT and case ABORT_CRASH: the object is restored, and the record says ABORT for both.
unfoldable pub on_abort : ℕ → ℕ → Worker → Worker
unfolding read_val_from_record update_clock write_local_event_to_log save_vector_time
    write_record_to_log
on_abort kind crash_flag s =
    let s0 = update_clock s.node_id (read_val_from_record (record s { is_crash = crash_flag })) in
    let s1 = save_vector_time (write_local_event_to_log kind s0) in
    let r = record s1.rec { msg_id = abort; tid = s1.cur_tid } in
    write_record_to_log r (record s1 { rec = r })

-- The message for the manager, in the name of the own node, and the send.
unfoldable pub tell_manager : CmdMessage → Worker → Outcome Worker
unfolding update_clock save_vector_time construct_message write_event_to_log send_msg
tell_manager m s =
    let s1 = save_vector_time (update_clock s.node_id s) in
    let out = construct_message s1 m s1.new_msg 0 in
    send_msg out s.to_addr
      (write_event_to_log out true s.to_addr.sin_port (record s1 { new_msg = out }))

-- case COMMIT and case COMMIT_CRASH of both switches: the record, and a COMMIT to the manager.
unfoldable pub on_commit : CmdMessage → ℕ → ℕ → Worker → Outcome Worker
unfolding write_record_to_log tell_manager
on_commit m kind crash_flag s =
    let r = record s.rec { msg_id = kind; tid = s.cur_tid } in
    tell_manager (record m { msg_id = commit; tid = s.cur_tid })
      (write_record_to_log r (record s { rec = r; is_crash = crash_flag }))

-- case BEGINTX and case JOINTX of both switches. The host name is looked up, a name that is not
-- found is an invalid pointer, and memcpy copies out of the new address, which stays 0.
unfoldable pub on_begin : CmdMessage → Bool → Worker → Outcome Worker
unfolding tell_manager
on_begin m resolved s =
    if resolved
    then tell_manager m (record s { to_addr = record { host = 0; sin_port = m.port % 2 ^ 16 } })
    else undefined

unfoldable pub on_command : CmdMessage → ℕ → Bool → Worker → Outcome Worker
on_command m now resolved s =
    if (m.msg_id == begintx) || (m.msg_id == jointx)
    then on_begin m resolved s
    else (if m.msg_id == new_a
        then on_new_a m now s
        else (if m.msg_id == new_b
            then on_new_b m now s
            else (if m.msg_id == new_idstr
                then on_new_idstr m now s
                else (if m.msg_id == delay_response
                    then running (record s { delay = m.delay })
                    else (if m.msg_id == crash
                        then on_crash s
                        else (if m.msg_id == commit_crash
                            then on_commit m commit_crash 1 s
                            else (if m.msg_id == commit
                                then on_commit m commit 0 s
                                else (if m.msg_id == abort_crash
                                    then running (on_abort abort_crash 1 s)
                                    else (if m.msg_id == abort
                                        then running (on_abort abort 0 s)
                                        else (if m.msg_id == vote_abort
                                            then running (record s { vote = vote_abort })
                                            else running s))))))))))

-- What poll gives the worker: a datagram with a command (with the time of day, and whether its host
-- name is found), a datagram of the manager, or a reply while it waits.
pub data Input : Type 0 where
  quiet : Input
  command : List ℕ → ℕ → Bool → Input
  manager : Record → List ℕ → Addr → Input
  wait_reply : Record → Reply → Input

-- One event. A worker that waits reads nothing but replies; one that does not wait has none.
unfoldable pub handle_cmd_msg : Worker → Input → Outcome Worker
handle_cmd_msg s quiet = running s
handle_cmd_msg s (command buffer now resolved) = elim s.waiting [
  | some addr ↦ running s
  | none ↦ elim (deserialize_msg buffer) [
    | none ↦ undefined
    | some (m, rest) ↦ on_command m now resolved s
  ]
]
handle_cmd_msg s (manager rec buffer addr) = elim s.waiting [
  | some addr' ↦ running s
  | none ↦ handle_manager_msg rec buffer addr s
]
handle_cmd_msg s (wait_reply rec r) = elim s.waiting [
  | some addr ↦ waiting_for_coord_response rec addr r s
  | none ↦ running s
]
