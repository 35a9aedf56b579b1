-- ===== src/Manager/Handle.antt =====
-- The message handler, the timeout and the restart of tmanager.c: sendToAllWorkers,
-- handleWorkerMsg and the two branches of main.
use distributed_system.Outcome.{◌>>=◌, Outcome, exited, running, undefined}
use distributed_system.Base.{
  ℕ, true, false, ◌||◌, Option, none, some, List, [], ◌∷◌, ◌==◌, if◌then◌else◌,
}
use distributed_system.Msg.{
  Addr, TxMessage, begin_fail, begin_success, begintx, commit, commit_req, crash, decide_abort,
  decide_commit, join_fail, join_success, jointx, poll_decision, prepare_commit, vote_abort,
  vote_commit,
}
use distributed_system.Manager.State.{
  Info, Manager, W, construct_message, merge_clock, save_vector_time, send_msg, update_clock,
  write_event_to_log, write_local_event_to_log, write_record_to_log,
}
use distributed_system.Manager.Table.{
  clean_worker_info, failed, get_crash, reset_crash, save_worker_info, saved, set_crash, unset,
}
use distributed_system.Manager.Votes.{collect_vote, waiting_for_votes}
use distributed_system.Wire.{deserialize_worker_msg}

-- `newMsg` is the function's own copy; `is_crash`, which construct_message leaves, never changes.
unfoldable pub send_to_worker : TxMessage → TxMessage → ℕ → W → Manager → Manager
unfolding update_clock save_vector_time write_event_to_log send_msg construct_message
send_to_worker m new_msg kind w s =
    if w.port == 0
    then s
    else (let s1 = save_vector_time (update_clock s) in
        let out = construct_message m new_msg kind w.node_id s1.my_vector_clock in
        send_msg out w.worker_addr (write_event_to_log out true out.node_id s1))

unfoldable pub send_to_workers : TxMessage → TxMessage → ℕ → List W → Manager → Manager
unfolding send_to_worker
send_to_workers m new_msg kind [] s = s
send_to_workers m new_msg kind (w ∷ ws) s =
    send_to_workers m new_msg kind ws (send_to_worker m new_msg kind w s)

-- The loop over the table has no break: every slot with the tid is served.
unfoldable pub send_to_slots : TxMessage → TxMessage → ℕ → List Info → Manager → Manager
unfolding send_to_workers
send_to_slots m new_msg kind [] s = s
send_to_slots m new_msg kind (x ∷ xs) s =
    send_to_slots m new_msg kind xs
      (if x.tid == m.tid then send_to_workers m new_msg kind x.workers s else s)

unfoldable pub send_to_all_workers : TxMessage → TxMessage → ℕ → Manager → Manager
unfolding send_to_slots
send_to_all_workers m new_msg kind s = send_to_slots m new_msg kind s.worker_info s

-- constructMessage into `newMsg` for the sender of `m`, the event and the send.
unfoldable pub answer : TxMessage → Addr → ℕ → Manager → Manager
unfolding construct_message write_event_to_log send_msg
answer m addr kind s =
    let out = construct_message m s.new_msg kind 0 s.my_vector_clock in
    send_msg out addr (write_event_to_log out true out.node_id (record s { new_msg = out }))

-- A record about the message is put into the log.
unfoldable pub log_message : ℕ → TxMessage → Manager → Manager
unfolding write_record_to_log
log_message kind m s =
    write_record_to_log
      (record s { rec = record { msg_id = kind; tid = m.tid; node_id = m.node_id } })

-- A change of the transaction table.
unfoldable pub change_table : (List Info → List Info) → Manager → Manager
change_table f s = record s { worker_info = f s.worker_info }

-- case BEGINTX
unfoldable pub on_begin : TxMessage → Addr → Manager → Outcome Manager
unfolding save_worker_info save_vector_time update_clock answer
on_begin m addr s =
    elim (save_worker_info addr.sin_port m.tid begintx m.node_id addr s.worker_info) [
      | saved infos ↦ running (
          answer m addr begin_success
            (save_vector_time (update_clock (record s { worker_info = infos }))))
      | failed ↦ running (answer m addr begin_fail (save_vector_time (update_clock s)))
      | unset ↦ undefined
    ]

-- case JOINTX
unfoldable pub on_join : TxMessage → Addr → Manager → Outcome Manager
unfolding save_worker_info save_vector_time update_clock answer log_message
on_join m addr s = elim (save_worker_info addr.sin_port m.tid jointx m.node_id addr s.worker_info) [
  | saved infos ↦ running (
      answer m addr join_success
        (log_message jointx m (save_vector_time (update_clock (record s { worker_info = infos })))))
  | failed ↦ running (answer m addr join_fail (save_vector_time (update_clock s)))
  | unset ↦ undefined
]

-- case COMMIT
unfoldable pub on_commit : TxMessage → Manager → Outcome Manager
unfolding log_message send_to_all_workers
on_commit m s =
    let s1 = log_message commit_req m s in
    running (send_to_all_workers m s1.new_msg prepare_commit s1)

-- The end of a decision: the process leaves if the transaction is marked so, before it tells the
-- workers; otherwise they are told and the transaction is forgotten.
unfoldable pub announce : TxMessage → ℕ → Manager → Outcome Manager
unfolding get_crash reset_crash change_table update_clock save_vector_time write_local_event_to_log
    clean_worker_info send_to_all_workers
announce m kind s =
    if get_crash m s.worker_info == 1
    then exited (
        change_table (clean_worker_info m.tid) (
          write_local_event_to_log crash
            (save_vector_time (update_clock (change_table (reset_crash m) s)))))
    else running (change_table (clean_worker_info m.tid) (send_to_all_workers m s.new_msg kind s))

unfoldable pub note_crash : TxMessage → Manager → Manager
unfolding change_table set_crash
note_crash m s = if m.is_crash == 1 then change_table (set_crash m) s else s

-- What follows `decision = collectVote(msg)`.
unfoldable pub on_decision : TxMessage → Addr → Option ℕ → Manager → Outcome Manager
unfolding update_clock save_vector_time answer log_message announce
on_decision m addr none s = undefined
on_decision m addr (some d) s =
    if d == decide_commit
    then (if m.msg_id == poll_decision
        then running (answer m addr decide_commit (save_vector_time (update_clock s)))
        else announce m decide_commit (log_message decide_commit m s))
    else (if d == decide_abort
        then running (answer m addr decide_abort (save_vector_time (update_clock s)))
        else running s)

-- case POLL_DECISION and case VOTE_COMMIT
unfoldable pub on_vote : TxMessage → Addr → Manager → Outcome Manager
unfolding note_crash collect_vote on_decision
on_vote m addr s =
    let s1 = note_crash m s in
    let (infos, decision) = collect_vote m s1.worker_info s1.record_log in
    on_decision m addr decision (record s1 { worker_info = infos })

-- case VOTE_ABORT
unfoldable pub on_vote_abort : TxMessage → Manager → Outcome Manager
unfolding note_crash log_message announce
on_vote_abort m s = announce m decide_abort (log_message decide_abort m (note_crash m s))

unfoldable pub on_message : TxMessage → Addr → Manager → Outcome Manager
unfolding on_begin on_join on_commit on_vote on_vote_abort
on_message m addr s =
    if m.msg_id == begintx
    then on_begin m addr s
    else (if m.msg_id == jointx
        then on_join m addr s
        else (if m.msg_id == commit
            then on_commit m s
            else (if (m.msg_id == poll_decision) || (m.msg_id == vote_commit)
                then on_vote m addr s
                else (if m.msg_id == vote_abort then on_vote_abort m s else running s))))

-- What precedes the switch: the clocks are advanced and merged, and the event is logged.
unfoldable pub receive : TxMessage → Manager → Manager
unfolding update_clock merge_clock save_vector_time write_event_to_log
receive m s =
    write_event_to_log m false m.node_id (save_vector_time (merge_clock m (update_clock s)))

-- `ourMsg` has only its tid set.
unfoldable pub on_timeout : Manager → Manager
unfolding waiting_for_votes write_record_to_log send_to_all_workers change_table clean_worker_info
on_timeout s = elim (waiting_for_votes s.worker_info s.record_log) [
  | none ↦ s
  | some tid ↦
      let s1 =
        write_record_to_log
          (record s { abort_tid = tid; rec = record s.rec { msg_id = decide_abort; tid = tid } }) in
      change_table (clean_worker_info tid)
        (send_to_all_workers (record s.new_msg { tid = tid }) s.new_msg decide_abort s1)
]

-- What poll and recvfrom give: an error, nothing for 10 s, no bytes, or a datagram in the buffer.
pub data Input : Type 0 where
  poll_error : Input
  timeout : Input
  no_bytes : Input
  datagram : List ℕ → Addr → Input

-- One round of the loop of handleWorkerMsg.
unfoldable pub handle_worker_msg : Manager → Input → Outcome Manager
unfolding on_timeout deserialize_worker_msg receive on_message
handle_worker_msg s poll_error = running s
handle_worker_msg s timeout = running (on_timeout s)
handle_worker_msg s no_bytes = running s
handle_worker_msg s (datagram buffer addr) = elim (deserialize_worker_msg buffer) [
  | none ↦ undefined
  | some (m, rest) ↦ on_message m addr (receive m s)
]

unfoldable pub run : Manager → List Input → Outcome Manager
unfolding handle_worker_msg
run s [] = running s
run s (i ∷ is) = handle_worker_msg s i >>= λ t. run t is
