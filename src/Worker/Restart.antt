-- ===== src/Worker/Restart.antt =====
-- The two branches of main in tworker.c: a first start, and a restart that finds a log file.
use distributed_system.Base.{
  ℕ, Bool, false, ◌||◌, none, some, [], ◌∷◌, ◌==◌, if◌then◌else◌, replicate,
}
use distributed_system.Msg.{
  Addr, TxMessage, abort, decide_abort, decide_commit, prepare_commit, restarted, vote_commit,
}
use distributed_system.Worker.State.{
  ObjectData, Record, Worker, logged, restore_vector_time, save_vector_time, start_event,
  update_clock, write_local_event_to_log, write_record_to_log,
}
use distributed_system.Clock.{empty}
use distributed_system.Worker.Record.{read_val_from_record, find_state_from_record}

-- The kinds of a last record after which a restart waits for the manager.
unfoldable pub is_uncertain : ℕ → Bool
is_uncertain state =
    (state == abort)
    || (state == decide_abort)
    || (state == prepare_commit)
    || (state == vote_commit)
    || (state == decide_commit)

-- What the process loses: the globals are 0 again. What its locals hold is an argument.
unfoldable pub lose_memory : Addr → TxMessage → Record → Worker → Worker
lose_memory addr out rec s = record s {
  cur_tid = 0;
  is_tx_run = false;
  delay = 0;
  is_crash = 0;
  vote = 0;
  first_time_waiting = false;
  to_addr = addr;
  new_msg = out;
  rec = rec;
  waiting = none;
}

-- The transaction is aborted: the object is restored and a record is written.
unfoldable pub abort_on_restart : Record → Worker → Worker
unfolding read_val_from_record update_clock write_local_event_to_log save_vector_time
    write_record_to_log
abort_on_restart rec s =
    let s1 =
      save_vector_time
        (write_local_event_to_log abort (update_clock s.node_id (read_val_from_record s))) in
    record (write_record_to_log (record rec { msg_id = abort; tid = s1.cur_tid }) s1) {
      is_tx_run = false;
    }

-- The `else` branch.
unfoldable pub restart : Addr → TxMessage → Record → Worker → Worker
unfolding lose_memory restore_vector_time update_clock save_vector_time write_local_event_to_log
    find_state_from_record is_uncertain abort_on_restart
restart addr out rec s =
    let s1 = restore_vector_time (lose_memory addr out rec s) in
    let s2 = write_local_event_to_log restarted (save_vector_time (update_clock s1.node_id s1)) in
    let (state, s3) = find_state_from_record s2 in
    if is_uncertain state
    then record s3 { waiting = some s3.manager_addr }
    else abort_on_restart rec s3

-- The `if (!fileExist)` branch. A file that is new holds no value of A, B and the string, and the
-- locals hold none: these are arguments.
unfoldable pub first_start : ℕ → ℕ → ℕ → ObjectData → Addr → TxMessage → Record → Worker
first_start port sys_port now o addr out rec = record {
  node_id = port;
  my_vector_clock = record { node_id = port; time = 1 } ∷ replicate 9 empty;
  cur_tid = 0;
  is_tx_run = false;
  delay = 0;
  is_crash = 0;
  vote = 0;
  first_time_waiting = false;
  sys_port = sys_port;
  manager_addr = addr;
  saved_clock = record { node_id = port; time = 1 } ∷ replicate 9 empty;
  record_log = [];
  obj = record o {
    last_update_time = now;
    vector_clock = record { node_id = port; time = 1 } ∷ replicate 9 empty;
  };
  to_addr = addr;
  new_msg = out;
  rec = rec;
  waiting = none;
  history = logged (start_event port 1) ∷ [];
}
