-- ===== src/Manager/Restart.antt =====
-- The two branches of main in tmanager.c: a first start, and a restart that finds a log file.
use distributed_system.Base.{ℕ, ◌%◌, ◌^◌, List, [], ◌∷◌, ◌==◌, if◌then◌else◌, replicate}
use distributed_system.Msg.{Addr, TxMessage, decide_abort, restarted}
use distributed_system.Manager.State.{
  CoordRecord, Info, Manager, W, restore_vector_time, save_vector_time, update_clock,
  write_local_event_to_log, logged, start_event,
}
use distributed_system.Manager.Votes.{State, find_state_from_record}
use distributed_system.Clock.{empty, max_nodes}
use distributed_system.Manager.Handle.{send_to_all_workers}

-- The wait for a decision of each transaction that the log does not commit ends with an abort.
unfoldable pub abort_uncommitted : List State → Manager → Manager
unfolding send_to_all_workers
abort_uncommitted [] s = s
abort_uncommitted (k ∷ ks) s = abort_uncommitted ks (
    if k.is_commit == 0
    then send_to_all_workers (record s.new_msg { tid = k.tid }) s.new_msg decide_abort s
    else s)

-- What the process loses: the global is 0 again. What its locals hold is an argument.
unfoldable pub lose_memory : CoordRecord → TxMessage → Manager → Manager
lose_memory rec out s = record s { abort_tid = 0; rec = rec; new_msg = out }

-- The `else` branch. Of the state only the log file survives: its records, its clock and its table.
unfoldable pub restart : CoordRecord → TxMessage → Manager → Manager
unfolding lose_memory restore_vector_time update_clock save_vector_time write_local_event_to_log
    find_state_from_record abort_uncommitted
restart rec out s =
    let s1 =
      write_local_event_to_log restarted
        (save_vector_time (update_clock (restore_vector_time (lose_memory rec out s)))) in
    abort_uncommitted (find_state_from_record s1.worker_info s1.record_log) s1

unfoldable pub unused_worker : Addr → W
unused_worker addr = record { node_id = 0; port = 0; worker_addr = addr; vote_yes = 0 }

unfoldable pub unused_info : Addr → Info
unfolding unused_worker
unused_info addr = record {
  tid = 0;
  is_crash = 0;
  workers = replicate max_nodes (unused_worker addr);
}

abbrev pub max_trans : ℕ
max_trans = 5

-- The `if (!fileExist)` branch. The clock is saved before it is set, so the file holds the zeros
-- of the global array. What the locals and the addresses hold is an argument.
unfoldable pub first_start : ℕ → Addr → CoordRecord → TxMessage → Manager
unfolding unused_info
first_start port addr rec new_msg = record {
  port = port;
  my_vector_clock = record { node_id = port % 2 ^ 32; time = 1 } ∷ replicate 9 empty;
  abort_tid = 0;
  saved_clock = replicate max_nodes empty;
  worker_info = replicate max_trans (unused_info addr);
  record_log = [];
  rec = rec;
  new_msg = new_msg;
  history = logged (start_event port 1) ∷ [];
}
