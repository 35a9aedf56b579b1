-- ===== src/Worker/LifeTests.antt =====
-- Starts of a worker, and an instance of the theorem about them.
use distributed_system.Base.{◌≡◌, refl, true, false, some, [], arith, length, replicate}
use distributed_system.Startup.{World, refused, started, create_socket}
use distributed_system.Msg.{Addr, TxMessage}
use distributed_system.Clock.{empty, update_my_vector_clock}
use distributed_system.Worker.State.{ObjectData, Record, Worker}
use distributed_system.Worker.Command.{handle_cmd_msg, wait_reply}
use distributed_system.Worker.Coordinator.{timed_out}
use distributed_system.Worker.Restart.{first_start, restart}
use distributed_system.Worker.Boot.{Files, main, enter}
use distributed_system.Worker.Life.{here, event, Life-port}

abbrev nowhere : Addr
nowhere = record { host = 0; sin_port = 0 }

abbrev no_message : TxMessage
no_message = record { msg_id = 0; tid = 0; node_id = 0; is_crash = 0; vector_clock = [] }

abbrev no_record : Record
no_record = record {
  msg_id = 0;
  tid = 0;
  old_value = 0;
  old_id = [];
  vector_clock = [];
  last_update_time = 0;
}

abbrev no_data : ObjectData
no_data = record { id_string = []; last_update_time = 0; a = 1; b = 2; vector_clock = [] }

abbrev empty_file : Worker
unfolding first_start
empty_file = record (first_start 0 0 0 no_data nowhere no_message no_record) {
  saved_clock = replicate 10 empty;
  history = [];
}

abbrev file_of : Worker → Files
file_of s = record { left = s; addr = nowhere; out = no_message; rec = no_record }

-- No log file yet, and 0 in the local fileExist.
abbrev new_world : World
new_world = record {
  argc = 2;
  number = some 5000;
  file_exist = 0;
  log_exists = false;
  log_size = some 0;
  log_grows = true;
  data_opens = true;
  shiviz_opens = true;
  opens_socket = true;
  binds = λ port. true;
  generated = 40001;
  data_size = some 0;
  data_grows = true;
  now = 100;
}

abbrev later_world : World
later_world = record new_world { log_exists = true; log_size = some 104; generated = 40777 }

abbrev begun : Worker
unfolding enter
begun = enter new_world (file_of empty_file) 5000

-- The second start, after a timeout, has the port of the first.
Life-port_example :
    ((enter later_world (file_of begun) 5000).sys_port ≡ begun.sys_port)
    × (create_socket later_world begun.sys_port ≡ true)
unfolding main enter handle_cmd_msg
Life-port_example =
    Life-port later_world new_world (file_of begun) (file_of empty_file) begun begun
      (enter later_world (file_of begun) 5000) refl (omega arith)
      (event (wait_reply no_record timed_out) here refl) refl refl refl

-- A new log file and a fileExist that is not 0: the worker takes itself for a restarted one, with no
-- slot of its own in its clock, and records an abort.
wrong_start : World
wrong_start = record new_world { file_exist = 1 }

wrong_start_run :
    main wrong_start (file_of empty_file) ≡ started (enter wrong_start (file_of empty_file) 5000)
unfolding main wrong_start
wrong_start_run = refl

wrong_start_clock :
    (enter wrong_start (file_of empty_file) 5000).my_vector_clock ≡ replicate 10 empty
unfolding enter restart wrong_start update_my_vector_clock
wrong_start_clock = refl

wrong_start_record : length (enter wrong_start (file_of empty_file) 5000).record_log ≡ 1
unfolding enter restart wrong_start update_my_vector_clock
wrong_start_record = refl

-- A port in use.
in_use_run : main (record new_world { binds = λ port. false }) (file_of empty_file) ≡ refused 1
unfolding main
in_use_run = refl
