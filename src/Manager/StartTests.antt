-- ===== src/Manager/StartTests.antt =====
-- Starts of the manager, and an instance of the theorem about them.
use distributed_system.Base.{◌≡◌, refl, inl, true, false, some, [], ◌∷◌, arith, replicate}
use distributed_system.Startup.{World, refused}
use distributed_system.Msg.{Addr, TxMessage, decide_commit}
use distributed_system.Clock.{empty, update_my_vector_clock}
use distributed_system.Manager.State.{CoordRecord, Manager, wrote}
use distributed_system.Manager.Handle.{no_bytes}
use distributed_system.Manager.Restart.{first_start, restart, abort_uncommitted}
use distributed_system.Manager.Boot.{Files, main}
use distributed_system.Manager.Reach.{here}
use distributed_system.Manager.Starts.{main-IsWriteAhead}
use distributed_system.Manager.WriteAhead.{IsWriteAhead, committed, write_ahead}
use distributed_system.Manager.Votes.{is_commit}

abbrev nowhere : Addr
nowhere = record { host = 0; sin_port = 0 }

abbrev no_record : CoordRecord
no_record = record { msg_id = 0; tid = 0; node_id = 0 }

abbrev no_message : TxMessage
no_message = record { msg_id = 0; tid = 0; node_id = 0; is_crash = 0; vector_clock = [] }

abbrev begun : Manager
unfolding first_start
begun = first_start 9000 nowhere no_record no_message

abbrev files : Files
files = record { left = begun; addr = nowhere; rec = no_record; out = no_message }

abbrev second : World
second = record {
  argc = 2;
  number = some 9000;
  file_exist = 0;
  log_exists = true;
  log_size = some 1520;
  log_grows = true;
  data_opens = true;
  shiviz_opens = true;
  opens_socket = true;
  binds = λ port. true;
  generated = 0;
  data_size = some 0;
  data_grows = true;
  now = 100;
}

-- A manager that has committed transaction 7, and whose clock is in the file.
abbrev committer : Manager
committer =
    let r = record no_record { msg_id = decide_commit; tid = 7 } in
    record begun {
      saved_clock = begun.my_vector_clock;
      record_log = r ∷ [];
      history = wrote r ∷ [];
    }

abbrev left_files : Files
left_files = record files { left = committer }

main-IsWriteAhead_example :
    let u = restart no_record no_message committer in
    IsWriteAhead u × (u.saved_clock ≡ u.my_vector_clock) × (is_commit 7 u.record_log ≡ true)
unfolding main is_commit write_ahead committed
main-IsWriteAhead_example =
    main-IsWriteAhead 7 committer committer committer (restart no_record no_message committer)
      no_bytes second left_files (refl, λ tid. ground arith) refl refl here tt (inl refl) refl refl
      refl

-- The first crash before any event: the clock has no slot of the manager.
second_clock : (restart no_record no_message begun).my_vector_clock ≡ replicate 10 empty
unfolding restart update_my_vector_clock abort_uncommitted begun
second_clock = refl

-- No ShiViz file, and a log file that cannot be filled.
no_shiviz_run : main (record second { shiviz_opens = false }) files ≡ refused 1
unfolding main
no_shiviz_run = refl

short_run : main (record second { log_size = some 80; log_grows = false }) files ≡ refused 3
unfolding main
short_run = refl
