-- ===== src/Worker/Tests.antt =====
-- Runs of the transaction worker, and instances of the theorems about it.
use distributed_system.Base.{ℕ, ◌≡◌, refl, Bool, true, List, [], ◌∷◌, arith, length, replicate}
use distributed_system.Msg.{
  Addr, CmdMessage, TxMessage, commit, decide_abort, join_success, new_a, new_idstr, prepare_commit,
}
use distributed_system.Worker.Undo.{is_fresh}
use distributed_system.Worker.Persist.{IsPersisted, handle_cmd_msg-IsPersisted}
use distributed_system.Outcome.{Leaves, Outcome, exited, running, undefined}
use distributed_system.Worker.State.{ObjectData, Record, Worker}
use distributed_system.Worker.Abort.{abort-run_commands, run_commands}
use distributed_system.Clock.{empty, tick, update_my_vector_clock}
use distributed_system.Worker.Restart.{first_start, restart}
use distributed_system.Worker.Command.{
  handle_cmd_msg, on_abort, on_command, on_commit, on_new_a, on_new_idstr, wait_reply,
}
use distributed_system.Worker.Coordinator.{on_decide_abort, on_join, on_prepare_commit, timed_out}
use distributed_system.Worker.Recovery.{IsAborted, restart-run_commands}

abbrev manager_at : Addr
manager_at = record { host = 2130706433; sin_port = 9000 }

abbrev no_record : Record
no_record = record {
  msg_id = 0;
  tid = 0;
  old_value = 0;
  old_id = [];
  vector_clock = [];
  last_update_time = 0;
}

abbrev no_message : TxMessage
no_message = record { msg_id = 0; tid = 0; node_id = 0; is_crash = 0; vector_clock = [] }

abbrev no_data : ObjectData
no_data = record { id_string = 65 ∷ []; last_update_time = 0; a = 1; b = 2; vector_clock = [] }

abbrev fresh : Worker
unfolding first_start
fresh = first_start 5000 40001 100 no_data manager_at no_message no_record

abbrev from_manager : ℕ → TxMessage
from_manager kind = record {
  msg_id = kind;
  tid = 7;
  node_id = 5000;
  is_crash = 0;
  vector_clock = record { node_id = 9000; time = 4 } ∷ replicate 9 empty;
}

abbrev a_command : ℕ → ℕ → CmdMessage
a_command kind value = record {
  msg_id = kind;
  tid = 0;
  port = 9000;
  new_value = value;
  delay = 0;
  str_data = 66 ∷ replicate 63 0;
}

abbrev updates : List (CmdMessage × ℕ × Bool)
updates =
    (a_command new_a 10, 200, true)
    ∷ (a_command new_idstr 0, 201, true)
    ∷ (a_command new_a 11, 202, true)
    ∷ (a_command commit 0, 203, true)
    ∷ []

abbrev state_after : Outcome Worker → Worker
state_after (running s) = s
state_after (exited s) = s
state_after undefined = fresh

abbrev updated : Worker
unfolding fresh run_commands on_command on_new_a on_new_idstr on_commit on_join
updated =
    state_after
      (run_commands updates (on_join no_record (from_manager join_success) manager_at fresh))

updates_run :
    (updated.obj.a ≡ 11)
    × (updated.obj.id_string ≡ 66 ∷ [])
    × (length updated.record_log ≡ 5)
    × ((on_decide_abort no_record (from_manager decide_abort) updated).obj ≡ fresh.obj)
unfolding updated on_decide_abort update_my_vector_clock tick
updates_run = (refl, refl, refl, refl)

abort-run_commands_example :
    Leaves
      (λ t.
        ((d : TxMessage) → (on_decide_abort no_record d t).obj ≡ fresh.obj)
        × ((kind flag : ℕ) → (on_abort kind flag t).obj ≡ fresh.obj))
      (run_commands updates (on_join no_record (from_manager join_success) manager_at fresh))
unfolding fresh is_fresh
abort-run_commands_example =
    abort-run_commands no_record (from_manager join_success) manager_at fresh refl refl updates
      (omega arith)

abbrev joined_once : Worker
unfolding fresh on_join
joined_once = on_join no_record (from_manager join_success) manager_at fresh

restart-run_commands_example :
    Leaves
      (λ t. IsAborted 7 fresh.obj no_record t (restart manager_at no_message no_record t))
      (run_commands updates (on_join no_record (from_manager join_success) manager_at fresh))
unfolding fresh is_fresh
restart-run_commands_example =
    restart-run_commands no_record (from_manager join_success) manager_at fresh refl refl updates
      (omega arith) manager_at no_message no_record

abbrev voted : Worker
unfolding joined_once on_prepare_commit
voted =
    state_after (on_prepare_commit no_record (from_manager prepare_commit) manager_at joined_once)

handle_cmd_msg-IsPersisted_example :
    Leaves IsPersisted (handle_cmd_msg voted (wait_reply no_record timed_out))
unfolding voted
handle_cmd_msg-IsPersisted_example =
    handle_cmd_msg-IsPersisted voted (wait_reply no_record timed_out) refl
