-- ===== src/Worker/State.antt =====
-- The state of a transaction worker: ObjectData of tworker.h, Record and CrashInfo of msg.h, the
-- globals of tworker.c and the locals of handleCmdMsg, which live as long as the process.
use distributed_system.Base.{ℕ, Bool, Option, List, ◌∷◌}
use distributed_system.Msg.{Addr, TxMessage}
use distributed_system.Clock.{Clock, merge_vector_clock, update_my_vector_clock}

-- `int32_t` values are their 32-bit patterns, the string is its bytes up to the null byte, and a
-- timeval is a number.
pub record ObjectData : Type 0 where
  pub id_string : List ℕ
  pub last_update_time : ℕ
  pub a : ℕ
  pub b : ℕ
  pub vector_clock : List Clock

pub record Record : Type 0 where
  pub msg_id : ℕ
  pub tid : ℕ
  pub old_value : ℕ
  pub old_id : List ℕ
  pub vector_clock : List Clock
  pub last_update_time : ℕ

-- A line of the ShiViz log: the message or the local kind that it describes, and the clock written.
pub data Event : Type 0 where
  message_event : TxMessage → Bool → ℕ → List Clock → Event
  local_event : ℕ → List Clock → Event
  start_event : ℕ → ℕ → Event

pub data Effect : Type 0 where
  sent : Addr → TxMessage → Effect
  wrote : Record → Effect
  logged : Event → Effect

-- The log file is its records, the last one written first, and the fields of CrashInfo: `sys_port`,
-- `manager_addr` and `saved_clock`. `waiting` says whether the process is in
-- waitingForCoordResponse, and with which address. `history` is all that left the process, the last
-- first.
pub record Worker : Type 0 where
  pub node_id : ℕ
  pub my_vector_clock : List Clock
  pub cur_tid : ℕ
  pub is_tx_run : Bool
  pub delay : ℕ
  pub is_crash : ℕ
  pub vote : ℕ
  pub first_time_waiting : Bool
  pub sys_port : ℕ
  pub manager_addr : Addr
  pub saved_clock : List Clock
  pub record_log : List Record
  pub obj : ObjectData
  pub to_addr : Addr
  pub new_msg : TxMessage
  pub rec : Record
  pub waiting : Option Addr
  pub history : List Effect

-- `updateMyVectorClock(id, &myVectorClock[0])`
unfoldable pub update_clock : ℕ → Worker → Worker
update_clock id s = record s { my_vector_clock = update_my_vector_clock id s.my_vector_clock }

unfoldable pub merge_clock : TxMessage → Worker → Worker
merge_clock m s = record s { my_vector_clock = merge_vector_clock m.vector_clock s.my_vector_clock }

unfoldable pub save_vector_time : Worker → Worker
save_vector_time s = record s { saved_clock = s.my_vector_clock }

unfoldable pub restore_vector_time : Worker → Worker
restore_vector_time s = record s { my_vector_clock = s.saved_clock }

unfoldable pub write_record_to_log : Record → Worker → Worker
write_record_to_log r s = record s { record_log = r ∷ s.record_log; history = wrote r ∷ s.history }

unfoldable pub write_event_to_log : TxMessage → Bool → ℕ → Worker → Worker
write_event_to_log m is_send peer s = record s {
  history = logged (message_event m is_send peer s.my_vector_clock) ∷ s.history;
}

unfoldable pub write_local_event_to_log : ℕ → Worker → Worker
write_local_event_to_log msg_id s = record s {
  history = logged (local_event msg_id s.my_vector_clock) ∷ s.history;
}
