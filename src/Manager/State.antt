-- ===== src/Manager/State.antt =====
-- The state of the transaction manager: tmanager.h, CoordRecord of msg.h, the globals of tmanager.c,
-- and the locals of handleWorkerMsg that live as long as the process. The log file is its records,
-- the last one written first. `history` is all that left the process, the last first.
use distributed_system.Base.{ℕ, Bool, List, ◌∷◌, ◌==◌, if◌then◌else◌}
use distributed_system.Msg.{Addr, TxMessage}
use distributed_system.Clock.{Clock, merge_vector_clock, update_my_vector_clock}

-- A slot of the worker table of a transaction; port 0 is an unused slot.
pub record W : Type 0 where
  pub node_id : ℕ
  pub port : ℕ
  pub worker_addr : Addr
  pub vote_yes : ℕ

-- A slot of the transaction table; tid 0 is an unused slot.
pub record Info : Type 0 where
  pub tid : ℕ
  pub is_crash : ℕ
  pub workers : List W

pub record CoordRecord : Type 0 where
  pub msg_id : ℕ
  pub tid : ℕ
  pub node_id : ℕ

-- A line of the ShiViz log: the message or the local kind it describes, and the clock written; or
-- the start of the node.
pub data Event : Type 0 where
  message_event : TxMessage → Bool → ℕ → List Clock → Event
  local_event : ℕ → List Clock → Event
  start_event : ℕ → ℕ → Event

pub data Effect : Type 0 where
  sent : Addr → TxMessage → Effect
  wrote : CoordRecord → Effect
  logged : Event → Effect

pub record Manager : Type 0 where
  pub port : ℕ
  pub my_vector_clock : List Clock
  pub abort_tid : ℕ
  pub saved_clock : List Clock  -- crashInfo->vectorClock
  pub worker_info : List Info  -- crashInfo->workerInfo
  pub record_log : List CoordRecord
  pub rec : CoordRecord
  pub new_msg : TxMessage
  pub history : List Effect

-- `updateMyVectorClock(port, &myVectorClock[0])`
unfoldable pub update_clock : Manager → Manager
update_clock s = record s { my_vector_clock = update_my_vector_clock s.port s.my_vector_clock }

unfoldable pub merge_clock : TxMessage → Manager → Manager
merge_clock m s = record s { my_vector_clock = merge_vector_clock m.vector_clock s.my_vector_clock }

-- The clock is copied into the mapped log, slot by slot.
unfoldable pub save_vector_time : Manager → Manager
save_vector_time s = record s { saved_clock = s.my_vector_clock }

unfoldable pub restore_vector_time : Manager → Manager
restore_vector_time s = record s { my_vector_clock = s.saved_clock }

-- `rec` is set by the caller.
unfoldable pub write_record_to_log : Manager → Manager
write_record_to_log s = record s {
  record_log = s.rec ∷ s.record_log;
  history = wrote s.rec ∷ s.history;
}

unfoldable pub write_event_to_log : TxMessage → Bool → ℕ → Manager → Manager
write_event_to_log m is_send peer s = record s {
  history = logged (message_event m is_send peer s.my_vector_clock) ∷ s.history;
}

unfoldable pub write_local_event_to_log : ℕ → Manager → Manager
write_local_event_to_log msg_id s = record s {
  history = logged (local_event msg_id s.my_vector_clock) ∷ s.history;
}

-- Every field but `is_crash` is set; a node id of 0 means that of the message answered.
unfoldable pub construct_message : TxMessage → TxMessage → ℕ → ℕ → List Clock → TxMessage
construct_message m new_msg kind node_id vc = record new_msg {
  msg_id = kind;
  tid = m.tid;
  node_id = if node_id == 0 then m.node_id else node_id;
  vector_clock = vc;
}

-- The message is handed to sendto; a failure of sendto is printed and changes nothing.
unfoldable pub send_msg : TxMessage → Addr → Manager → Manager
send_msg m addr s = record s { history = sent addr m ∷ s.history }
