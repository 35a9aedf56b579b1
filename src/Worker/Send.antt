-- ===== src/Worker/Send.antt =====
-- What the worker sends: constructMessage, constructTxMessage and sendMsg of tworker.c, with the
-- delays and the crashes that a command has asked for.
use distributed_system.Base.{ℕ, ◌-◌, ◌^◌, Bool, ◌∷◌, leb, ◌==◌, if◌then◌else◌}
use distributed_system.Msg.{Addr, CmdMessage, TxMessage, crash}
use distributed_system.Outcome.{Outcome, exited, running}
use distributed_system.Worker.State.{
  Worker, save_vector_time, sent, update_clock, write_local_event_to_log,
}

-- For a command; a kind of 0 keeps that of the command. `is_crash` is left as it was.
unfoldable pub construct_message : Worker → CmdMessage → TxMessage → ℕ → TxMessage
construct_message s m new_msg kind = record new_msg {
  msg_id = if kind == 0 then m.msg_id else kind;
  tid = m.tid;
  node_id = s.node_id;
  vector_clock = s.my_vector_clock;
}

-- For a message of the manager; every field is set.
unfoldable pub construct_tx_message : Worker → TxMessage → ℕ → TxMessage
construct_tx_message s m kind = record {
  msg_id = kind;
  tid = m.tid;
  node_id = m.node_id;
  is_crash = s.is_crash;
  vector_clock = s.my_vector_clock;
}

-- The bit pattern of an int32_t below 0, and that of -1000.
abbrev pub is_negative : ℕ → Bool
is_negative w = leb (2 ^ 31) w

abbrev pub minus_1000 : ℕ
minus_1000 = 2 ^ 32 - 1000

-- The clock of the node of the message is advanced and saved, and the process leaves.
unfoldable pub crash_now : TxMessage → Worker → Outcome Worker
unfolding update_clock save_vector_time write_local_event_to_log
crash_now m s =
    exited (write_local_event_to_log crash (save_vector_time (update_clock m.node_id s)))

-- Sleeping changes nothing.
unfoldable pub send_msg : TxMessage → Addr → Worker → Outcome Worker
unfolding crash_now
send_msg m addr s =
    if s.delay == minus_1000
    then crash_now m s
    else (let s1 = record s { history = sent addr m ∷ s.history } in
        if is_negative s.delay then crash_now m s1 else running s1)
