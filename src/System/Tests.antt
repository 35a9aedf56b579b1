-- ===== src/System/Tests.antt =====
-- A run of a transaction through the manager and one of two workers, and an instance of the theorem.
use distributed_system.Base.{ℕ, ◌≡◌, refl, true, List, [], ◌∷◌, arith, replicate}
use distributed_system.Worker.Restart.{first_start as worker_start}
use distributed_system.Worker.State.{Worker, Record}
use distributed_system.Worker.Command.{handle_cmd_msg, manager}
use distributed_system.Manager.State.{Effect, sent, wrote, logged, Manager}
use distributed_system.System.Run.{
  System, Run, manager_turn, worker_turn, here as start_here, MayMeet,
}
use distributed_system.System.Agreement.{Run-committed, serialize-IsSent}
use distributed_system.Manager.Votes.{is_commit}
use distributed_system.Worker.Coordinator.{
  handle_manager_msg, on_message, on_decide_commit, receive,
}
use distributed_system.Clock.{update_my_vector_clock, merge_vector_clock, tick, empty}
use distributed_system.Manager.WriteAhead.{write_ahead, committed}
use distributed_system.Worker.Commits.{Logged}
use distributed_system.Msg.{Addr, TxMessage, begintx, jointx, commit, vote_commit, decide_commit}
use distributed_system.Outcome.{Outcome, running, exited, undefined}
use distributed_system.Manager.Handle.{Input, datagram, handle_worker_msg}
use distributed_system.Manager.Restart.{first_start}
use distributed_system.Manager.Reach.{Reach, PollsFinished, here, round}
use distributed_system.Wire.{
  serialize_worker_msg, serialize_clock, deserialize_worker_msg, deserialize_clock,
}
use mathlib.Core.List.Memᴰ

abbrev worker_at : Addr
worker_at = record { host = 2130706433; sin_port = 40001 }

-- A message about transaction 7 of the worker at port 5000.
abbrev a_message : ℕ → TxMessage
a_message kind = record {
  msg_id = kind;
  tid = 7;
  node_id = 5000;
  is_crash = 0;
  vector_clock = record { node_id = 5000; time = 4 } ∷ replicate 9 empty;
}

abbrev idle : Manager
unfolding first_start
idle =
    first_start 9000 worker_at (record { msg_id = 0; tid = 0; node_id = 0 })
      (record { msg_id = 0; tid = 0; node_id = 0; is_crash = 0; vector_clock = [] })

abbrev left : Outcome Manager → Manager → Manager
left (running s) t = s
left (exited s) t = s
left undefined t = t

abbrev packet : ℕ → Input
unfolding serialize_worker_msg serialize_clock
packet kind = datagram (serialize_worker_msg (a_message kind)) worker_at

abbrev got : ℕ → Manager → Manager
unfolding handle_worker_msg deserialize_worker_msg deserialize_clock packet
got kind s = left (handle_worker_msg s (packet kind)) s

abbrev voted : Manager
unfolding got idle
voted = got vote_commit (got commit (got jointx (got begintx idle)))

voted-Reach : Reach PollsFinished idle voted
unfolding voted
voted-Reach =
    round (packet vote_commit)
      (round (packet commit)
        (round (packet jointx)
          (round (packet begintx) here (λ m rest e poll. absurd (ground arith)) refl)
          (λ m rest e poll. absurd (ground arith)) refl)
        (λ m rest e poll. absurd (ground arith)) refl)
      (λ m rest e poll. absurd (ground arith)) refl

-- The message that was sent last.
abbrev last_sent : List Effect → TxMessage
last_sent [] = a_message 0
last_sent (sent addr m ∷ h) = m
last_sent (wrote r ∷ h) = last_sent h
last_sent (logged e ∷ h) = last_sent h

abbrev decision : TxMessage
unfolding voted
decision = last_sent voted.history

abbrev no_record : Record
no_record = record {
  msg_id = 0;
  tid = 0;
  old_value = 0;
  old_id = [];
  vector_clock = [];
  last_update_time = 0;
}

abbrev a_worker : ℕ → Worker
unfolding worker_start
a_worker port =
    worker_start port 40001 100
      (record { id_string = []; last_update_time = 0; a = 1; b = 2; vector_clock = [] }) worker_at
      (a_message 0) no_record

abbrev told : List ℕ
unfolding decision serialize_worker_msg serialize_clock
told = serialize_worker_msg decision

abbrev worker_left : Outcome Worker → Worker → Worker
worker_left (running s) t = s
worker_left (exited s) t = s
worker_left undefined t = t

abbrev committed_worker : Worker
unfolding handle_cmd_msg told deserialize_worker_msg deserialize_clock a_worker
committed_worker =
    worker_left (handle_cmd_msg (a_worker 5000) (manager no_record told worker_at)) (a_worker 5000)

its_record : committed_worker.record_log ≡ record no_record { msg_id = decide_commit; tid = 7 } ∷ []
unfolding committed_worker handle_manager_msg update_my_vector_clock merge_vector_clock tick
    on_message on_decide_commit receive
its_record = refl

abbrev idle_system : System
unfolding idle a_worker
idle_system = record { coordinator = idle; workers = a_worker 5000 ∷ a_worker 6000 ∷ [] }

abbrev ended : System
unfolding voted committed_worker
ended = record { coordinator = voted; workers = committed_worker ∷ a_worker 6000 ∷ [] }

told-Run : Run idle_system ended
unfolding ended idle_system MayMeet told decision handle_manager_msg update_my_vector_clock
    merge_vector_clock tick on_message
told-Run =
    worker_turn [] (a_worker 6000 ∷ []) (a_worker 5000) committed_worker
      (manager no_record told worker_at) (manager_turn start_here voted-Reach)
      (serialize-IsSent voted worker_at decision (omega arith) (Memᴰ.head refl)) refl

Run-committed_example : is_commit 7 ended.coordinator.record_log ≡ true
unfolding ended idle_system write_ahead Logged committed is_commit handle_manager_msg
    update_my_vector_clock merge_vector_clock tick on_message on_decide_commit receive
Run-committed_example =
    Run-committed committed_worker (record no_record { msg_id = decide_commit; tid = 7 })
      (record { ahead = (refl, λ tid. refl); agreed = (tt, (tt, tt)) }) told-Run (Memᴰ.head refl)
      (Memᴰ.head refl) refl
