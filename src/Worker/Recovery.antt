-- ===== src/Worker/Recovery.antt =====
-- A worker that crashed in a transaction, and starts again: main of tworker.c.
use distributed_system.Base.{
  ℕ, ◌≡◌, refl, ap, Bool, true, false, none, some, List, [], ◌∷◌, arith, All,
}
use distributed_system.Msg.{Addr, CmdMessage, TxMessage, abort, join_success}
use distributed_system.Outcome.{Leaves, Leaves-weaken}
use distributed_system.Worker.Coordinator.{on_join}
use distributed_system.Worker.Abort.{IsPlain, run_commands, run_commands-InTransaction}
use distributed_system.Worker.Undo.{InTransaction, is_fresh, on_join-InTransaction, has_join}
use distributed_system.Worker.State.{
  ObjectData, Record, Worker, restore_vector_time, save_vector_time, update_clock,
  write_local_event_to_log, write_record_to_log,
}
use distributed_system.Worker.Record.{find_state_from_record, last_msg_id, last_tid, roll_back}
use distributed_system.Worker.Restart.{abort_on_restart, is_uncertain, lose_memory, restart}

last_tid-has_join :
    (tid : ℕ) (log : List Record) (cur : ℕ) → has_join tid log ≡ true → last_tid log cur ≡ tid
unfolding last_tid has_join
last_tid-has_join tid [] cur h = absurd (ground arith)
last_tid-has_join tid (r ∷ rs) cur h = ground arith

-- What a restart leaves behind that aborts the transaction: the object, no transaction that runs and
-- no wait, and one record more, of the abort.
abbrev pub IsAborted : ℕ → ObjectData → Record → Worker → Worker → Type 0
IsAborted tid o rec s t =
    (t.obj ≡ o)
    × (t.is_tx_run ≡ false)
    × (t.waiting ≡ none)
    × (t.record_log ≡ record rec { msg_id = abort; tid = tid } ∷ s.record_log)

-- A worker whose process was in a transaction when it ended, after any crash.
restart-InTransaction :
    {tid : ℕ} {o : ObjectData} (s : Worker) (addr : Addr) (out : TxMessage) (rec : Record)
    → InTransaction tid o s
    → IsAborted tid o rec s (restart addr out rec s)
unfolding restart find_state_from_record lose_memory restore_vector_time update_clock
    save_vector_time write_local_event_to_log abort_on_restart write_record_to_log
restart-InTransaction {tid} {o} s addr out rec h = rw h.certain (
  restored,
  refl,
  refl,
  ap (λ n. record rec { msg_id = abort; tid = n } ∷ s.record_log)
      (last_tid-has_join tid s.record_log 0 h.undoes.0),
)
  where
    restored :
        roll_back (last_tid s.record_log 0) s.record_log s.obj.a s.obj.b s.obj.id_string s.obj ≡ o
    restored = rw (last_tid-has_join tid s.record_log 0 h.undoes.0) h.undoes.1

-- A worker that joins a transaction whose tid is not that of its last record, carries out any
-- commands but an abort, and then ends, between two commands or in one (where the behaviour is
-- defined): the next start restores the whole object that the join has found, its values, its
-- string, its time and its clock, writes a record of an abort of the transaction behind those that
-- the commands have written, and neither runs a transaction nor waits for the manager.
pub restart-run_commands :
    (rec : Record) (m : TxMessage) (addr : Addr) (s : Worker)
    → m.msg_id ≡ join_success
    → is_fresh m.tid s.record_log ≡ true
    → (cs : List (CmdMessage × ℕ × Bool)) → All (λ (c : CmdMessage × ℕ × Bool). IsPlain c.0) cs
    → (to : Addr) (out : TxMessage) (rec' : Record)
    → Leaves
        (λ t. IsAborted m.tid s.obj rec' t (restart to out rec' t))
        (run_commands cs (on_join rec m addr s))
restart-run_commands rec m addr s joined fresh cs plain to out rec' =
    Leaves-weaken (run_commands cs (on_join rec m addr s))
      (λ t h. restart-InTransaction t to out rec' h)
      (run_commands-InTransaction cs (on_join rec m addr s) plain
        (on_join-InTransaction rec m addr s joined fresh))

-- If the record written last is one after which the worker waits (PREPARE_COMMIT, VOTE_COMMIT or a
-- record of a decision), a restart leaves the object and the records as they are, and waits for the
-- manager of the log file.
pub restart_uncertain :
    (s : Worker) (addr : Addr) (out : TxMessage) (rec : Record)
    → is_uncertain (last_msg_id s.record_log) ≡ true
    → ((restart addr out rec s).obj ≡ s.obj)
      × ((restart addr out rec s).record_log ≡ s.record_log)
      × ((restart addr out rec s).waiting ≡ some s.manager_addr)
unfolding restart find_state_from_record lose_memory restore_vector_time update_clock
    save_vector_time write_local_event_to_log
restart_uncertain s addr out rec waits = rw waits (refl, refl, refl)
