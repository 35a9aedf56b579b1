-- ===== src/Worker/Abort.antt =====
-- The commands of a transaction, and the three ways in which tworker.c aborts it.
use distributed_system.Base.{
  ℕ, ◌%◌, ◌^◌, ◌≡◌, refl, ◌≢◌, inl, inr, Bool, true, false, ◌||◌, List, [], ◌∷◌, ◌==◌, ==_ne,
  Bool-cases, All,
}
use distributed_system.Outcome.{◌>>=◌, Leaves, Leaves-bind, Outcome, exited, running, undefined}
use distributed_system.Msg.{
  Addr, CmdMessage, TxMessage, abort, abort_crash, begintx, commit, commit_crash, crash,
  delay_response, join_success, jointx, new_a, new_b, new_idstr, vote_abort,
}
use distributed_system.Worker.Undo.{InTransaction, is_fresh, on_join-InTransaction}
use distributed_system.Worker.State.{ObjectData, Record, Worker}
use distributed_system.Worker.Rollback.{
  commit-InTransaction, local_event_now-InTransaction, new_a-InTransaction, new_b-InTransaction,
  new_idstr-InTransaction, same-InTransaction, tell_manager-InTransaction,
}
use distributed_system.Worker.Command.{on_abort, on_begin, on_command, on_crash}
use distributed_system.Worker.Coordinator.{on_decide_abort, on_join}
use distributed_system.Worker.Record.{read_val_from_record}

-- A command that neither begins nor joins, nor aborts.
abbrev pub IsPlain : CmdMessage → Type 0
IsPlain m = (m.msg_id ≢ abort) × (m.msg_id ≢ abort_crash)

local_event_now-crash :
    {tid : ℕ} {o : ObjectData} (s : Worker)
    → InTransaction tid o s
    → Leaves (InTransaction tid o) (on_crash s)
unfolding on_crash
local_event_now-crash s h = local_event_now-InTransaction crash h

begin-InTransaction :
    {tid : ℕ} {o : ObjectData} (m : CmdMessage) (resolved : Bool) (s : Worker)
    → InTransaction tid o s
    → Leaves (InTransaction tid o) (on_begin m resolved s)
unfolding on_begin
begin-InTransaction m true s h =
    tell_manager-InTransaction m
      (record s { to_addr = record { host = 0; sin_port = m.port % 2 ^ 16 } })
      (same-InTransaction _ h (refl, refl) refl (refl, refl, refl))
begin-InTransaction m false s h = tt

-- Each command but an abort keeps a worker that can undo its transaction able to undo it, whether
-- it goes on or crashes, where the behaviour is defined.
pub on_command-InTransaction :
    {tid : ℕ} {o : ObjectData} (m : CmdMessage) (now : ℕ) (resolved : Bool) (s : Worker)
    → IsPlain m
    → InTransaction tid o s
    → Leaves (InTransaction tid o) (on_command m now resolved s)
unfolding on_command
on_command-InTransaction m now resolved s plain h =
    elim (Bool-cases ((m.msg_id == begintx) || (m.msg_id == jointx))) [
      | inl e ↦ rw e (begin-InTransaction m resolved s h)
      | inr e1 ↦ elim (Bool-cases (m.msg_id == new_a)) [
        | inl e ↦ rw (e1, e) (new_a-InTransaction m now s h)
        | inr e2 ↦ elim (Bool-cases (m.msg_id == new_b)) [
          | inl e ↦ rw (e1, e2, e) (new_b-InTransaction m now s h)
          | inr e3 ↦ elim (Bool-cases (m.msg_id == new_idstr)) [
            | inl e ↦ rw (e1, e2, e3, e) (new_idstr-InTransaction m now s h)
            | inr e4 ↦ elim (Bool-cases (m.msg_id == delay_response)) [
              | inl e ↦
                  rw (e1, e2, e3, e4, e)
                    (same-InTransaction _ h (refl, refl) refl (refl, refl, refl))
              | inr e5 ↦ elim (Bool-cases (m.msg_id == crash)) [
                | inl e ↦ rw (e1, e2, e3, e4, e5, e) (local_event_now-crash s h)
                | inr e6 ↦ elim (Bool-cases (m.msg_id == commit_crash)) [
                  | inl e ↦
                      rw (e1, e2, e3, e4, e5, e6, e)
                        (commit-InTransaction m commit_crash 1 s (inr refl) h)
                  | inr e7 ↦ elim (Bool-cases (m.msg_id == commit)) [
                    | inl e ↦
                        rw (e1, e2, e3, e4, e5, e6, e7, e)
                          (commit-InTransaction m commit 0 s (inl refl) h)
                    | inr e8 ↦ elim (Bool-cases (m.msg_id == vote_abort)) [
                      | inl e ↦
                          rw
                            (
                              e1,
                              e2,
                              e3,
                              e4,
                              e5,
                              e6,
                              e7,
                              e8,
                              ==_ne _ _ plain.0,
                              ==_ne _ _ plain.1,
                              e,
                            )
                            (same-InTransaction _ h (refl, refl) refl (refl, refl, refl))
                      | inr e9 ↦
                          rw
                            (
                              e1,
                              e2,
                              e3,
                              e4,
                              e5,
                              e6,
                              e7,
                              e8,
                              ==_ne _ _ plain.0,
                              ==_ne _ _ plain.1,
                              e9,
                            )
                            h
                    ]
                  ]
                ]
              ]
            ]
          ]
        ]
      ]
    ]

-- Commands one after the other, each with the time of day and whether its host name is found.
unfoldable pub run_commands : List (CmdMessage × ℕ × Bool) → Worker → Outcome Worker
unfolding on_command
run_commands [] s = running s
run_commands ((m, now, resolved) ∷ cs) s = on_command m now resolved s >>= run_commands cs

pub run_commands-InTransaction :
    {tid : ℕ} {o : ObjectData} (cs : List (CmdMessage × ℕ × Bool)) (s : Worker)
    → All (λ (c : CmdMessage × ℕ × Bool). IsPlain c.0) cs
    → InTransaction tid o s
    → Leaves (InTransaction tid o) (run_commands cs s)
unfolding run_commands
run_commands-InTransaction [] s plain h = h
run_commands-InTransaction {tid} {o} ((m, now, resolved) ∷ cs) s plain h =
    Leaves-bind (InTransaction tid o) (on_command m now resolved s) (run_commands cs)
      (on_command-InTransaction m now resolved s plain.0 h)
      (λ t k. run_commands-InTransaction cs t plain.1 k)

read_val-InTransaction :
    {tid : ℕ} {o : ObjectData} {s : Worker}
    → InTransaction tid o s
    → (read_val_from_record s).obj ≡ o
unfolding read_val_from_record
read_val-InTransaction {tid} {o} {s} h = rw h.current h.undoes.1

-- A worker that joins a transaction whose tid is not that of its last record, and then carries out
-- any commands but an abort, and goes on or crashes (where the behaviour is defined): each way of
-- aborting restores the object that the join has found, its values, its string, its time and its
-- clock. These are a DECIDE_ABORT of the manager, and the commands ABORT and ABORT_CRASH.
pub abort-run_commands :
    (rec : Record) (m : TxMessage) (addr : Addr) (s : Worker)
    → m.msg_id ≡ join_success
    → is_fresh m.tid s.record_log ≡ true
    → (cs : List (CmdMessage × ℕ × Bool)) → All (λ (c : CmdMessage × ℕ × Bool). IsPlain c.0) cs
    → Leaves
        (λ t.
          ((d : TxMessage) → (on_decide_abort rec d t).obj ≡ s.obj)
          × ((kind flag : ℕ) → (on_abort kind flag t).obj ≡ s.obj))
        (run_commands cs (on_join rec m addr s))
unfolding on_decide_abort on_abort
abort-run_commands rec m addr s joined fresh cs plain =
    weaken (run_commands cs (on_join rec m addr s)) (
      run_commands-InTransaction cs (on_join rec m addr s) plain
        (on_join-InTransaction rec m addr s joined fresh))
  where
    weaken :
        (out : Outcome Worker)
        → Leaves (InTransaction m.tid s.obj) out
        → Leaves
            (λ t.
              ((d : TxMessage) → (on_decide_abort rec d t).obj ≡ s.obj)
              × ((kind flag : ℕ) → (on_abort kind flag t).obj ≡ s.obj))
            out
    weaken (running t) h = (λ d. read_val-InTransaction h, λ kind flag. read_val-InTransaction h)
    weaken (exited t) h = (λ d. read_val-InTransaction h, λ kind flag. read_val-InTransaction h)
    weaken undefined h = tt
