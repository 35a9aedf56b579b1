-- ===== src/Manager/Conflict.antt =====
-- A transaction of tmanager.c that a restart aborts and later votes commit.
use distributed_system.Base.{
  ℕ, ◌≡◌, refl, sym, ap, subst, ◌∙◌, inl, inr, true, false, some, List, [], ◌∷◌, arith, map, ◌==◌,
  Bool-cases,
}
use mathlib.Core.List.{Memᴰ}
use distributed_system.Manager.Disagreement.{
  aborting, abort_uncommitted-tells, abort_uncommitted-worker_info, is_aborted,
}
use distributed_system.Msg.{restarted, Addr, TxMessage}
use distributed_system.Manager.Progress.{Commits, run-Commits}
use distributed_system.Manager.State.{
  CoordRecord, Info, Manager, restore_vector_time, save_vector_time, update_clock,
  write_local_event_to_log,
}
use distributed_system.Manager.Table.{find_info}
use distributed_system.Manager.Votes.{find_state_from_record, is_commit}
use distributed_system.Manager.Recovery.{find_state_from_record_lem, state_of}
use distributed_system.Manager.Broadcast.{members, sendings}
use distributed_system.Manager.Restart.{lose_memory, restart}
use distributed_system.Manager.Handle.{run}
use distributed_system.Manager.Count.{AreVotes, IsOpen, packets}

state_of-is_aborted :
    (tid : ℕ) (x : Info) (log : List CoordRecord) (infos : List Info)
    → find_info tid infos ≡ some x
    → is_commit tid log ≡ false
    → is_aborted tid (map (state_of log) infos) ≡ true
unfolding is_aborted find_info
state_of-is_aborted tid x log [] found uncommitted = absurd (ground arith)
state_of-is_aborted tid x log (y ∷ ys) found uncommitted = elim (Bool-cases (y.tid == tid)) [
  | inl e ↦
      let about : is_commit y.tid log ≡ false =
        subst (λ t. is_commit t log ≡ false) (sym (ground (arith, e))) uncommitted in
      rw (e, about) refl
  | inr e ↦ rw e (state_of-is_aborted tid x log ys (rw e at found) uncommitted)
]

restart-worker_info :
    (rec : CoordRecord) (out : TxMessage) (s : Manager)
    → (restart rec out s).worker_info ≡ s.worker_info
unfolding restart lose_memory write_local_event_to_log save_vector_time update_clock
    restore_vector_time
restart-worker_info rec out s =
    let s1 =
      write_local_event_to_log restarted
        (save_vector_time (update_clock (restore_vector_time (lose_memory rec out s)))) in
    abort_uncommitted-worker_info (find_state_from_record s1.worker_info s1.record_log) s1

restart-tells :
    (rec : CoordRecord) (out : TxMessage) (addr : Addr) (tid : ℕ) (x : Info) (s : Manager)
    → find_info tid s.worker_info ≡ some x
    → is_commit tid s.record_log ≡ false
    → Memᴰ addr (members tid s.worker_info)
    → Memᴰ (aborting tid addr) (sendings (restart rec out s).history)
unfolding restart lose_memory write_local_event_to_log save_vector_time update_clock
    restore_vector_time
restart-tells rec out addr tid x s found uncommitted m =
    let s1 =
      write_local_event_to_log restarted
        (save_vector_time (update_clock (restore_vector_time (lose_memory rec out s)))) in
    abort_uncommitted-tells addr tid (find_state_from_record s1.worker_info s1.record_log) s1
      (ap (is_aborted tid) (find_state_from_record_lem s.worker_info s.record_log)
        ∙ state_of-is_aborted tid x s.record_log s.worker_info found uncommitted)
      m

-- A restart tells each member of an uncommitted transaction to abort, and votes to commit that arrive
-- after it, from the nodes whose votes are missing and in any order, still lead the manager to log the
-- commit and to send it to the same members.
pub restart-Commits :
    (tid : ℕ) (v : TxMessage × Addr) (vs : List (TxMessage × Addr)) (x : Info) (s : Manager)
    (addr : Addr) (rec : CoordRecord) (out : TxMessage)
    → AreVotes tid (v ∷ vs)
    → IsOpen tid (v ∷ vs) x s
    → is_commit tid s.record_log ≡ false
    → Memᴰ addr (members tid s.worker_info)
    → Memᴰ (aborting tid addr) (sendings (restart rec out s).history)
      × Commits tid (restart rec out s) (run (restart rec out s) (packets (v ∷ vs)))
restart-Commits tid v vs x s addr rec out h o uncommitted m = (
  restart-tells rec out addr tid x s o.found uncommitted m,
  run-Commits tid v vs x (restart rec out s) h (record {
    found = ap (find_info tid) (restart-worker_info rec out s) ∙ o.found;
    ballot = o.ballot;
    some_worker = o.some_worker;
    no_crash = o.no_crash;
    missing = o.missing;
  }),
)
