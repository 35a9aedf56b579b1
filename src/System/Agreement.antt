-- ===== src/System/Agreement.antt =====
-- No worker commits what the manager has not committed.
use distributed_system.Base.{
  All-weaken, All-middle, All-replace, All-mem, ℕ, ◌≡◌, sym, ap, subst, ◌∙◌, inl, inr, true, Option,
  none, some, List, [], ◌∷◌, append-nil, arith, All,
}
use distributed_system.Manager.State.{sent, wrote, logged, Effect, Manager}
use distributed_system.Manager.WriteAhead.{write_ahead, committed, IsWriteAhead, Reach-IsWriteAhead}
use mathlib.Core.List.{Memᴰ}
use distributed_system.Manager.Safety.{IsCommitted, finished-IsCommitted}
use distributed_system.Manager.Votes.{is_commit}
use distributed_system.Worker.State.{Worker, Record}
use distributed_system.Outcome.{Leaves}
use distributed_system.Worker.Restart.{restart}
use distributed_system.Worker.Command.{Input, quiet, command, manager, wait_reply, handle_cmd_msg}
use distributed_system.Worker.Coordinator.{reply, poll_error, timed_out, no_bytes}
use distributed_system.Worker.Commits.{Logged, weaken-Logged}
use distributed_system.Worker.Decisions.{MayArrive, handle_cmd_msg-IsLogged, restart-IsLogged}
use distributed_system.Msg.{Addr, TxMessage, decide_commit}
use distributed_system.System.Run.{
  MayMeet, System, Run, here, manager_turn, worker_crash, worker_exit, worker_turn, IsSent,
}
use distributed_system.Wire.Roundtrip.{TxFits, deserialize_worker_msg-serialize_worker_msg}
use distributed_system.Wire.{serialize_worker_msg, deserialize_worker_msg}
use mathlib.Core.List.Memᴰ

-- What the sending of a message asks of the history before it.
Claim : List Effect → Effect → Type 0
Claim h (sent addr m) = m.msg_id ≡ decide_commit → committed m.tid h ≡ true
Claim h (wrote r) = Unit
Claim h (logged v) = Unit

sent-committed :
    (addr : Addr) (m : TxMessage) (h : List Effect)
    → write_ahead h ≡ true
    → m.msg_id ≡ decide_commit
    → Memᴰ (sent addr m) h
    → committed m.tid h ≡ true
unfolding write_ahead Claim
sent-committed addr m [] ahead e k = absurd (Memᴰ.not-nil k)
sent-committed addr m (sent to n ∷ h) ahead e k = elim (Memᴰ.cases_cons k) [
  | inl same ↦
      let now : Claim h (sent to n) = λ d. ground (arith, ahead, d) in
      subst (Claim h) (sym same) now e
  | inr later ↦ sent-committed addr m h (ground (arith, ahead)) e later
]
sent-committed addr m (wrote r ∷ h) ahead e k = elim (Memᴰ.cases_cons k) [
  | inl same ↦ ground (arith, same)
  | inr later ↦ ground (arith, sent-committed addr m h ahead e later)
]
sent-committed addr m (logged v ∷ h) ahead e k = elim (Memᴰ.cases_cons k) [
  | inl same ↦ ground (arith, same)
  | inr later ↦ sent-committed addr m h ahead e later
]

MayMeet-MayArrive :
    (c : Manager) (i : Input)
    → IsWriteAhead c
    → MayMeet c i
    → MayArrive (λ tid. IsCommitted tid c) i
unfolding MayMeet MayArrive
MayMeet-MayArrive c quiet a f = tt
MayMeet-MayArrive c (command buffer now resolved) a f = tt
MayMeet-MayArrive c (manager rec buffer addr) a f = λ m rest e d.
    let (to, k) = f m rest e in sym (a.1 m.tid) ∙ sent-committed to m c.history a.0 d k
MayMeet-MayArrive c (wait_reply rec (reply buffer addr)) a f = λ m rest e d.
    let (to, k) = f m rest e in sym (a.1 m.tid) ∙ sent-committed to m c.history a.0 d k
MayMeet-MayArrive c (wait_reply rec poll_error) a f = tt
MayMeet-MayArrive c (wait_reply rec timed_out) a f = tt
MayMeet-MayArrive c (wait_reply rec (no_bytes from)) a f = tt

-- The history of the manager is write-ahead, and each commit record of a worker is about a
-- transaction that the log of the manager commits.
pub record IsAgreed (s : System) : Type 0 where
  pub ahead : IsWriteAhead s.coordinator
  pub agreed : All (λ w. Logged (λ tid. IsCommitted tid s.coordinator) w.record_log) s.workers

abbrev WorkerAgrees : Manager → Worker → Type 0
WorkerAgrees c w = Logged (λ tid. IsCommitted tid c) w.record_log

-- A step of a worker leaves it, also where it has left, with commit records of final transactions.
turn-agrees :
    (c : Manager) (w : Worker) (i : Input)
    → IsWriteAhead c
    → MayMeet c i
    → WorkerAgrees c w
    → Leaves (WorkerAgrees c) (handle_cmd_msg w i)
turn-agrees c w i a f h =
    handle_cmd_msg-IsLogged (λ tid. IsCommitted tid c) w i (MayMeet-MayArrive c i a f) h

Run-IsAgreed : {s t : System} → IsAgreed s → Run s t → IsAgreed t
Run-IsAgreed p here = p
Run-IsAgreed p (manager_turn {t} {c} r q) =
    let h = Run-IsAgreed p r in
    record {
      ahead = Reach-IsWriteAhead h.ahead q;
      agreed =
          All-weaken t.workers
            (λ w k. weaken-Logged w.record_log (λ tid e. finished-IsCommitted tid e q) k) h.agreed;
    }
Run-IsAgreed p (worker_turn {c} before after w u i r f e) =
    let h = Run-IsAgreed p r in
    let now : WorkerAgrees c u =
      subst (Leaves (WorkerAgrees c)) e
        (turn-agrees c w i h.ahead f (All-middle (WorkerAgrees c) before after w h.agreed)) in
    record { ahead = h.ahead; agreed = All-replace (WorkerAgrees c) before after w u now h.agreed }
Run-IsAgreed p (worker_exit {c} before after w u i addr out rec r f e) =
    let h = Run-IsAgreed p r in
    let now : WorkerAgrees c u =
      subst (Leaves (WorkerAgrees c)) e
        (turn-agrees c w i h.ahead f (All-middle (WorkerAgrees c) before after w h.agreed)) in
    record {
      ahead = h.ahead;
      agreed =
          All-replace (WorkerAgrees c) before after w (restart addr out rec u)
            (restart-IsLogged (λ tid. IsCommitted tid c) addr out rec u now) h.agreed;
    }
Run-IsAgreed p (worker_crash {c} before after w addr out rec r) =
    let h = Run-IsAgreed p r in
    record {
      ahead = h.ahead;
      agreed =
          All-replace (WorkerAgrees c) before after w (restart addr out rec w)
            (restart-IsLogged (λ tid. IsCommitted tid c) addr out rec w
              (All-middle (WorkerAgrees c) before after w h.agreed))
            h.agreed;
    }

Logged-mem :
    (Ok : ℕ → Type 0) (r : Record) (rs : List Record)
    → Memᴰ r rs
    → r.msg_id ≡ decide_commit
    → Logged Ok rs
    → Ok r.tid
unfolding Logged
Logged-mem Ok r [] k e h = absurd (Memᴰ.not-nil k)
Logged-mem Ok r (q ∷ rs) k e h = elim (Memᴰ.cases_cons k) [
  | inl same ↦ subst (λ (x : Record). x.msg_id ≡ decide_commit → Ok x.tid) (sym same) h.0 e
  | inr later ↦ Logged-mem Ok r rs later e h.1
]

-- In every run of the manager and any number of workers, with any commands, crashes and restarts, and
-- with datagrams of the manager lost, repeated and reordered, but with polls only about transactions
-- that have left the table: a commit record that a worker has written is about a transaction that the
-- log file of the manager commits, if that was so at the start and the manager had sent no commit
-- without its record.
pub Run-committed :
    {s t : System} (w : Worker) (r : Record)
    → IsAgreed s
    → Run s t
    → Memᴰ w t.workers
    → Memᴰ r w.record_log
    → r.msg_id ≡ decide_commit
    → is_commit r.tid t.coordinator.record_log ≡ true
Run-committed {s} {t} w r p run k j e =
    Logged-mem (λ tid. IsCommitted tid t.coordinator) r w.record_log j e
      (All-mem (WorkerAgrees t.coordinator) w t.workers k (Run-IsAgreed p run).agreed)

-- A message that the manager has sent, as bytes on the wire.
pub serialize-IsSent :
    (c : Manager) (addr : Addr) (m : TxMessage)
    → TxFits m
    → Memᴰ (sent addr m) c.history
    → IsSent c (serialize_worker_msg m)
serialize-IsSent c addr m fits k n rest e =
    let read : ◌≡◌ {A = Option (TxMessage × List ℕ)} (some (m, [])) (some (n, rest)) =
      sym (deserialize_worker_msg-serialize_worker_msg m [] fits)
      ∙ ap deserialize_worker_msg (append-nil (serialize_worker_msg m))
      ∙ e in
    let same : m ≡ n =
      ap (λ (o : Option (TxMessage × List ℕ)). elim o [ none ↦ m | some (x, r) ↦ x ]) read in
    (addr, subst (λ (x : TxMessage). Memᴰ (sent addr x) c.history) same k)
