-- ===== src/System/Run.antt =====
-- The manager of tmanager.c and the workers of tworker.c over time. Datagrams may be lost, repeated
-- and reordered: whatever the manager has sent so far may arrive at any worker, at any time and any
-- number of times. The datagrams that arrive at the manager, and the commands, are arbitrary.
use distributed_system.Base.{ℕ, ◌≡◌, some, List, ◌∷◌, ◌++◌}
use distributed_system.Manager.State.{Manager, sent}
use distributed_system.Manager.Reach.{Reach, PollsFinished}
use distributed_system.Worker.State.{Worker, Record}
use distributed_system.Worker.Command.{Input, manager, wait_reply, handle_cmd_msg}
use distributed_system.Worker.Coordinator.{reply}
use distributed_system.Worker.Restart.{restart}
use distributed_system.Wire.{deserialize_worker_msg}
use mathlib.Core.List.{Memᴰ}
use distributed_system.Msg.{Addr, TxMessage}
use distributed_system.Outcome.{exited, running}

pub record System : Type 0 where
  pub coordinator : Manager
  pub workers : List Worker

-- A datagram that reads as a message, if any, which the manager has sent.
abbrev pub IsSent : Manager → List ℕ → Type 0
IsSent t buffer =
    (m : TxMessage) (rest : List ℕ)
    → deserialize_worker_msg buffer ≡ some (m, rest)
    → (addr : Addr) × Memᴰ (sent addr m) t.history

-- What a worker may meet: on the manager's socket, only what the manager has sent.
unfoldable pub MayMeet : Manager → Input → Type 0
MayMeet t (manager rec buffer addr) = IsSent t buffer
MayMeet t (wait_reply rec (reply buffer addr)) = IsSent t buffer
MayMeet t _ = Unit

-- A turn of the manager is any stretch of its run, crashes and restarts included. A turn of a worker
-- is an event, one that it leaves in and its restart, or a crash and a restart.
pub data Run (s : System) : System → Type 0 where
  here : Run s s
  manager_turn :
      {t : System} {c : Manager}
      → Run s t
      → Reach PollsFinished t.coordinator c
      → Run s (record t { coordinator = c })
  worker_turn :
      {c : Manager} (before after : List Worker) (w u : Worker) (i : Input)
      → Run s (record { coordinator = c; workers = before ++ w ∷ after })
      → MayMeet c i
      → handle_cmd_msg w i ≡ running u
      → Run s (record { coordinator = c; workers = before ++ u ∷ after })
  worker_exit :
      {c : Manager} (before after : List Worker) (w u : Worker) (i : Input) (addr : Addr)
      (out : TxMessage) (rec : Record)
      → Run s (record { coordinator = c; workers = before ++ w ∷ after })
      → MayMeet c i
      → handle_cmd_msg w i ≡ exited u
      → Run s (record { coordinator = c; workers = before ++ restart addr out rec u ∷ after })
  worker_crash :
      {c : Manager} (before after : List Worker) (w : Worker) (addr : Addr) (out : TxMessage)
      (rec : Record)
      → Run s (record { coordinator = c; workers = before ++ w ∷ after })
      → Run s (record { coordinator = c; workers = before ++ restart addr out rec w ∷ after })
