-- ===== src/Manager/WriteAhead.antt =====
-- The manager writes a commit into its log before it tells any worker of it.
use distributed_system.Base.{
  ℕ, ◌≡◌, inr, Bool, true, false, not, ◌&&◌, ◌||◌, List, [], ◌∷◌, arith, ◌==◌,
}
use distributed_system.Msg.{Addr, TxMessage, decide_commit}
use distributed_system.Manager.Closed.{Closed}
use distributed_system.Manager.Restart.{lose_memory}
use distributed_system.Manager.State.{
  CoordRecord, Effect, Manager, W, logged, merge_clock, restore_vector_time, save_vector_time, sent,
  update_clock, write_event_to_log, write_local_event_to_log, write_record_to_log, wrote,
}
use distributed_system.Manager.Handle.{
  Input, answer, change_table, datagram, log_message, no_bytes, poll_error, receive, send_to_worker,
  timeout,
}
use distributed_system.Manager.Reach.{InputFits, PollsFinished, Reach, Reach-keep}
use distributed_system.Manager.Votes.{is_commit}

-- A record that commits the transaction was written, so far.
unfoldable pub committed : ℕ → List Effect → Bool
committed tid [] = false
committed tid (sent addr m ∷ h) = committed tid h
committed tid (logged e ∷ h) = committed tid h
committed tid (wrote r ∷ h) = ((r.tid == tid) && (r.msg_id == decide_commit)) || committed tid h

-- Before each commit that was sent, a record that commits its transaction was written.
unfoldable pub write_ahead : List Effect → Bool
unfolding committed
write_ahead [] = true
write_ahead (sent addr m ∷ h) =
    (not (m.msg_id == decide_commit) || committed m.tid h) && write_ahead h
write_ahead (logged e ∷ h) = write_ahead h
write_ahead (wrote r ∷ h) = write_ahead h

-- The history is write-ahead, and its records are those of the log file.
abbrev pub IsWriteAhead : Manager → Type 0
IsWriteAhead s =
    (write_ahead s.history ≡ true)
    × ((tid : ℕ) → committed tid s.history ≡ is_commit tid s.record_log)

abbrev MayCommit : ℕ → ℕ → List CoordRecord → Type 0
MayCommit kind tid log = kind ≡ decide_commit → is_commit tid log ≡ true

answer-IsWriteAhead :
    (m : TxMessage) (addr : Addr) (kind : ℕ) (s : Manager)
    → MayCommit kind m.tid s.record_log
    → IsWriteAhead s
    → IsWriteAhead (answer m addr kind s)
unfolding answer write_ahead
answer-IsWriteAhead m addr kind s a p = (ground (arith, p.1 m.tid), p.1)

send_to_worker-IsWriteAhead :
    (m out : TxMessage) (kind : ℕ) (w : W) (s : Manager)
    → MayCommit kind m.tid s.record_log
    → IsWriteAhead s
    → IsWriteAhead (send_to_worker m out kind w s)
unfolding send_to_worker write_ahead
send_to_worker-IsWriteAhead m out kind w s a p =
    (ground (arith, p.1 m.tid), λ tid. ground (arith, p.1 tid))

write_ahead-Closed : Closed MayCommit IsWriteAhead
unfolding lose_memory save_vector_time update_clock restore_vector_time receive log_message
    write_local_event_to_log change_table write_record_to_log is_commit write_ahead
write_ahead-Closed = record {
  others = λ kind tid log h e. absurd (h e);
  commits = λ tid log h e. h;
  ticks = λ s p. p;
  restores = λ s p. p;
  forgets = λ rec out s p. p;
  receives = λ m s p. p;
  answers = answer-IsWriteAhead;
  sends = send_to_worker-IsWriteAhead;
  logs = λ kind m s p. (p.0, λ tid. ground (arith, p.1 tid));
  locals = λ kind s p. p;
  tables = λ f s p. p;
  aborts = λ t s p. (p.0, λ tid. ground (arith, p.1 tid));
}

finished_fits : (s : Manager) (i : Input) → PollsFinished s i → InputFits write_ahead-Closed s i
unfolding receive update_clock merge_clock save_vector_time write_event_to_log
finished_fits s poll_error f = tt
finished_fits s timeout f = tt
finished_fits s no_bytes f = tt
finished_fits s (datagram buffer addr) f = λ m rest e poll. inr (f m rest e poll)

-- From a state whose history is write-ahead with the records of the log file, through any inputs in
-- which every poll is about a transaction that the table does not hold, and through any crashes and
-- restarts, every commit that was sent was preceded by the writing of a record that commits its
-- transaction, and the log file holds the commits that were written.
pub Reach-IsWriteAhead : {s t : Manager} → IsWriteAhead s → Reach PollsFinished s t → IsWriteAhead t
Reach-IsWriteAhead p r = Reach-keep write_ahead-Closed PollsFinished finished_fits p r
