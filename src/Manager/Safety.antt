-- ===== src/Manager/Safety.antt =====
-- What holds of the transaction manager in every state that it reaches, crashes included.
use distributed_system.Base.{ℕ, ◌≡◌, refl, ap, ◌∙◌, inl, true, none, some, List, arith}
use distributed_system.Manager.Reach.{AnyInput, InputFits, Reach, Reach-keep, PollsFinished}
use distributed_system.Manager.Closed.{Closed}
use distributed_system.Manager.Restart.{lose_memory}
use distributed_system.Manager.State.{
  CoordRecord, Manager, restore_vector_time, save_vector_time, update_clock,
  write_local_event_to_log, write_record_to_log,
}
use distributed_system.Manager.Handle.{
  Input, answer, change_table, datagram, log_message, no_bytes, poll_error, receive, send_to_worker,
  timeout,
}
use distributed_system.Msg.{TxMessage, decide_commit}
use distributed_system.Manager.Votes.{collect_vote, decision_of, is_commit}
use distributed_system.Manager.Runs.{collect_vote-missing}
use distributed_system.Manager.Table.{find_info}

-- The vector clock in the mapped log is the one in memory.
abbrev pub IsPersisted : Manager → Type 0
IsPersisted s = s.saved_clock ≡ s.my_vector_clock

abbrev Always : ℕ → ℕ → List CoordRecord → Type 0
Always kind tid log = Unit

persisted-Closed : Closed Always IsPersisted
unfolding lose_memory save_vector_time update_clock restore_vector_time receive answer
    send_to_worker log_message write_local_event_to_log change_table write_record_to_log
persisted-Closed = record {
  others = λ kind tid log h. tt;
  commits = λ tid log h. tt;
  ticks = λ s p. refl;
  restores = λ s p. refl;
  forgets = λ rec out s p. p;
  receives = λ m s p. refl;
  answers = λ m addr kind s a p. p;
  sends = λ m out kind w s a p. ground arith;
  logs = λ kind m s p. p;
  locals = λ kind s p. p;
  tables = λ f s p. p;
  aborts = λ tid s p. p;
}

any_fits : (s : Manager) (i : Input) → AnyInput s i → InputFits persisted-Closed s i
any_fits s poll_error f = tt
any_fits s timeout f = tt
any_fits s no_bytes f = tt
any_fits s (datagram buffer addr) f = λ m rest e poll. inl tt

-- From a state whose clock is in the log file, whatever arrives and however often the manager
-- crashes and restarts, restoring the clock from the file would change nothing.
pub restore_vector_time-Reach :
    {s t : Manager} → IsPersisted s → Reach AnyInput s t → restore_vector_time t ≡ t
unfolding restore_vector_time
restore_vector_time-Reach {s} {t} p r =
    ap (λ vc. record t { my_vector_clock = vc }) (Reach-keep persisted-Closed AnyInput any_fits p r)

finished_polls : (s : Manager) (i : Input) → PollsFinished s i → InputFits persisted-Closed s i
finished_polls s poll_error f = tt
finished_polls s timeout f = tt
finished_polls s no_bytes f = tt
finished_polls s (datagram buffer addr) f = λ m rest e poll. inl tt

pub finished-IsPersisted : {s t : Manager} → IsPersisted s → Reach PollsFinished s t → IsPersisted t
finished-IsPersisted p r = Reach-keep persisted-Closed PollsFinished finished_polls p r

-- The log commits the transaction.
abbrev pub IsCommitted : ℕ → Manager → Type 0
IsCommitted tid s = is_commit tid s.record_log ≡ true

committed-Closed : (tid : ℕ) → Closed Always (IsCommitted tid)
unfolding lose_memory save_vector_time update_clock restore_vector_time receive answer
    send_to_worker log_message write_local_event_to_log change_table write_record_to_log is_commit
committed-Closed tid = record {
  others = λ kind t log h. tt;
  commits = λ t log h. tt;
  ticks = λ s p. p;
  restores = λ s p. p;
  forgets = λ rec out s p. p;
  receives = λ m s p. p;
  answers = λ m addr kind s a p. p;
  sends = λ m out kind w s a p. ground arith;
  logs = λ kind m s p. ground arith;
  locals = λ kind s p. p;
  tables = λ f s p. p;
  aborts = λ t s p. ground arith;
}

committed_fits :
    (tid : ℕ) (s : Manager) (i : Input) → AnyInput s i → InputFits (committed-Closed tid) s i
committed_fits tid s poll_error f = tt
committed_fits tid s timeout f = tt
committed_fits tid s no_bytes f = tt
committed_fits tid s (datagram buffer addr) f = λ m rest e poll. inl tt

Reach-IsCommitted :
    (tid : ℕ) {s t : Manager} → IsCommitted tid s → Reach AnyInput s t → IsCommitted tid t
Reach-IsCommitted tid p r = Reach-keep (committed-Closed tid) AnyInput (committed_fits tid) p r

polls_fits :
    (tid : ℕ) (s : Manager) (i : Input) → PollsFinished s i → InputFits (committed-Closed tid) s i
polls_fits tid s poll_error f = tt
polls_fits tid s timeout f = tt
polls_fits tid s no_bytes f = tt
polls_fits tid s (datagram buffer addr) f = λ m rest e poll. inl tt

pub finished-IsCommitted :
    (tid : ℕ) {s t : Manager} → IsCommitted tid s → Reach PollsFinished s t → IsCommitted tid t
finished-IsCommitted tid p r = Reach-keep (committed-Closed tid) PollsFinished (polls_fits tid) p r

-- A commit is final. Once the log commits a transaction, then in any state reached later, whatever
-- arrives and however often the manager restarts, as long as the table does not hold the
-- transaction, collectVote answers any message about it with a commit.
pub collect_vote-Reach :
    (m : TxMessage) {s t : Manager}
    → is_commit m.tid s.record_log ≡ true
    → Reach AnyInput s t
    → find_info m.tid t.worker_info ≡ none
    → collect_vote m t.worker_info t.record_log ≡ (t.worker_info, some decide_commit)
unfolding decision_of
collect_vote-Reach m {s} {t} p r missing =
    collect_vote-missing m t.worker_info t.record_log missing ∙ rw (Reach-IsCommitted m.tid p r)
