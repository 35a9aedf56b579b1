-- ===== src/Manager/Tests.antt =====
-- Runs of the transaction manager, and instances of the theorems about it.
use distributed_system.Base.{
  ℕ, ◌≡◌, refl, ◌↔◌, true, none, some, [], ◌∷◌, arith, map, replicate, All,
}
use distributed_system.Msg.{
  Addr, TxMessage, begintx, commit, jointx, vote_commit, begin_success, decide_commit, join_success,
  prepare_commit, poll_decision, vote_abort,
}
use distributed_system.Manager.State.{CoordRecord, Manager, Info, W, restore_vector_time}
use distributed_system.Outcome.{Outcome, exited, running, undefined}
use distributed_system.Clock.{empty}
use distributed_system.Manager.Table.{find_info}
use distributed_system.Manager.Restart.{first_start, restart}
use distributed_system.Manager.Votes.{is_commit, collect_vote, find_state_from_record, tally}
use distributed_system.Manager.Handle.{Input, run, datagram, handle_worker_msg, send_to_all_workers}
use distributed_system.Manager.WriteAhead.{IsWriteAhead, Reach-IsWriteAhead, write_ahead}
use distributed_system.Manager.Reach.{PollsFinished, Reach, here, round, crash_restart}
use distributed_system.Wire.{
  deserialize_clock, deserialize_worker_msg, serialize_clock, serialize_worker_msg,
}
use distributed_system.Manager.Broadcast.{
  sendings, after_all, joined, members, sendings-send_to_all_workers,
}
use distributed_system.Manager.Decision.{SaysYes, collect_vote-poll, has_worker, tally-eq-commit}
use distributed_system.Manager.Ballot.{IsBallot, has_id, is_pending}
use distributed_system.Manager.Progress.{Commits, run-Commits}
use distributed_system.Manager.Conflict.{restart-Commits}
use distributed_system.Manager.Disagreement.{aborting}
use mathlib.Core.List.{Memᴰ}
use distributed_system.Manager.Safety.{collect_vote-Reach, restore_vector_time-Reach}
use distributed_system.Manager.Recovery.{find_state_from_record_lem, state_of}
use distributed_system.Manager.Count.{IsOpen, is_sender, packets}

abbrev worker_at : Addr
worker_at = record { host = 2130706433; sin_port = 40001 }

abbrev no_record : CoordRecord
no_record = record { msg_id = 0; tid = 0; node_id = 0 }

abbrev no_message : TxMessage
no_message = record { msg_id = 0; tid = 0; node_id = 0; is_crash = 0; vector_clock = [] }

-- A message about transaction 7 of the worker at port 5000, as a datagram.
abbrev a_message : ℕ → TxMessage
a_message kind = record {
  msg_id = kind;
  tid = 7;
  node_id = 5000;
  is_crash = 0;
  vector_clock = record { node_id = 5000; time = 4 } ∷ replicate 9 empty;
}

abbrev after : Outcome Manager → Manager → Manager
after (running s) t = s
after (exited s) t = s
after undefined t = t

abbrev fresh : Manager
unfolding first_start
fresh = first_start 9000 worker_at no_record no_message

-- The transaction begins, the worker joins, asks for the commit and votes for it.
abbrev packet : ℕ → Input
unfolding serialize_worker_msg serialize_clock
packet kind = datagram (serialize_worker_msg (a_message kind)) worker_at

abbrev got : ℕ → Manager → Manager
unfolding handle_worker_msg deserialize_worker_msg deserialize_clock packet
got kind s = after (handle_worker_msg s (packet kind)) s

abbrev begun : Manager
unfolding got fresh
begun = got begintx fresh

abbrev joined_one : Manager
unfolding begun
joined_one = got jointx begun

abbrev asked : Manager
unfolding joined_one
asked = got commit joined_one

abbrev voted : Manager
unfolding asked
voted = got vote_commit asked

-- The manager tells the worker the commit, the log holds it, and the table has let it go.
commit_runs :
    (is_commit 7 voted.record_log ≡ true)
    × (find_info 7 voted.worker_info ≡ none)
    × (sendings voted.history
        ≡ record { to = worker_at; kind = decide_commit; tid = 7 }
          ∷ record { to = worker_at; kind = prepare_commit; tid = 7 }
          ∷ record { to = worker_at; kind = join_success; tid = 7 }
          ∷ record { to = worker_at; kind = begin_success; tid = 7 }
          ∷ [])
unfolding voted is_commit find_info sendings
commit_runs = (refl, refl, refl)

voted-Reach : Reach PollsFinished fresh voted
unfolding voted
voted-Reach =
    round (packet vote_commit)
      (round (packet commit)
        (round (packet jointx)
          (round (packet begintx) here (λ m rest e poll. absurd (ground arith)) refl)
          (λ m rest e poll. absurd (ground arith)) refl)
        (λ m rest e poll. absurd (ground arith)) refl)
      (λ m rest e poll. absurd (ground arith)) refl

Reach-IsWriteAhead_example : IsWriteAhead voted
unfolding voted write_ahead is_commit
Reach-IsWriteAhead_example = Reach-IsWriteAhead (refl, λ tid. refl) voted-Reach

-- The worker polls about the transaction after the manager has crashed and come back.
collect_vote-Reach_example :
    collect_vote
      (a_message poll_decision)
      (restart no_record no_message voted).worker_info
      (restart no_record no_message voted).record_log
    ≡ ((restart no_record no_message voted).worker_info, some decide_commit)
unfolding voted is_commit find_info restart
collect_vote-Reach_example =
    collect_vote-Reach (a_message poll_decision) {s = voted}
      {t = restart no_record no_message voted} refl (crash_restart no_record no_message here) refl

restore_vector_time-Reach_example :
    restore_vector_time (restart no_record no_message (restart no_record no_message begun))
    ≡ restart no_record no_message (restart no_record no_message begun)
unfolding begun
restore_vector_time-Reach_example =
    restore_vector_time-Reach {s = begun} refl
      (crash_restart no_record no_message (crash_restart no_record no_message here))

-- Two workers have joined; one has voted to commit and one has voted to abort.
abbrev slot : ℕ → ℕ → W
slot id vote = record { node_id = id; port = id; worker_addr = worker_at; vote_yes = vote }

tally-eq-commit_example :
    (tally (slot 5000 vote_commit ∷ slot 0 0 ∷ slot 6000 vote_abort ∷ []) none ≡ some decide_commit)
    ↔ ((has_worker (slot 5000 vote_commit ∷ slot 0 0 ∷ slot 6000 vote_abort ∷ []) ≡ true)
        × All SaysYes (slot 5000 vote_commit ∷ slot 0 0 ∷ slot 6000 vote_abort ∷ []))
tally-eq-commit_example =
    tally-eq-commit (slot 5000 vote_commit ∷ slot 0 0 ∷ slot 6000 vote_abort ∷ [])

find_state_from_record_example :
    find_state_from_record voted.worker_info voted.record_log
    ≡ map (state_of voted.record_log) voted.worker_info
unfolding voted
find_state_from_record_example = find_state_from_record_lem voted.worker_info voted.record_log

-- The table of a running transaction 7 of two workers, and that of two transactions.
abbrev running_7 : Info
running_7 = record {
  tid = 7;
  is_crash = 0;
  workers = slot 5000 0 ∷ slot 6000 vote_commit ∷ slot 0 0 ∷ [];
}

abbrev running_8 : Info
running_8 = record { tid = 8; is_crash = 0; workers = slot 0 0 ∷ [] }

abbrev free : Info
free = record { tid = 0; is_crash = 0; workers = slot 0 0 ∷ [] }

abbrev two_transactions : Manager
unfolding begun
two_transactions = record begun { worker_info = running_8 ∷ running_7 ∷ free ∷ [] }

sendings-send_to_all_workers_example :
    sendings
      (send_to_all_workers (a_message commit) no_message prepare_commit two_transactions).history
    ≡ after_all prepare_commit 7
        (members 7 two_transactions.worker_info)
        (sendings two_transactions.history)
unfolding two_transactions
sendings-send_to_all_workers_example =
    sendings-send_to_all_workers (a_message commit) no_message prepare_commit two_transactions

members_run : members 7 (running_8 ∷ running_7 ∷ free ∷ []) ≡ worker_at ∷ worker_at ∷ []
unfolding members
members_run = refl

-- A worker that polls, and one that has voted: the decision is a commit.
collect_vote-poll_example :
    (collect_vote (a_message poll_decision) (running_8 ∷ running_7 ∷ []) []).1
    ≡ (collect_vote (a_message vote_commit) (running_8 ∷ running_7 ∷ []) []).1
collect_vote-poll_example = collect_vote-poll (a_message commit) (running_8 ∷ running_7 ∷ []) []

poll_commits :
    (collect_vote (a_message poll_decision) (running_8 ∷ running_7 ∷ []) []).1 ≡ some decide_commit
unfolding collect_vote
poll_commits = refl

-- Two workers have been asked for their votes; the later one of the table votes first.
abbrev vote_of : ℕ → TxMessage × Addr
vote_of id = (record (a_message vote_commit) { node_id = id }, worker_at)

abbrev unvoted_7 : Info
unvoted_7 = record { tid = 7; is_crash = 0; workers = slot 5000 0 ∷ slot 0 0 ∷ slot 6000 0 ∷ [] }

abbrev unvoted : Manager
unfolding asked
unvoted = record asked { worker_info = running_8 ∷ unvoted_7 ∷ free ∷ [] }

unvoted-IsOpen : IsOpen 7 (vote_of 6000 ∷ vote_of 5000 ∷ []) unvoted_7 unvoted
unfolding unvoted find_info has_worker is_pending is_sender IsBallot has_id
unvoted-IsOpen = record {
  found = refl;
  ballot = ground arith;
  some_worker = refl;
  no_crash = refl;
  missing = λ id. ground arith;
}

run-Commits_example : Commits 7 unvoted (run unvoted (packets (vote_of 6000 ∷ vote_of 5000 ∷ [])))
unfolding is_sender
run-Commits_example =
    run-Commits 7 (vote_of 6000) (vote_of 5000 ∷ []) unvoted_7 unvoted (ground arith) unvoted-IsOpen

restart-Commits_example :
    Memᴰ (aborting 7 worker_at) (sendings (restart no_record no_message unvoted).history)
    × Commits 7
        (restart no_record no_message unvoted)
        (run (restart no_record no_message unvoted) (packets (vote_of 6000 ∷ vote_of 5000 ∷ [])))
unfolding is_sender unvoted is_commit members joined
restart-Commits_example =
    restart-Commits 7 (vote_of 6000) (vote_of 5000 ∷ []) unvoted_7 unvoted worker_at no_record
      no_message (ground arith) unvoted-IsOpen refl (Memᴰ.head refl)
