-- ===== src/System/BallotTests.antt =====
-- A ballot of two workers, and an instance of the theorem.
use distributed_system.Base.{ℕ, refl, [], ◌∷◌, arith, map, replicate, All}
use distributed_system.Msg.{Addr, TxMessage, prepare_commit}
use distributed_system.Clock.{empty, update_my_vector_clock, merge_vector_clock, tick}
use distributed_system.Worker.State.{Record}
use distributed_system.Worker.Restart.{first_start as worker_start}
use distributed_system.Manager.Table.{find_info}
use distributed_system.Manager.Decision.{has_worker}
use distributed_system.Manager.Ballot.{IsBallot, is_pending, has_id}
use distributed_system.Manager.Count.{IsOpen, is_sender, packets}
use distributed_system.Manager.Progress.{Commits}
use distributed_system.Manager.Handle.{run}
use distributed_system.Worker.Record.{is_local_abort}
use distributed_system.Manager.State.{Manager, Info, W}
use distributed_system.Manager.Restart.{first_start}
use distributed_system.System.Ballot.{Voter, CanVote, asked, Votes, ballot-Commits, vote_of}

abbrev manager_home : Addr
manager_home = record { host = 2130706433; sin_port = 9000 }

abbrev worker_home : Addr
worker_home = record { host = 2130706433; sin_port = 40001 }

abbrev question : ℕ → TxMessage
question id = record {
  msg_id = prepare_commit;
  tid = 7;
  node_id = id;
  is_crash = 0;
  vector_clock = record { node_id = 9000; time = 5 } ∷ replicate 9 empty;
}

abbrev no_record : Record
no_record = record {
  msg_id = 0;
  tid = 0;
  old_value = 0;
  old_id = [];
  vector_clock = [];
  last_update_time = 0;
}

abbrev voter : ℕ → Voter
voter id = record {
  worker =
      worker_start id 40001 100
        (record { id_string = []; last_update_time = 0; a = 1; b = 2; vector_clock = [] })
        manager_home (question 0) no_record;
  ask = question id;
  rec = no_record;
  manager_at = manager_home;
  home = worker_home;
}

abbrev slot : ℕ → W
slot id = record { node_id = id; port = id; worker_addr = worker_home; vote_yes = 0 }

abbrev transaction : Info
transaction = record { tid = 7; is_crash = 0; workers = slot 5000 ∷ slot 0 ∷ slot 6000 ∷ [] }

abbrev waiting_manager : Manager
waiting_manager =
    record (first_start 9000 worker_home (record { msg_id = 0; tid = 0; node_id = 0 })
      (question 0)) { worker_info = transaction ∷ [] }

voter_5000-CanVote : CanVote 7 (voter 5000)
unfolding asked worker_start update_my_vector_clock merge_vector_clock tick is_local_abort
voter_5000-CanVote = record {
  listens = refl;
  prompt = refl;
  calm = refl;
  unaborted = refl;
  willing = λ e. absurd (ground (arith, e));
  asks = refl;
  about = refl;
  node = λ e. absurd (ground (arith, e));
  fits = omega arith;
  slots = refl;
  clock_fits = omega arith;
}

voter_6000-CanVote : CanVote 7 (voter 6000)
unfolding asked worker_start update_my_vector_clock merge_vector_clock tick is_local_abort
voter_6000-CanVote = record {
  listens = refl;
  prompt = refl;
  calm = refl;
  unaborted = refl;
  willing = λ e. absurd (ground (arith, e));
  asks = refl;
  about = refl;
  node = λ e. absurd (ground (arith, e));
  fits = omega arith;
  slots = refl;
  clock_fits = omega arith;
}

transaction-IsOpen :
    IsOpen 7 (map vote_of (voter 6000 ∷ voter 5000 ∷ [])) transaction waiting_manager
unfolding first_start vote_of find_info has_worker is_pending is_sender IsBallot has_id
transaction-IsOpen = record {
  found = refl;
  ballot = ground arith;
  some_worker = refl;
  no_crash = refl;
  missing = λ id. ground arith;
}

ballot-Commits_example :
    All Votes (voter 6000 ∷ voter 5000 ∷ [])
    × Commits 7 waiting_manager
        (run waiting_manager (packets (map vote_of (voter 6000 ∷ voter 5000 ∷ []))))
unfolding is_sender vote_of
ballot-Commits_example =
    ballot-Commits 7 (voter 6000) (voter 5000 ∷ []) transaction waiting_manager
      (voter_6000-CanVote, refl, (voter_5000-CanVote, refl, tt)) transaction-IsOpen
