-- ===== src/System/Ballot.antt =====
-- A whole ballot: the workers that the manager asks with PREPARE_COMMIT, and what it makes of their
-- votes.
use distributed_system.Base.{
  ℕ, ◌≡◌, refl, sym, ap, ◌∙◌, ◌≢◌, true, false, Option, none, some, List, [], ◌∷◌, append-nil,
  arith, map, ◌==◌, if◌then◌else◌, length, All,
}
use distributed_system.Worker.Command.{handle_cmd_msg, manager}
use distributed_system.Manager.State.{Manager, Info}
use distributed_system.Manager.Handle.{run}
use distributed_system.Outcome.{undefined, ◌>>=◌, Outcome, running}
use distributed_system.Msg.{
  join_fail, join_success, decide_commit, Addr, TxMessage, prepare_commit, vote_commit, vote_abort,
}
use distributed_system.Clock.{max_nodes}
use distributed_system.Wire.Roundtrip.{TxFits, deserialize_worker_msg-serialize_worker_msg}
use distributed_system.Wire.Words.{ClockFits}
use distributed_system.Worker.State.{
  Worker, Record, sent, save_vector_time, update_clock, write_record_to_log, write_event_to_log,
  merge_clock,
}
use distributed_system.Worker.Send.{construct_tx_message, send_msg}
use distributed_system.Worker.Record.{is_local_abort}
use distributed_system.Worker.Coordinator.{
  receive, choose_vote, on_message, after_vote, handle_manager_msg, on_prepare_commit,
}
use distributed_system.Manager.Count.{IsVote, AreVotes, IsOpen, is_sender, packets}
use distributed_system.Wire.{deserialize_worker_msg, serialize_worker_msg}
use mathlib.Core.List.{Memᴰ}
use distributed_system.Manager.Progress.{Commits, run-Commits}

-- A worker that is asked: the message of the manager, what the local rec holds, where the message
-- comes from, and where the manager finds the vote to come from.
pub record Voter : Type 0 where
  pub worker : Worker
  pub ask : TxMessage
  pub rec : Record
  pub manager_at : Addr
  pub home : Addr

-- The worker in front of its vote.
unfoldable pub asked : Voter → Worker
unfolding receive save_vector_time update_clock write_record_to_log
asked v = save_vector_time (
    update_clock v.worker.node_id (
      write_record_to_log (record v.rec { msg_id = v.ask.msg_id; tid = v.ask.tid })
        (receive v.ask v.manager_at v.worker)))

unfoldable pub vote_of : Voter → TxMessage × Addr
unfolding construct_tx_message asked
vote_of v = (construct_tx_message (asked v) v.ask vote_commit, v.home)

-- The worker behind its vote.
unfoldable pub voted : Voter → Worker
unfolding asked vote_of write_record_to_log write_event_to_log
voted v =
    let s1 = write_event_to_log (vote_of v).0 true v.manager_at.sin_port (asked v) in
    let s2 = record s1 { history = sent v.manager_at (vote_of v).0 ∷ s1.history } in
    record (write_record_to_log (record v.rec { msg_id = vote_commit; tid = v.ask.tid }) s2) {
      first_time_waiting = true;
      waiting = some v.manager_at;
    }

-- A worker that does not wait, with no delay and no crash asked for, that has not aborted and is not
-- to vote to abort, and that the manager asks about the transaction.
pub record CanVote (tid : ℕ) (v : Voter) : Type 0 where
  pub listens : v.worker.waiting ≡ none
  pub prompt : v.worker.delay ≡ 0
  pub calm : v.worker.is_crash ≡ 0
  pub unaborted : is_local_abort v.worker.cur_tid v.worker.record_log ≡ false
  pub willing : v.worker.vote ≢ vote_abort
  pub asks : v.ask.msg_id ≡ prepare_commit
  pub about : v.ask.tid ≡ tid
  pub node : v.ask.node_id ≢ 0
  pub fits : TxFits v.ask
  pub slots : length (asked v).my_vector_clock ≡ max_nodes
  pub clock_fits : All ClockFits (asked v).my_vector_clock

asked-choose_vote : (tid : ℕ) (v : Voter) → CanVote tid v → choose_vote (asked v) ≡ vote_commit
unfolding choose_vote asked is_local_abort receive merge_clock update_clock save_vector_time
    write_record_to_log write_event_to_log
asked-choose_vote tid v c = ground (arith, c.unaborted, c.willing, c.asks)

vote_of-IsVote : (tid : ℕ) (v : Voter) → CanVote tid v → IsVote tid (vote_of v).0
unfolding vote_of construct_tx_message asked receive merge_clock update_clock save_vector_time
    write_record_to_log write_event_to_log
vote_of-IsVote tid v c =
    let (h1, h2, h3, h4, h5, h6) = c.fits in
    (
      refl,
      c.about,
      c.node,
      c.calm,
      (omega arith, h2, h3, omega (arith, c.calm), c.slots, c.clock_fits),
    )

send_msg-prompt :
    (m : TxMessage) (addr : Addr) (s : Worker)
    → s.delay ≡ 0
    → send_msg m addr s ≡ running (record s { history = sent addr m ∷ s.history })
unfolding send_msg
send_msg-prompt m addr s h = ground (arith, h)

on_prepare_commit-voted :
    (tid : ℕ) (v : Voter)
    → CanVote tid v
    → on_prepare_commit v.rec v.ask v.manager_at (receive v.ask v.manager_at v.worker)
      ≡ running (voted v)
unfolding on_prepare_commit vote_of voted
on_prepare_commit-voted tid v c =
    ap (λ kind. voting kind) (asked-choose_vote tid v c)
    ∙ ap (λ o. o >>= λ t. after_vote r v.ask v.manager_at t)
        (send_msg-prompt (vote_of v).0 v.manager_at _ c.prompt)
  where
    r : Record
    r = record v.rec { msg_id = v.ask.msg_id; tid = v.ask.tid }

    voting : ℕ → Outcome Worker
    voting kind =
        let out = construct_tx_message (asked v) v.ask kind in
        let s2 = if kind == vote_abort then record (asked v) { vote = 0 } else asked v in
        send_msg out v.manager_at (write_event_to_log out true v.manager_at.sin_port s2) >>= λ t.
        after_vote r v.ask v.manager_at t

on_message-voted :
    (tid : ℕ) (v : Voter)
    → CanVote tid v
    → on_message v.rec v.ask v.manager_at (receive v.ask v.manager_at v.worker) ≡ running (voted v)
unfolding on_message
on_message-voted tid v c =
    let fail : (v.ask.msg_id == join_fail) ≡ false = ground (arith, c.asks) in
    let success : (v.ask.msg_id == join_success) ≡ false = ground (arith, c.asks) in
    let decided : (v.ask.msg_id == decide_commit) ≡ false = ground (arith, c.asks) in
    let prepare : (v.ask.msg_id == prepare_commit) ≡ true = ground (arith, c.asks) in
    rw (on_message, fail, success, decided, prepare, on_prepare_commit-voted tid v c) refl

handle_cmd_msg-voted :
    (tid : ℕ) (v : Voter)
    → CanVote tid v
    → handle_cmd_msg v.worker (manager v.rec (serialize_worker_msg v.ask) v.manager_at)
      ≡ running (voted v)
unfolding handle_cmd_msg handle_manager_msg
handle_cmd_msg-voted tid v c =
    let read =
      ap deserialize_worker_msg (sym (append-nil (serialize_worker_msg v.ask)))
      ∙ deserialize_worker_msg-serialize_worker_msg v.ask [] c.fits in
    ap
      (λ (w : Option Addr). elim w [
        | some addr ↦ running v.worker
        | none ↦ handle_manager_msg v.rec (serialize_worker_msg v.ask) v.manager_at v.worker
      ])
      c.listens
    ∙ ap
        (λ (o : Option (TxMessage × List ℕ)). elim o [
          | none ↦ undefined
          | some (m, rest) ↦ on_message v.rec m v.manager_at (receive m v.manager_at v.worker)
        ])
        read
    ∙ on_message-voted tid v c

-- Voters of different nodes that can vote.
abbrev pub CanVoteAll : ℕ → List Voter → Type 0
CanVoteAll tid [] = Unit
CanVoteAll tid (v ∷ vs) =
    CanVote tid v × (is_sender v.ask.node_id (map vote_of vs) ≡ false) × CanVoteAll tid vs

-- What a voter does with the message of the manager.
abbrev pub Votes : Voter → Type 0
Votes v =
    (handle_cmd_msg v.worker (manager v.rec (serialize_worker_msg v.ask) v.manager_at)
      ≡ running (voted v))
    × Memᴰ (sent v.manager_at (vote_of v).0) (voted v).history
    × ((voted v).waiting ≡ some v.manager_at)

voter-Votes : (tid : ℕ) (v : Voter) → CanVote tid v → Votes v
unfolding voted write_record_to_log
voter-Votes tid v c = (handle_cmd_msg-voted tid v c, Memᴰ.tail (Memᴰ.head refl), refl)

voters-Votes : (tid : ℕ) (vs : List Voter) → CanVoteAll tid vs → All Votes vs
voters-Votes tid [] h = tt
voters-Votes tid (v ∷ vs) (c, once, h) = (voter-Votes tid v c, voters-Votes tid vs h)

votes-AreVotes : (tid : ℕ) (vs : List Voter) → CanVoteAll tid vs → AreVotes tid (map vote_of vs)
unfolding vote_of construct_tx_message
votes-AreVotes tid [] h = tt
votes-AreVotes tid (v ∷ vs) (c, once, h) = (vote_of-IsVote tid v c, once, votes-AreVotes tid vs h)

-- Workers of different nodes that the manager asks for their votes and that wait for nothing, with
-- no delay and no crash asked for, that have not aborted and are not to vote to abort, and whose
-- messages fit their datagrams, each send their vote and wait for the decision. If the table holds
-- the transaction with no node twice, no abort and no mark for a crash, and they are the nodes
-- whose votes are missing, the votes, in any order, lead the manager to log the commit and to send
-- it to each member and nothing else.
pub ballot-Commits :
    (tid : ℕ) (v : Voter) (vs : List Voter) (x : Info) (s : Manager)
    → CanVoteAll tid (v ∷ vs)
    → IsOpen tid (map vote_of (v ∷ vs)) x s
    → All Votes (v ∷ vs) × Commits tid s (run s (packets (map vote_of (v ∷ vs))))
ballot-Commits tid v vs x s h o = (
  voters-Votes tid (v ∷ vs) h,
  run-Commits tid (vote_of v) (map vote_of vs) x s (votes-AreVotes tid (v ∷ vs) h) o,
)
