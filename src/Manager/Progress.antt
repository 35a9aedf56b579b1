-- ===== src/Manager/Progress.antt =====
-- What a run of votes leads handleWorkerMsg of tmanager.c to.
use distributed_system.Base.{
  ℕ, ◌≡◌, refl, ap, ap₂, subst, ◌∙◌, true, false, ◌||◌, Option, none, some, List, [], ◌∷◌,
  append-nil, arith, ◌==◌,
}
use distributed_system.Manager.Count.{
  counted, AreVotes, IsOpen, IsVote, counted-IsOpen, counted_info, find_info-record_vote, found_now,
  get_crash-find_info, is_sender, members-record_vote, packets,
}
use distributed_system.Msg.{
  TxMessage, Addr, vote_commit, begintx, commit, jointx, poll_decision, decide_commit,
}
use distributed_system.Manager.State.{
  Manager, Info, merge_clock, save_vector_time, update_clock, write_event_to_log,
  write_record_to_log,
}
use distributed_system.Manager.Handle.{
  receive, datagram, handle_worker_msg, note_crash, on_decision, on_message, on_vote, announce,
  change_table, log_message, send_to_all_workers, run,
}
use distributed_system.Manager.Broadcast.{
  members, after_all, sendings, sendings-send_to_all_workers,
}
use distributed_system.Manager.Ballot.{vote_worker-IsBallot, tally-wait, tally-settled}
use distributed_system.Wire.Roundtrip.{deserialize_worker_msg-serialize_worker_msg}
use distributed_system.Wire.{serialize_worker_msg, deserialize_worker_msg}
use distributed_system.Manager.Table.{find_info, get_crash, clean_worker_info}
use distributed_system.Manager.Votes.{
  record_vote, vote_worker, collect_vote, decision_of, tally, is_commit,
}
use distributed_system.Outcome.{◌>>=◌, undefined, Outcome, running}
use distributed_system.Manager.Closed.{send_to_all_workers-record_log}

on_message-vote :
    (m : TxMessage) (addr : Addr) (s : Manager)
    → m.msg_id ≡ vote_commit
    → on_message m addr s ≡ on_vote m addr s
unfolding on_message
on_message-vote m addr s vote =
    let b1 : (m.msg_id == begintx) ≡ false = ground (arith, vote) in
    let b2 : (m.msg_id == jointx) ≡ false = ground (arith, vote) in
    let b3 : (m.msg_id == commit) ≡ false = ground (arith, vote) in
    let b4 : ((m.msg_id == poll_decision) || (m.msg_id == vote_commit)) ≡ true =
      ground (arith, vote) in
    rw (b1, b2, b3, b4) refl

on_vote-calm :
    (m : TxMessage) (addr : Addr) (s : Manager)
    → m.is_crash ≡ 0
    → on_vote m addr s
      ≡ on_decision m addr
          (decision_of m.tid s.record_log (find_info m.tid (record_vote m s.worker_info)))
          (record s { worker_info = record_vote m s.worker_info })
unfolding on_vote note_crash collect_vote
on_vote-calm m addr s calm = let b : (m.is_crash == 1) ≡ false = ground (arith, calm) in rw b refl

-- A round with a vote takes the decision in the table that holds the vote.
round-vote :
    (tid : ℕ) (m : TxMessage) (addr : Addr) (x : Info) (s : Manager)
    → IsVote tid m
    → find_info tid s.worker_info ≡ some x
    → handle_worker_msg s (datagram (serialize_worker_msg m) addr)
      ≡ on_decision m addr (tally (vote_worker m x.workers) none) (counted m s)
unfolding handle_worker_msg decision_of counted counted_info receive update_clock merge_clock
    save_vector_time write_event_to_log
round-vote tid m addr x s (vote, about, node, calm, fits) found =
    ap
      (λ (r : Option (TxMessage × List ℕ)). elim r [
        | none ↦ undefined
        | some (m, rest) ↦ on_message m addr (receive m s)
      ])
      read
    ∙ on_message-vote m addr (receive m s) vote
    ∙ on_vote-calm m addr (receive m s) calm
    ∙ ap (λ (o : Option Info). on_decision m addr (decision_of m.tid s.record_log o) (counted m s))
        (find_info-record_vote m s.worker_info
          ∙ ap (λ (o : Option Info). elim o [ none ↦ none | some x ↦ some (counted_info m x) ])
              (found_now m tid x s.worker_info about found))
  where
    read : deserialize_worker_msg (serialize_worker_msg m) ≡ some (m, [])
    read =
        subst (λ b. deserialize_worker_msg b ≡ some (m, [])) (append-nil (serialize_worker_msg m))
          (deserialize_worker_msg-serialize_worker_msg m [] fits)

-- The manager goes on, its log commits the transaction, and since the state s it has sent one commit
-- to each member of the transaction, in the order of the table, and nothing else.
pub Commits : ℕ → Manager → Outcome Manager → Type 0
Commits tid s o =
    (t : Manager) × (o ≡ running t)
    × (is_commit tid t.record_log ≡ true)
    × (sendings t.history
        ≡ after_all decide_commit tid (members tid s.worker_info) (sendings s.history))

-- The end of the transaction with a commit.
committed : TxMessage → Manager → Manager
committed m s =
    let u = log_message decide_commit m s in
    change_table (clean_worker_info m.tid) (send_to_all_workers m u.new_msg decide_commit u)

on_decision-commit :
    (m : TxMessage) (addr : Addr) (s : Manager)
    → m.msg_id ≡ vote_commit
    → get_crash m s.worker_info ≡ 0
    → on_decision m addr (some decide_commit) s ≡ running (committed m s)
unfolding on_decision announce committed log_message write_record_to_log
on_decision-commit m addr s vote calm =
    let b1 : (m.msg_id == poll_decision) ≡ false = ground (arith, vote) in
    let b2 : (get_crash m s.worker_info == 1) ≡ false = ground (arith, calm) in rw (b1, b2) refl

in_log :
    (m : TxMessage) (s : Manager)
    → is_commit m.tid (log_message decide_commit m s).record_log ≡ true
unfolding is_commit log_message write_record_to_log
in_log m s = ground arith

committed-record_log :
    (m : TxMessage) (s : Manager) → is_commit m.tid (committed m s).record_log ≡ true
unfolding committed change_table
committed-record_log m s =
    let u = log_message decide_commit m s in
    ap (is_commit m.tid) (send_to_all_workers-record_log m u.new_msg decide_commit u) ∙ in_log m s

sendings-committed :
    (m : TxMessage) (s : Manager)
    → sendings (committed m s).history
      ≡ after_all decide_commit m.tid (members m.tid s.worker_info) (sendings s.history)
unfolding committed change_table log_message write_record_to_log sendings
sendings-committed m s =
    let u = log_message decide_commit m s in
    sendings-send_to_all_workers m u.new_msg decide_commit u

-- A vote before the last one is counted and answered with nothing.
wait-round :
    (tid : ℕ) (v w : TxMessage × Addr) (vs : List (TxMessage × Addr)) (x : Info) (s : Manager)
    → AreVotes tid (v ∷ w ∷ vs)
    → IsOpen tid (v ∷ w ∷ vs) x s
    → handle_worker_msg s (datagram (serialize_worker_msg v.0) v.1) ≡ running (counted v.0 s)
unfolding is_sender on_decision counted_info
wait-round tid (m, addr) (n, from) vs x s h o =
    let next = counted-IsOpen tid (m, addr) ((n, from) ∷ vs) x s h o in
    round-vote tid m addr x s h.0 o.found
    ∙ ap (λ d. on_decision m addr d (counted m s))
        (tally-wait n.node_id (vote_worker m x.workers) none
          (vote_worker-IsBallot m x.workers h.0.0 o.ballot) (next.missing n.node_id ∙ ground arith))

last-round :
    (tid : ℕ) (v : TxMessage × Addr) (x : Info) (s : Manager)
    → AreVotes tid (v ∷ [])
    → IsOpen tid (v ∷ []) x s
    → handle_worker_msg s (datagram (serialize_worker_msg v.0) v.1)
      ≡ running (committed v.0 (counted v.0 s))
unfolding is_sender counted_info
last-round tid (m, addr) x s h o =
    let next = counted-IsOpen tid (m, addr) [] x s h o in
    round-vote tid m addr x s h.0 o.found
    ∙ ap (λ d. on_decision m addr d (counted m s))
        (tally-settled (vote_worker m x.workers) next.ballot next.missing next.some_worker)
    ∙ on_decision-commit m addr (counted m s) h.0.0 (
        get_crash-find_info m (counted m s).worker_info
        ∙ ap (λ (f : Option Info). elim f [ none ↦ 0 | some y ↦ y.is_crash ])
            (found_now m tid (counted_info m x) (counted m s).worker_info h.0.1 next.found)
        ∙ next.no_crash)

sendings-counted :
    (tid : ℕ) (m : TxMessage) (s : Manager)
    → (members tid (counted m s).worker_info ≡ members tid s.worker_info)
      × (sendings (counted m s).history ≡ sendings s.history)
unfolding counted receive update_clock merge_clock save_vector_time write_event_to_log sendings
sendings-counted tid m s = (members-record_vote tid m s.worker_info, refl)

-- Each node that has joined a transaction votes to commit it, the votes arrive in any order, one
-- datagram each: the manager goes on, its log commits the transaction, and it has sent one commit to
-- each member, in the order of the table, and nothing else. Before the votes, the table holds the
-- transaction with no node twice, no abort and no mark for a crash, and the nodes whose votes are
-- missing are the senders.
pub run-Commits :
    (tid : ℕ) (v : TxMessage × Addr) (vs : List (TxMessage × Addr)) (x : Info) (s : Manager)
    → AreVotes tid (v ∷ vs)
    → IsOpen tid (v ∷ vs) x s
    → Commits tid s (run s (packets (v ∷ vs)))
unfolding Commits run
run-Commits tid v [] x s h o =
    let about = h.0.1 in
    let (same_members, same_sendings) = sendings-counted tid v.0 s in
    (
      committed v.0 (counted v.0 s),
      ap (λ o. o >>= λ t. run t []) (last-round tid v x s h o),
      subst (λ t. is_commit t (committed v.0 (counted v.0 s)).record_log ≡ true) about
          (committed-record_log v.0 (counted v.0 s)),
      subst
            (λ t.
              sendings (committed v.0 (counted v.0 s)).history
              ≡ after_all decide_commit t (members t (counted v.0 s).worker_info)
                  (sendings (counted v.0 s).history))
            about (sendings-committed v.0 (counted v.0 s))
          ∙ ap₂ (after_all decide_commit tid) same_members same_sendings,
    )
run-Commits tid v (w ∷ vs) x s h o =
    let (same_members, same_sendings) = sendings-counted tid v.0 s in
    let (t, e, durable, told) =
      run-Commits tid w vs (counted_info v.0 x) (counted v.0 s) h.2
        (counted-IsOpen tid v (w ∷ vs) x s h o) in
    (
      t,
      ap (λ o. o >>= λ t. run t (packets (w ∷ vs))) (wait-round tid v w vs x s h o) ∙ e,
      durable,
      told ∙ ap₂ (after_all decide_commit tid) same_members same_sendings,
    )
