-- ===== src/Manager/Decision.antt =====
-- When the manager decides what: collectVote and the scans of the log in tmanager.c.
use distributed_system.Base.{
  ℕ, ◌≡◌, refl, ◌≢◌, ◌↔◌, ◌⊎◌, inl, inr, Bool, true, false, not, ◌||◌, Option, none, some, List, [],
  ◌∷◌, ◌++◌, arith, ◌==◌, if◌then◌else◌, Bool-cases, All,
}
use distributed_system.Manager.State.{CoordRecord, Info, W}
use distributed_system.Msg.{
  TxMessage, abort, decide_abort, decide_commit, poll_decision, vote_abort, vote_commit,
}
use distributed_system.Manager.Votes.{
  collect_vote, commit_requested, decision_of, record_vote, set_vote, tally, vote_worker,
  waiting_for_votes,
}
use distributed_system.Manager.Table.{find_info, update_info}

-- A worker slot is unused, or holds a vote that is neither missing nor an abort.
abbrev pub SaysYes : W → Type 0
SaysYes w = (w.node_id ≡ 0) ⊎ ((w.vote_yes ≢ 0) × (w.vote_yes ≢ vote_abort) × (w.vote_yes ≢ abort))

unfoldable pub has_worker : List W → Bool
has_worker [] = false
has_worker (w ∷ ws) = not (w.node_id == 0) || has_worker ws

pub tally-yes :
    (ws : List W) (c : Option ℕ)
    → All SaysYes ws
    → tally ws c ≡ (if has_worker ws then some decide_commit else c)
unfolding tally has_worker
tally-yes [] c h = refl
tally-yes (w ∷ ws) c h = ground (arith, tally-yes ws c h.1, tally-yes ws (some decide_commit) h.1)

tally-commit : (ws : List W) (c : Option ℕ) → tally ws c ≡ some decide_commit → All SaysYes ws
unfolding tally
tally-commit [] c h = tt
tally-commit (w ∷ ws) c h = ground (arith, tally-commit ws c, tally-commit ws (some decide_commit))

tally-none : (ws : List W) → has_worker ws ≡ false → tally ws none ≡ none
unfolding tally has_worker
tally-none [] h = refl
tally-none (w ∷ ws) h = ground (arith, tally-none ws)

-- The second loop of collectVote decides to commit exactly when some worker slot is taken and every
-- taken slot has a vote, and none of them is an abort.
pub tally-eq-commit :
    (ws : List W) → (tally ws none ≡ some decide_commit) ↔ ((has_worker ws ≡ true) × All SaysYes ws)
tally-eq-commit ws = (forward, λ h. rw (tally-yes ws none h.1, h.0))
  where
    forward : tally ws none ≡ some decide_commit → (has_worker ws ≡ true) × All SaysYes ws
    forward e = elim (Bool-cases (has_worker ws)) [
      | inl some_worker ↦ (some_worker, tally-commit ws none e)
      | inr no_worker ↦ let e' = tally-none ws no_worker in absurd (ground (arith, e', e))
    ]

-- A poll and a vote to commit, from one worker.
tally-vote_worker :
    (m : TxMessage) (ws : List W) (c : Option ℕ)
    → tally (vote_worker (record m { msg_id = poll_decision }) ws) c
      ≡ tally (vote_worker (record m { msg_id = vote_commit }) ws) c
unfolding tally vote_worker set_vote
tally-vote_worker m [] c = refl
tally-vote_worker m (w ∷ ws) c =
    ground (arith, tally-vote_worker m ws c, tally-vote_worker m ws (some decide_commit))

decision_of-poll :
    (m : TxMessage) (infos : List Info) (log : List CoordRecord)
    → decision_of m.tid log
        (find_info m.tid (record_vote (record m { msg_id = poll_decision }) infos))
      ≡ decision_of m.tid log
          (find_info m.tid (record_vote (record m { msg_id = vote_commit }) infos))
unfolding decision_of find_info record_vote update_info
decision_of-poll m [] log = refl
decision_of-poll m (x ∷ xs) log =
    ground (arith, decision_of-poll m xs log, tally-vote_worker m x.workers none)

-- For every table and log, a poll for the decision leads to the same decision as a vote to commit
-- from the same worker.
pub collect_vote-poll :
    (m : TxMessage) (infos : List Info) (log : List CoordRecord)
    → (collect_vote (record m { msg_id = poll_decision }) infos log).1
      ≡ (collect_vote (record m { msg_id = vote_commit }) infos log).1
unfolding collect_vote
collect_vote-poll m infos log = decision_of-poll m infos log

-- Records of decisions, whatever transaction they are about.
abbrev pub IsDecision : CoordRecord → Type 0
IsDecision r = (r.msg_id ≡ decide_commit) ⊎ (r.msg_id ≡ decide_abort)

commit_requested-append :
    (tid : ℕ) (ds log : List CoordRecord)
    → All IsDecision ds
    → commit_requested tid (ds ++ log) ≡ commit_requested tid log
unfolding commit_requested
commit_requested-append tid [] log h = refl
commit_requested-append tid (d ∷ ds) log h = ground (arith, commit_requested-append tid ds log h.1)

-- The wait for votes takes no notice of decisions: after any decisions have been put into the log,
-- waitingForVotes finds the transaction that it would find without them.
pub waiting_for_votes-append :
    (infos : List Info) (ds log : List CoordRecord)
    → All IsDecision ds
    → waiting_for_votes infos (ds ++ log) ≡ waiting_for_votes infos log
unfolding waiting_for_votes
waiting_for_votes-append [] ds log h = refl
waiting_for_votes-append (x ∷ xs) ds log h =
    rw (commit_requested-append x.tid ds log h, waiting_for_votes-append xs ds log h)
