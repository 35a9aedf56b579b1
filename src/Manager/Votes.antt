-- ===== src/Manager/Votes.antt =====
-- Votes and decisions of tmanager.c: collectVote, isCommit, waitingForVotes, findStateFromRecord.
use distributed_system.Base.{
  ℕ, Bool, true, false, not, ◌||◌, Option, none, some, List, [], ◌∷◌, map, ◌==◌, if◌then◌else◌,
}
use distributed_system.Manager.State.{CoordRecord, Info, W}
use distributed_system.Msg.{
  TxMessage, abort, commit, commit_req, decide_abort, decide_commit, vote_abort, vote_commit, wait,
}
use distributed_system.Manager.Table.{find_info, update_info}

-- isCommit: some record of the log commits the transaction.
unfoldable pub is_commit : ℕ → List CoordRecord → Bool
is_commit tid [] = false
is_commit tid (r ∷ rs) =
    if r.tid == tid
    then (if r.msg_id == decide_commit then true else is_commit tid rs)
    else is_commit tid rs

-- The test in collectVote is `msg.msgID == VOTE_COMMIT || VOTE_ABORT`.
unfoldable pub set_vote : TxMessage → W → W
set_vote m w =
    if (m.msg_id == vote_commit) || not (vote_abort == 0)
    then record w { vote_yes = m.msg_id }
    else w

unfoldable pub vote_worker : TxMessage → List W → List W
unfolding set_vote
vote_worker m [] = []
vote_worker m (w ∷ ws) = if w.node_id == m.node_id then set_vote m w ∷ ws else w ∷ vote_worker m ws

unfoldable pub record_vote : TxMessage → List Info → List Info
unfolding update_info vote_worker
record_vote m = update_info m.tid (λ x. record x { workers = vote_worker m x.workers })

-- The second loop of collectVote; the last argument is the variable `commit`, none while it has no
-- value.
unfoldable pub tally : List W → Option ℕ → Option ℕ
tally [] commit = commit
tally (w ∷ ws) commit =
    let rest = tally ws (if w.node_id == 0 then commit else some decide_commit) in
    if w.node_id == 0
    then rest
    else (if (w.vote_yes == vote_abort) || (w.vote_yes == abort)
        then some decide_abort
        else (if w.vote_yes == 0 then some wait else rest))

-- The decision, over the table in which the vote has been recorded.
unfoldable pub decision_of : ℕ → List CoordRecord → Option Info → Option ℕ
unfolding is_commit tally
decision_of tid log none = if is_commit tid log then some decide_commit else some decide_abort
decision_of tid log (some x) = tally x.workers none

-- none is the return of `commit` with no value: no worker has joined.
unfoldable pub collect_vote : TxMessage → List Info → List CoordRecord → List Info × Option ℕ
unfolding record_vote decision_of find_info
collect_vote m infos log =
    let infos' = record_vote m infos in (infos', decision_of m.tid log (find_info m.tid infos'))

-- `r.msgID == (DECIDE_ABORT || DECIDE_COMMIT)` compares with 1.
unfoldable pub commit_requested : ℕ → List CoordRecord → Bool
commit_requested tid [] = false
commit_requested tid (r ∷ rs) =
    let rest = commit_requested tid rs in
    if r.tid == tid
    then (if r.msg_id == 1 then false else (if r.msg_id == commit_req then true else rest))
    else rest

-- The tid left in `abortTid`, if the function returns 1.
unfoldable pub waiting_for_votes : List Info → List CoordRecord → Option ℕ
unfolding commit_requested
waiting_for_votes [] log = none
waiting_for_votes (x ∷ xs) log =
    if commit_requested x.tid log then some x.tid else waiting_for_votes xs log

-- `struct state`: what recovery knows of a slot of the transaction table.
pub record State : Type 0 where
  pub tid : ℕ
  pub is_commit : ℕ

unfoldable pub mark_commit : CoordRecord → State → State
mark_commit r k = if r.tid == k.tid then record k { is_commit = 1 } else k

unfoldable pub mark_commits : List CoordRecord → List State → List State
unfolding mark_commit
mark_commits [] states = states
mark_commits (r ∷ rs) states =
    mark_commits rs (if r.msg_id == decide_commit then map (mark_commit r) states else states)

unfoldable pub find_state_from_record : List Info → List CoordRecord → List State
unfolding mark_commits
find_state_from_record infos log =
    mark_commits log (map (λ x. record { tid = x.tid; is_commit = 0 }) infos)
