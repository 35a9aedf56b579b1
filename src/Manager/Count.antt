-- ===== src/Manager/Count.antt =====
-- The table of tmanager.c while the votes of a transaction come in.
use distributed_system.Base.{
  ℕ, ◌≡◌, refl, sym, ap, subst, ◌∙◌, ◌≢◌, inl, inr, Bool, true, false, ◌||◌, Option, none, some,
  List, [], ◌∷◌, arith, ◌==◌, Bool-cases,
}
use distributed_system.Msg.{TxMessage, Addr, vote_commit}
use distributed_system.Manager.State.{
  Manager, Info, W, merge_clock, save_vector_time, update_clock, write_event_to_log,
}
use distributed_system.Manager.Handle.{receive, Input, datagram}
use distributed_system.Manager.Broadcast.{members, joined}
use distributed_system.Manager.Ballot.{
  IsBallot, is_pending, has_worker-vote_worker, pending-vote_worker, vote_worker-IsBallot,
}
use distributed_system.Wire.Roundtrip.{TxFits}
use distributed_system.Wire.{serialize_worker_msg}
use distributed_system.Manager.Table.{find_info, get_crash, update_info}
use distributed_system.Manager.Decision.{has_worker}
use distributed_system.Manager.Votes.{record_vote, set_vote, vote_worker}

-- Whether a node is among the senders.
unfoldable pub is_sender : ℕ → List (TxMessage × Addr) → Bool
is_sender id [] = false
is_sender id (v ∷ vs) = (v.0.node_id == id) || is_sender id vs

-- A vote to commit the transaction, with no crash asked for, that fits its datagram.
abbrev pub IsVote : ℕ → TxMessage → Type 0
IsVote tid m =
    (m.msg_id ≡ vote_commit) × (m.tid ≡ tid) × (m.node_id ≢ 0) × (m.is_crash ≡ 0) × TxFits m

-- Votes of different nodes.
abbrev pub AreVotes : ℕ → List (TxMessage × Addr) → Type 0
AreVotes tid [] = Unit
AreVotes tid (v ∷ vs) = IsVote tid v.0 × (is_sender v.0.node_id vs ≡ false) × AreVotes tid vs

-- The datagrams of the votes.
abbrev pub packets : List (TxMessage × Addr) → List Input
packets [] = []
packets (v ∷ vs) = datagram (serialize_worker_msg v.0) v.1 ∷ packets vs

-- The table holds the transaction, which has a worker and is not marked for a crash, and the nodes
-- whose votes are missing are the senders.
pub record IsOpen (tid : ℕ) (vs : List (TxMessage × Addr)) (x : Info) (s : Manager) : Type 0 where
  pub found : find_info tid s.worker_info ≡ some x
  pub ballot : IsBallot x.workers
  pub some_worker : has_worker x.workers ≡ true
  pub no_crash : x.is_crash ≡ 0
  pub missing : (id : ℕ) → is_pending id x.workers ≡ is_sender id vs

-- The state in which the decision is taken.
unfoldable pub counted : TxMessage → Manager → Manager
counted m s = record (receive m s) { worker_info = record_vote m s.worker_info }

unfoldable pub counted_info : TxMessage → Info → Info
counted_info m x = record x { workers = vote_worker m x.workers }

pub find_info-record_vote :
    (m : TxMessage) (infos : List Info)
    → find_info m.tid (record_vote m infos)
      ≡ elim (find_info m.tid infos) [ none ↦ none | some x ↦ some (counted_info m x) ]
unfolding find_info record_vote update_info counted_info
find_info-record_vote m [] = refl
find_info-record_vote m (x ∷ xs) = elim (Bool-cases (x.tid == m.tid)) [
  | inl e ↦ rw e (rw e refl)
  | inr e ↦ rw e (rw e (find_info-record_vote m xs))
]

pub get_crash-find_info :
    (m : TxMessage) (infos : List Info)
    → get_crash m infos ≡ elim (find_info m.tid infos) [ none ↦ 0 | some x ↦ x.is_crash ]
unfolding find_info get_crash
get_crash-find_info m [] = refl
get_crash-find_info m (x ∷ xs) = elim (Bool-cases (x.tid == m.tid)) [
  | inl e ↦ rw e refl
  | inr e ↦ rw e (get_crash-find_info m xs)
]

joined-vote_worker : (m : TxMessage) (ws : List W) → joined (vote_worker m ws) ≡ joined ws
unfolding joined vote_worker set_vote
joined-vote_worker m [] = refl
joined-vote_worker m (w ∷ ws) = ground (arith, joined-vote_worker m ws)

pub members-record_vote :
    (tid : ℕ) (m : TxMessage) (infos : List Info)
    → members tid (record_vote m infos) ≡ members tid infos
unfolding members record_vote update_info
members-record_vote tid m [] = refl
members-record_vote tid m (x ∷ xs) =
    ground (arith, joined-vote_worker m x.workers, members-record_vote tid m xs)

pub found_now :
    (m : TxMessage) (tid : ℕ) (x : Info) (infos : List Info)
    → m.tid ≡ tid
    → find_info tid infos ≡ some x
    → find_info m.tid infos ≡ some x
found_now m tid x infos about found = subst (λ t. find_info t infos ≡ some x) (sym about) found

-- The table after a vote is open for the votes that follow.
pub counted-IsOpen :
    (tid : ℕ) (v : TxMessage × Addr) (vs : List (TxMessage × Addr)) (x : Info) (s : Manager)
    → AreVotes tid (v ∷ vs)
    → IsOpen tid (v ∷ vs) x s
    → IsOpen tid vs (counted_info v.0 x) (counted v.0 s)
unfolding counted counted_info is_sender receive update_clock merge_clock save_vector_time
    write_event_to_log
counted-IsOpen tid (m, addr) vs x s ((vote, about, node, calm, fits), once, others) o = record {
  found =
      subst (λ t. find_info t (record_vote m s.worker_info) ≡ some (counted_info m x)) about
        (find_info-record_vote m s.worker_info
          ∙ ap (λ (o : Option Info). elim o [ none ↦ none | some x ↦ some (counted_info m x) ])
              (found_now m tid x s.worker_info about o.found));
  ballot = vote_worker-IsBallot m x.workers vote o.ballot;
  some_worker = has_worker-vote_worker m x.workers ∙ o.some_worker;
  no_crash = o.no_crash;
  missing = λ id.
      pending-vote_worker m id x.workers vote node o.ballot ∙ ground (arith, o.missing id, once);
}
