-- ===== src/Manager/Ballot.antt =====
-- What a vote does to the worker slots that collectVote of tmanager.c counts.
use distributed_system.Base.{
  ℕ, ◌≡◌, refl, ◌≢◌, Bool, true, false, not, ◌&&◌, ◌||◌, Option, none, some, List, [], ◌∷◌, arith,
  ◌==◌, All,
}
use distributed_system.Manager.State.{W}
use distributed_system.Manager.Decision.{SaysYes, has_worker, tally-yes}
use distributed_system.Msg.{TxMessage, abort, decide_commit, vote_abort, vote_commit, wait}
use distributed_system.Manager.Votes.{set_vote, tally, vote_worker}

-- Whether a taken slot of the node has no vote yet.
unfoldable pub is_pending : ℕ → List W → Bool
is_pending id [] = false
is_pending id (w ∷ ws) =
    ((w.node_id == id) && (not (w.node_id == 0) && (w.vote_yes == 0))) || is_pending id ws

unfoldable pub has_id : ℕ → List W → Bool
has_id id [] = false
has_id id (w ∷ ws) = (w.node_id == id) || has_id id ws

-- No node has two slots, and no taken slot holds an abort.
unfoldable pub IsBallot : List W → Type 0
unfolding has_id
IsBallot [] = Unit
IsBallot (w ∷ ws) =
    ((w.node_id ≢ 0)
      → (has_id w.node_id ws ≡ false) × (w.vote_yes ≢ vote_abort) × (w.vote_yes ≢ abort))
    × IsBallot ws

pending-has_id : (id : ℕ) (ws : List W) → has_id id ws ≡ false → is_pending id ws ≡ false
unfolding is_pending has_id
pending-has_id id [] h = refl
pending-has_id id (w ∷ ws) h = ground (arith, pending-has_id id ws)

has_id-vote_worker :
    (m : TxMessage) (id : ℕ) (ws : List W) → has_id id (vote_worker m ws) ≡ has_id id ws
unfolding has_id vote_worker set_vote
has_id-vote_worker m id [] = refl
has_id-vote_worker m id (w ∷ ws) = ground (arith, has_id-vote_worker m id ws)

pub has_worker-vote_worker :
    (m : TxMessage) (ws : List W) → has_worker (vote_worker m ws) ≡ has_worker ws
unfolding has_worker vote_worker set_vote
has_worker-vote_worker m [] = refl
has_worker-vote_worker m (w ∷ ws) = ground (arith, has_worker-vote_worker m ws)

pub vote_worker-IsBallot :
    (m : TxMessage) (ws : List W)
    → m.msg_id ≡ vote_commit
    → IsBallot ws
    → IsBallot (vote_worker m ws)
unfolding IsBallot vote_worker set_vote
vote_worker-IsBallot m [] e h = tt
vote_worker-IsBallot m (w ∷ ws) e h =
    ground (arith, vote_worker-IsBallot m ws e h.1, has_id-vote_worker m w.node_id ws)

-- A vote to commit settles the slot of its node, and no other.
pub pending-vote_worker :
    (m : TxMessage) (id : ℕ) (ws : List W)
    → m.msg_id ≡ vote_commit
    → m.node_id ≢ 0
    → IsBallot ws
    → is_pending id (vote_worker m ws) ≡ (is_pending id ws && not (id == m.node_id))
unfolding IsBallot is_pending vote_worker set_vote
pending-vote_worker m id [] e n h = refl
pending-vote_worker m id (w ∷ ws) e n h =
    ground (arith, pending-vote_worker m id ws e n h.1, pending-has_id m.node_id ws)

-- While a vote is missing the decision is to wait.
pub tally-wait :
    (id : ℕ) (ws : List W) (c : Option ℕ)
    → IsBallot ws
    → is_pending id ws ≡ true
    → tally ws c ≡ some wait
unfolding IsBallot is_pending tally
tally-wait id [] c h p = absurd (ground arith)
tally-wait id (w ∷ ws) c h p =
    ground (arith, tally-wait id ws c h.1, tally-wait id ws (some decide_commit) h.1)

settled-SaysYes :
    (ws : List W) → IsBallot ws → ((id : ℕ) → is_pending id ws ≡ false) → All SaysYes ws
unfolding IsBallot is_pending
settled-SaysYes [] h p = tt
settled-SaysYes (w ∷ ws) h p =
    (ground (arith, p w.node_id), settled-SaysYes ws h.1 (λ id. ground (arith, p id)))

-- When none is missing it is to commit, if there is a worker.
pub tally-settled :
    (ws : List W)
    → IsBallot ws
    → ((id : ℕ) → is_pending id ws ≡ false)
    → has_worker ws ≡ true
    → tally ws none ≡ some decide_commit
tally-settled ws h p some_worker = rw (tally-yes ws none (settled-SaysYes ws h p), some_worker) refl
