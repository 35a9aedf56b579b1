-- ===== src/Manager/Recovery.antt =====
-- What a restart of the manager finds in its log: findStateFromRecord of tmanager.c.
use distributed_system.Base.{
  ℕ, ◌≡◌, refl, ap₂, ◌∙◌, inl, inr, Bool, false, ◌||◌, List, [], ◌∷◌, arith, map, ◌==◌,
  if◌then◌else◌, ==_iff, Bool-cases,
}
use distributed_system.Manager.State.{CoordRecord, Info}
use distributed_system.Manager.Votes.{
  State, is_commit, mark_commit, find_state_from_record, mark_commits,
}
use distributed_system.Msg.{decide_commit}

-- What recovery has to know of a transaction slot.
abbrev pub state_of : List CoordRecord → Info → State
state_of log x = record { tid = x.tid; is_commit = if is_commit x.tid log then 1 else 0 }

abbrev state_with : Bool → Info → State
state_with b x = record { tid = x.tid; is_commit = if b then 1 else 0 }

mark_step :
    (seen : ℕ → Bool) (r : CoordRecord) (infos : List Info)
    → r.msg_id ≡ decide_commit
    → map (mark_commit r) (map (λ x. state_with (seen x.tid) x) infos)
      ≡ map (λ x. state_with (seen x.tid || (x.tid == r.tid)) x) infos
unfolding mark_commit
mark_step seen r [] h = refl
mark_step seen r (x ∷ xs) h = ap₂ ◌∷◌ (ground arith) (mark_step seen r xs h)

map_same {ℓ} :
    {A : Type ℓ} {B : Type ℓ} (f g : A → B) (xs : List A)
    → ((a : A) → f a ≡ g a)
    → map f xs ≡ map g xs
map_same f g [] h = refl
map_same f g (x ∷ xs) h = ap₂ ◌∷◌ (h x) (map_same f g xs h)

-- The loop over the log, with the transactions `seen` marked before it.
mark_commits_lem :
    (seen : ℕ → Bool) (log : List CoordRecord) (infos : List Info)
    → mark_commits log (map (λ x. state_with (seen x.tid) x) infos)
      ≡ map (λ x. state_with (seen x.tid || is_commit x.tid log) x) infos
unfolding mark_commits is_commit
mark_commits_lem seen [] infos = map_same _ _ infos (λ x. ground arith)
mark_commits_lem seen (r ∷ rs) infos = elim (Bool-cases (r.msg_id == decide_commit)) [
  | inl is ↦ rw is (
      rw (mark_step seen r infos ((==_iff _ _).0 is)) (
        mark_commits_lem (λ t. seen t || (t == r.tid)) rs infos
        ∙ map_same _ _ infos (λ x. ground arith)))
  | inr not_commit ↦
      rw not_commit (mark_commits_lem seen rs infos ∙ map_same _ _ infos (λ x. ground arith))
]

-- After a restart the state of each transaction slot is its tid, with isCommit 1 exactly when some
-- record of the log commits that tid.
pub find_state_from_record_lem :
    (infos : List Info) (log : List CoordRecord)
    → find_state_from_record infos log ≡ map (state_of log) infos
unfolding find_state_from_record
find_state_from_record_lem infos log = mark_commits_lem (λ _. false) log infos
