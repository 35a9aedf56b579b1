-- ===== src/Manager/Runs.antt =====
-- The same for a whole message, a round of the loop, a run and a restart.
use Prim.Native.Nat.{bit_or}
use distributed_system.Base.{
  ℕ, ◌≡◌, refl, sym, ap, subst, ◌∙◌, ◌⊎◌, inl, inr, true, ◌||◌, Option, none, some, List, [], ◌∷◌,
  arith, ◌==◌, Bool-cases,
}
use distributed_system.Msg.{
  Addr, TxMessage, begintx, commit, decide_abort, decide_commit, jointx, poll_decision, vote_abort,
  vote_commit,
}
use distributed_system.Manager.Closed.{Closed, all_workers-keep}
use distributed_system.Manager.State.{CoordRecord, Info, Manager, write_record_to_log}
use distributed_system.Manager.Keeps.{
  announce-keep, begin-keep, commit-keep, decision-keep, join-keep, note_crash-keep,
}
use distributed_system.Manager.Handle.{
  change_table, note_crash, on_message, on_timeout, on_vote, on_vote_abort, send_to_all_workers,
}
use distributed_system.Manager.Table.{clean_worker_info, find_info, set_crash, update_info}
use distributed_system.Manager.Votes.{
  collect_vote, decision_of, is_commit, record_vote, vote_worker, waiting_for_votes,
}
use distributed_system.Outcome.{Leaves}

pub update_info-missing :
    (tid : ℕ) (f : Info → Info) (infos : List Info)
    → find_info tid infos ≡ none
    → update_info tid f infos ≡ infos
unfolding find_info update_info
update_info-missing tid f [] h = refl
update_info-missing tid f (x ∷ xs) h = ground (arith, update_info-missing tid f xs)

-- Once a commit is in the log, is_commit says so.
pub decision_of-commit :
    (tid : ℕ) (log : List CoordRecord)
    → decision_of tid log none ≡ some decide_commit
    → is_commit tid log ≡ true
unfolding decision_of
decision_of-commit tid log h = ground arith

-- A poll about a transaction that the table does not hold leaves the table as it is.
pub note_crash-missing :
    (m : TxMessage) (s : Manager)
    → find_info m.tid s.worker_info ≡ none
    → ((note_crash m s).worker_info ≡ s.worker_info) × ((note_crash m s).record_log ≡ s.record_log)
unfolding note_crash change_table set_crash
note_crash-missing m s h = ground (
  arith,
  update_info-missing m.tid (λ x. record x { is_crash = bit_or x.is_crash m.is_crash })
      s.worker_info h,
)

note_crash-record_log : (m : TxMessage) (s : Manager) → (note_crash m s).record_log ≡ s.record_log
unfolding note_crash change_table
note_crash-record_log m s = ground arith

-- For a transaction that the table does not hold, the decision is that of the log.
pub collect_vote-missing :
    (m : TxMessage) (infos : List Info) (log : List CoordRecord)
    → find_info m.tid infos ≡ none
    → collect_vote m infos log ≡ (infos, decision_of m.tid log none)
unfolding collect_vote record_vote
collect_vote-missing m infos log h =
    rw (update_info-missing m.tid (λ x. record x { workers = vote_worker m x.workers }) infos h, h)

module _ {May : ℕ → ℕ → List CoordRecord → Type 0} {P : Manager → Type 0}
    (closed : Closed May P) where
  open closed use {others, commits, ticks, restores, receives, logs, locals, tables, aborts}

  -- What is asked of a poll: it may be told a commit, or the table does not hold its transaction.
  abbrev pub PollFits : TxMessage → Manager → Type 0
  PollFits m s =
      m.msg_id ≡ poll_decision
      → May decide_commit m.tid s.record_log ⊎ (find_info m.tid s.worker_info ≡ none)

  vote-keep :
      (m : TxMessage) (addr : Addr) (s : Manager) → PollFits m s → P s → Leaves P (on_vote m addr s)
  unfolding on_vote change_table
  vote-keep m addr s fits p =
      decision-keep closed m addr (collect_vote m s1.worker_info s1.record_log).1 _ polled (
        tables (λ _. (collect_vote m s1.worker_info s1.record_log).0) s1
          (note_crash-keep closed m s p))
    where
      s1 : Manager
      s1 = note_crash m s

      from_log :
          find_info m.tid s.worker_info ≡ none
          → (collect_vote m s1.worker_info s1.record_log).1 ≡ some decide_commit
          → May decide_commit m.tid s1.record_log
      from_log missing d =
          let same = note_crash-missing m s missing in
          commits m.tid s1.record_log (
            decision_of-commit m.tid s1.record_log (
              sym (
                ap (λ (r : List Info × Option ℕ). r.1)
                  (collect_vote-missing m s1.worker_info s1.record_log (rw (same.0) missing)))
              ∙ d))

      polled :
          (collect_vote m s1.worker_info s1.record_log).1 ≡ some decide_commit
          → m.msg_id ≡ poll_decision
          → May decide_commit m.tid s1.record_log
      polled d poll = elim (fits poll) [
        | inl may ↦ subst (May decide_commit m.tid) (sym (note_crash-record_log m s)) may
        | inr missing ↦ from_log missing d
      ]

  vote_abort-keep : (m : TxMessage) (s : Manager) → P s → Leaves P (on_vote_abort m s)
  unfolding on_vote_abort
  vote_abort-keep m s p =
      announce-keep closed m decide_abort _ (others decide_abort m.tid _ (omega arith))
        (logs decide_abort m _ (note_crash-keep closed m s p))

  pub message-keep :
      (m : TxMessage) (addr : Addr) (s : Manager)
      → PollFits m s
      → P s
      → Leaves P (on_message m addr s)
  unfolding on_message
  message-keep m addr s fits p = elim (Bool-cases (m.msg_id == begintx)) [
    | inl e ↦ rw e (begin-keep closed m addr s p)
    | inr e1 ↦ elim (Bool-cases (m.msg_id == jointx)) [
      | inl e ↦ rw (e1, e) (join-keep closed m addr s p)
      | inr e2 ↦ elim (Bool-cases (m.msg_id == commit)) [
        | inl e ↦ rw (e1, e2, e) (commit-keep closed m s p)
        | inr e3 ↦ elim (Bool-cases ((m.msg_id == poll_decision) || (m.msg_id == vote_commit))) [
          | inl e ↦ rw (e1, e2, e3, e) (vote-keep m addr s fits p)
          | inr e4 ↦ elim (Bool-cases (m.msg_id == vote_abort)) [
            | inl e ↦ rw (e1, e2, e3, e4, e) (vote_abort-keep m s p)
            | inr e5 ↦ rw (e1, e2, e3, e4, e5) p
          ]
        ]
      ]
    ]
  ]

  pub timeout-keep : (s : Manager) → P s → P (on_timeout s)
  unfolding on_timeout
  timeout-keep s p = go (waiting_for_votes s.worker_info s.record_log)
    where
      go :
          (o : Option ℕ)
          → P (elim o [
            | none ↦ s
            | some tid ↦
                let s1 = write_record_to_log (record s {
                  abort_tid = tid;
                  rec = record s.rec { msg_id = decide_abort; tid = tid };
                }) in
                change_table
                  (clean_worker_info tid)
                  (send_to_all_workers (record s.new_msg { tid = tid }) s.new_msg decide_abort s1)
          ])
      go none = p
      go (some tid) = tables (clean_worker_info tid) _ (
          all_workers-keep closed (record s.new_msg { tid = tid }) s.new_msg decide_abort _
            (others decide_abort tid _ (omega arith)) (aborts tid s p))
