-- ===== src/Manager/Starts.antt =====
-- main of tmanager.c, run again on the log file, and the restarts of Reach.
use distributed_system.Base.{
  ℕ, ◌≡◌, refl, sym, ap, subst, ◌∙◌, ◌⊎◌, inl, inr, Bool, true, false, ◌&&◌, Option, none, some,
  arith, ◌==◌, if◌then◌else◌,
}
use distributed_system.Startup.{World, Start, refused, started, create_socket, found_file}
use distributed_system.Manager.State.{Manager}
use distributed_system.Manager.Handle.{Input, handle_worker_msg}
use distributed_system.Manager.Restart.{restart}
use distributed_system.Manager.Boot.{Files, main, enter, open_log, count_errors}
use distributed_system.Manager.Reach.{PollsFinished, Reach, crash_restart, exit_restart}
use distributed_system.Manager.Safety.{IsPersisted, finished-IsCommitted, finished-IsPersisted}
use distributed_system.Manager.WriteAhead.{IsWriteAhead, Reach-IsWriteAhead}
use distributed_system.Manager.Votes.{is_commit}
use distributed_system.Outcome.{exited}

started_of : Manager → Start Manager → Manager
started_of d (refused code) = d
started_of d (started s) = s

main-enter :
    (w : World) (f : Files) (port : ℕ) (u : Manager)
    → w.number ≡ some port
    → main w f ≡ started u
    → u ≡ enter w f port
unfolding main started_of
main-enter w f port u number e =
    go (w.argc == 2) (open_log w) w.number number (λ p. (count_errors w == 0) && create_socket w p)
      e
  where
    go :
        (a : Bool) (o n : Option ℕ)
        → n ≡ some port
        → (c : ℕ → Bool)
        → (if a
            then elim o as (λ x. Start Manager) [
              | some code ↦ refused code
              | none ↦ elim n as (λ x. Start Manager) [
                | none ↦ refused 1
                | some p ↦ if c p then started (enter w f p) else refused 1
              ]
            ]
            else refused 1)
          ≡ started u
        → u ≡ enter w f port
    go false o n k c e = absurd (ground (arith, e))
    go true (some code) n k c e = absurd (ground (arith, e))
    go true none none k c e = absurd (ground (arith, k))
    go true none (some p) k c e = pick (c p) e
      where
        pick :
            (b : Bool)
            → (if b then started (enter w f p) else refused 1) ≡ started u
            → u ≡ enter w f port
        pick true e = sym (ap (started_of u) e) ∙ ap (enter w f) (ground (arith, k))
        pick false e = absurd (ground (arith, e))

enter-restart :
    (w : World) (f : Files)
    → w.log_exists ≡ true
    → enter w f f.left.port ≡ restart f.rec f.out f.left
unfolding enter found_file
enter-restart w f found = rw found refl

main-restart :
    (w : World) (f : Files) (t u : Manager)
    → f.left ≡ t
    → w.log_exists ≡ true
    → w.number ≡ some t.port
    → main w f ≡ started u
    → u ≡ restart f.rec f.out t
main-restart w f t u same found number e =
    main-enter w f f.left.port u (number ∙ ap (λ (s : Manager). some s.port) (sym same)) e
    ∙ enter-restart w f found
    ∙ ap (restart f.rec f.out) same

-- A start on the log file that a run has left is a step of Reach.
main-Reach :
    (Fits : Manager → Input → Type 0) (s t v u : Manager) (i : Input) (w : World) (f : Files)
    → Reach Fits s t
    → Fits t i
    → (f.left ≡ t) ⊎ ((f.left ≡ v) × (handle_worker_msg t i ≡ exited v))
    → w.log_exists ≡ true
    → w.number ≡ some f.left.port
    → main w f ≡ started u
    → Reach Fits s u
main-Reach Fits s t v u i w f r fits (inl same) found number e =
    subst (Reach Fits s) (sym (main-restart w f f.left u refl found number e))
      (subst (λ x. Reach Fits s (restart f.rec f.out x)) (sym same) (crash_restart f.rec f.out r))
main-Reach Fits s t v u i w f r fits (inr (same, left)) found number e =
    subst (Reach Fits s) (sym (main-restart w f f.left u refl found number e)) (
      subst (λ x. Reach Fits s (restart f.rec f.out x)) (sym same)
        (exit_restart i f.rec f.out r fits left))

-- main of tmanager.c, run again with the same port on the log file that a run of the manager has left,
-- whether the process was killed between two rounds or left in one, where every poll of the run is
-- about a transaction that the table does not hold, and where the run began with a write-ahead
-- history, with its clock in the file and with a commit of a transaction in the log: if the process
-- goes into its loop, then the log still commits that transaction, every commit sent in the run or by
-- the start (of any transaction) was preceded by its record, and the clock in the file is the own one.
pub main-IsWriteAhead :
    (tid : ℕ) (s t v u : Manager) (i : Input) (w : World) (f : Files)
    → IsWriteAhead s
    → IsPersisted s
    → is_commit tid s.record_log ≡ true
    → Reach PollsFinished s t
    → PollsFinished t i
    → (f.left ≡ t) ⊎ ((f.left ≡ v) × (handle_worker_msg t i ≡ exited v))
    → w.log_exists ≡ true
    → w.number ≡ some f.left.port
    → main w f ≡ started u
    → IsWriteAhead u × (u.saved_clock ≡ u.my_vector_clock) × (is_commit tid u.record_log ≡ true)
main-IsWriteAhead tid s t v u i w f ahead kept commits r fits end found number e =
    let again = main-Reach PollsFinished s t v u i w f r fits end found number e in
    (
      Reach-IsWriteAhead ahead again,
      finished-IsPersisted kept again,
      finished-IsCommitted tid commits again,
    )
