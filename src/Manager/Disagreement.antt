-- ===== src/Manager/Disagreement.antt =====
-- What a restart of tmanager.c does to a transaction whose votes are still coming in.
use distributed_system.Base.{
  ℕ, ◌≡◌, refl, sym, ap, subst, ◌∙◌, inl, inr, Bool, true, false, ◌&&◌, ◌||◌, List, [], ◌∷◌, arith,
  ◌==◌, if◌then◌else◌, Bool-cases,
}
use mathlib.Core.List.{Memᴰ}
use distributed_system.Msg.{Addr, decide_abort, TxMessage}
use distributed_system.Manager.State.{Manager, Info, W}
use distributed_system.Manager.Restart.{abort_uncommitted}
use distributed_system.Manager.Handle.{
  send_to_all_workers, send_to_slots, send_to_workers, send_to_worker,
}
use distributed_system.Manager.Broadcast.{
  Sending, after_all, members, sendings, sendings-send_to_all_workers,
}
use distributed_system.Manager.Votes.{State}
use mathlib.Core.List.Memᴰ

-- The sending of an abort.
abbrev pub aborting : ℕ → Addr → Sending
aborting tid addr = record { to = addr; kind = decide_abort; tid = tid }

after_all-before :
    (z : Sending) (kind tid : ℕ) (addrs : List Addr) (before : List Sending)
    → Memᴰ z before
    → Memᴰ z (after_all kind tid addrs before)
unfolding after_all
after_all-before z kind tid [] before h = h
after_all-before z kind tid (a ∷ addrs) before h = after_all-before z kind tid addrs _ (Memᴰ.tail h)

after_all-told :
    (addr : Addr) (tid : ℕ) (addrs : List Addr) (before : List Sending)
    → Memᴰ addr addrs
    → Memᴰ (aborting tid addr) (after_all decide_abort tid addrs before)
unfolding after_all
after_all-told addr tid [] before h = absurd (Memᴰ.not-nil h)
after_all-told addr tid (a ∷ addrs) before (Memᴰ.head e) =
    after_all-before (aborting tid addr) decide_abort tid addrs _ (Memᴰ.head (ap (aborting tid) e))
after_all-told addr tid (a ∷ addrs) before (Memᴰ.tail h) = after_all-told addr tid addrs _ h

-- Sending leaves the table alone.
send_to_workers-worker_info :
    (m out : TxMessage) (kind : ℕ) (ws : List W) (s : Manager)
    → (send_to_workers m out kind ws s).worker_info ≡ s.worker_info
unfolding send_to_workers send_to_worker
send_to_workers-worker_info m out kind [] s = refl
send_to_workers-worker_info m out kind (w ∷ ws) s =
    send_to_workers-worker_info m out kind ws _ ∙ ground arith

send_to_slots-worker_info :
    (m out : TxMessage) (kind : ℕ) (xs : List Info) (s : Manager)
    → (send_to_slots m out kind xs s).worker_info ≡ s.worker_info
unfolding send_to_slots
send_to_slots-worker_info m out kind [] s = refl
send_to_slots-worker_info m out kind (x ∷ xs) s =
    send_to_slots-worker_info m out kind xs _
    ∙ ground (arith, send_to_workers-worker_info m out kind x.workers s)

send_to_all_workers-worker_info :
    (m out : TxMessage) (kind : ℕ) (s : Manager)
    → (send_to_all_workers m out kind s).worker_info ≡ s.worker_info
unfolding send_to_all_workers
send_to_all_workers-worker_info m out kind s = send_to_slots-worker_info m out kind s.worker_info s

-- What the loop of a restart does for one slot.
abort_slot : State → Manager → Manager
abort_slot k s =
    if k.is_commit == 0
    then send_to_all_workers (record s.new_msg { tid = k.tid }) s.new_msg decide_abort s
    else s

abort_slot-worker_info : (k : State) (s : Manager) → (abort_slot k s).worker_info ≡ s.worker_info
unfolding abort_slot
abort_slot-worker_info k s = ground (
  arith,
  send_to_all_workers-worker_info (record s.new_msg { tid = k.tid }) s.new_msg decide_abort s,
)

abort_slot-before :
    (z : Sending) (k : State) (s : Manager)
    → Memᴰ z (sendings s.history)
    → Memᴰ z (sendings (abort_slot k s).history)
unfolding abort_slot
abort_slot-before z k s h = elim (Bool-cases (k.is_commit == 0)) [
  | inl e ↦
      rw
        (
          e,
          sendings-send_to_all_workers (record s.new_msg { tid = k.tid }) s.new_msg decide_abort s,
        )
        (after_all-before z decide_abort k.tid (members k.tid s.worker_info) (sendings s.history) h)
  | inr e ↦ rw e h
]

pub abort_uncommitted-worker_info :
    (ks : List State) (s : Manager) → (abort_uncommitted ks s).worker_info ≡ s.worker_info
unfolding abort_uncommitted abort_slot
abort_uncommitted-worker_info [] s = refl
abort_uncommitted-worker_info (k ∷ ks) s =
    abort_uncommitted-worker_info ks (abort_slot k s) ∙ abort_slot-worker_info k s

abort_uncommitted-before :
    (z : Sending) (ks : List State) (s : Manager)
    → Memᴰ z (sendings s.history)
    → Memᴰ z (sendings (abort_uncommitted ks s).history)
unfolding abort_uncommitted abort_slot
abort_uncommitted-before z [] s h = h
abort_uncommitted-before z (k ∷ ks) s h =
    abort_uncommitted-before z ks (abort_slot k s) (abort_slot-before z k s h)

-- Some slot of the transaction is not known to be committed.
unfoldable pub is_aborted : ℕ → List State → Bool
is_aborted tid [] = false
is_aborted tid (k ∷ ks) = ((k.tid == tid) && (k.is_commit == 0)) || is_aborted tid ks

abort_slot-tells :
    (addr : Addr) (k : State) (s : Manager)
    → k.is_commit ≡ 0
    → Memᴰ addr (members k.tid s.worker_info)
    → Memᴰ (aborting k.tid addr) (sendings (abort_slot k s).history)
unfolding abort_slot
abort_slot-tells addr k s e h =
    let b : (k.is_commit == 0) ≡ true = ground (arith, e) in
    rw (b, sendings-send_to_all_workers (record s.new_msg { tid = k.tid }) s.new_msg decide_abort s)
      (after_all-told addr k.tid (members k.tid s.worker_info) (sendings s.history) h)

pub abort_uncommitted-tells :
    (addr : Addr) (tid : ℕ) (ks : List State) (s : Manager)
    → is_aborted tid ks ≡ true
    → Memᴰ addr (members tid s.worker_info)
    → Memᴰ (aborting tid addr) (sendings (abort_uncommitted ks s).history)
unfolding abort_uncommitted abort_slot is_aborted
abort_uncommitted-tells addr tid [] s h m = absurd (ground arith)
abort_uncommitted-tells addr tid (k ∷ ks) s h m =
    elim (Bool-cases ((k.tid == tid) && (k.is_commit == 0))) [
      | inl e ↦
          let about : k.tid ≡ tid = ground (arith, e) in
          abort_uncommitted-before (aborting tid addr) ks (abort_slot k s) (
            subst (λ t. Memᴰ (aborting t addr) (sendings (abort_slot k s).history)) about
              (abort_slot-tells addr k s (ground (arith, e))
                (subst (λ t. Memᴰ addr (members t s.worker_info)) (sym about) m)))
      | inr e ↦
          abort_uncommitted-tells addr tid ks (abort_slot k s) (ground (arith, e, h))
            (subst (λ infos. Memᴰ addr (members tid infos)) (sym (abort_slot-worker_info k s)) m)
    ]
