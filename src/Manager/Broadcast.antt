-- ===== src/Manager/Broadcast.antt =====
-- Whom sendToAllWorkers of tmanager.c sends what.
use distributed_system.Base.{
  ℕ, ◌≡◌, refl, sym, ap, ◌∙◌, Bool, true, false, List, [], ◌∷◌, ◌++◌, arith, ◌==◌, if◌then◌else◌,
}
use distributed_system.Msg.{Addr, TxMessage}
use distributed_system.Manager.State.{Effect, Info, Manager, W, logged, sent, wrote}
use distributed_system.Manager.Handle.{
  send_to_all_workers, send_to_slots, send_to_worker, send_to_workers,
}

-- The messages sent, the last first: to whom, of which kind, about which transaction.
pub record Sending : Type 0 where
  pub to : Addr
  pub kind : ℕ
  pub tid : ℕ

unfoldable pub sendings : List Effect → List Sending
sendings [] = []
sendings (sent addr m ∷ h) = record { to = addr; kind = m.msg_id; tid = m.tid } ∷ sendings h
sendings (wrote r ∷ h) = sendings h
sendings (logged e ∷ h) = sendings h

-- The worker slots in use, in the order of the table, each once.
unfoldable pub joined : List W → List Addr
joined [] = []
joined (w ∷ ws) = if w.port == 0 then joined ws else w.worker_addr ∷ joined ws

unfoldable pub members : ℕ → List Info → List Addr
unfolding joined
members tid [] = []
members tid (x ∷ xs) = if x.tid == tid then joined x.workers ++ members tid xs else members tid xs

-- The sendings to some addresses, the last first, before those that were made earlier.
unfoldable pub after_all : ℕ → ℕ → List Addr → List Sending → List Sending
after_all kind tid [] before = before
after_all kind tid (a ∷ addrs) before =
    after_all kind tid addrs (record { to = a; kind = kind; tid = tid } ∷ before)

after_all-append :
    (kind tid : ℕ) (addrs bs : List Addr) (before : List Sending)
    → after_all kind tid (addrs ++ bs) before
      ≡ after_all kind tid bs (after_all kind tid addrs before)
unfolding after_all
after_all-append kind tid [] bs before = refl
after_all-append kind tid (a ∷ addrs) bs before = after_all-append kind tid addrs bs _

sendings-send_to_worker :
    (m out : TxMessage) (kind : ℕ) (w : W) (s : Manager)
    → sendings (send_to_worker m out kind w s).history ≡ (
        if w.port == 0
        then sendings s.history
        else record { to = w.worker_addr; kind = kind; tid = m.tid } ∷ sendings s.history)
unfolding sendings send_to_worker
sendings-send_to_worker m out kind w s = ground arith

sendings-send_to_workers :
    (m out : TxMessage) (kind : ℕ) (ws : List W) (s : Manager)
    → sendings (send_to_workers m out kind ws s).history
      ≡ after_all kind m.tid (joined ws) (sendings s.history)
unfolding send_to_workers joined after_all
sendings-send_to_workers m out kind [] s = refl
sendings-send_to_workers m out kind (w ∷ ws) s =
    sendings-send_to_workers m out kind ws _
    ∙ ap (after_all kind m.tid (joined ws)) (sendings-send_to_worker m out kind w s)
    ∙ push (w.port == 0)
  where
    push :
        (b : Bool)
        → after_all kind m.tid (joined ws) (
            if b
            then sendings s.history
            else record { to = w.worker_addr; kind = kind; tid = m.tid } ∷ sendings s.history)
          ≡ after_all kind m.tid
              (if b then joined ws else w.worker_addr ∷ joined ws)
              (sendings s.history)
    push true = refl
    push false = refl

sendings-send_to_slots :
    (m out : TxMessage) (kind : ℕ) (xs : List Info) (s : Manager)
    → sendings (send_to_slots m out kind xs s).history
      ≡ after_all kind m.tid (members m.tid xs) (sendings s.history)
unfolding send_to_slots members
sendings-send_to_slots m out kind [] s = unfold after_all in refl
sendings-send_to_slots m out kind (x ∷ xs) s =
    sendings-send_to_slots m out kind xs
      (if x.tid == m.tid then send_to_workers m out kind x.workers s else s)
    ∙ push (x.tid == m.tid)
  where
    push :
        (b : Bool)
        → after_all kind m.tid
            (members m.tid xs)
            (sendings (if b then send_to_workers m out kind x.workers s else s).history)
          ≡ after_all kind m.tid
              (if b then joined x.workers ++ members m.tid xs else members m.tid xs)
              (sendings s.history)
    push true =
        ap (after_all kind m.tid (members m.tid xs))
          (sendings-send_to_workers m out kind x.workers s)
        ∙ sym (after_all-append kind m.tid (joined x.workers) (members m.tid xs) _)
    push false = refl

-- What sendToAllWorkers sends is one message of the kind, about the transaction, to each worker
-- that has joined it, in the order of the table, and nothing else.
pub sendings-send_to_all_workers :
    (m out : TxMessage) (kind : ℕ) (s : Manager)
    → sendings (send_to_all_workers m out kind s).history
      ≡ after_all kind m.tid (members m.tid s.worker_info) (sendings s.history)
unfolding send_to_all_workers
sendings-send_to_all_workers m out kind s = sendings-send_to_slots m out kind s.worker_info s
