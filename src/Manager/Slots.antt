-- ===== src/Manager/Slots.antt =====
-- The transaction table of tmanager.c: what begins, joins and the end of a transaction do to it.
use distributed_system.Base.{
  ℕ, ◌+◌, ◌-◌, ◌≡◌, refl, ap, ◌≢◌, inl, inr, List, [], ◌∷◌, ◌++◌, arith, ◌==◌, if◌then◌else◌,
  Bool-cases, All,
}
use distributed_system.Msg.{Addr, begintx, jointx}
use distributed_system.Manager.State.{Info}
use distributed_system.Manager.Table.{
  add_worker, clean_worker_info, failed, save_worker_info, saved,
}
use distributed_system.Clock.Packed.{unused}

-- The slots that hold a transaction.
unfoldable pub slots : ℕ → List Info → ℕ
slots tid [] = 0
slots tid (x ∷ xs) = (if x.tid == tid then 1 else 0) + slots tid xs

-- No slot of this part of the table holds the transaction, and none is unused.
abbrev pub IsOther : ℕ → Info → Type 0
IsOther tid x = (x.tid ≢ tid) × (x.tid ≢ 0)

-- A transaction that begins with a tid other than 0, and that no slot holds, takes exactly one
-- slot if there is an unused one; if there is none, the begin succeeds and the table stays as it is.
pub save_worker_info-begin :
    (port tid node_id : ℕ) (addr : Addr) (infos : List Info)
    → tid ≢ 0
    → slots tid infos ≡ 0
    → (infos' : List Info) × (save_worker_info port tid begintx node_id addr infos ≡ saved infos')
      × ((slots 0 infos ≡ 0) → infos' ≡ infos)
      × ((slots 0 infos ≢ 0) → slots tid infos' ≡ 1)
unfolding save_worker_info slots
save_worker_info-begin port tid node_id addr [] nz h = ([], refl, λ e. refl, λ e. absurd (e refl))
save_worker_info-begin port tid node_id addr (x ∷ xs) nz h = elim (Bool-cases (x.tid == 0)) [
  | inl unused ↦
      (record x { tid = tid } ∷ xs, ground arith, λ e. absurd (ground arith), λ e. ground arith)
  | inr used ↦
      let (infos', e, full, room) =
        save_worker_info-begin port tid node_id addr xs nz (ground arith) in
      (
        x ∷ infos',
        ground (arith, e),
        λ k. ap (λ l. x ∷ l) (full (ground arith)),
        λ k. ground (arith, room),
      )
]

-- A begin fails for a transaction that is running in a slot in front of the first unused one.
pub save_worker_info-running :
    (port tid node_id : ℕ) (addr : Addr) (front : List Info) (x : Info) (rest : List Info)
    → All (IsOther tid) front
    → x.tid ≡ tid
    → save_worker_info port tid begintx node_id addr (front ++ x ∷ rest) ≡ failed
unfolding save_worker_info
save_worker_info-running port tid node_id addr [] x rest h e = ground arith
save_worker_info-running port tid node_id addr (y ∷ front) x rest h e =
    ground (arith, save_worker_info-running port tid node_id addr front x rest h.1 e)

-- A join fails whenever an unused slot comes before the slot of the transaction: no join with a tid
-- other than 0 gets past an unused slot, whatever stands behind it.
pub save_worker_info-behind :
    (port tid node_id : ℕ) (addr : Addr) (front : List Info) (x : Info) (rest : List Info)
    → tid ≢ 0
    → All (IsOther tid) front
    → x.tid ≡ 0
    → save_worker_info port tid jointx node_id addr (front ++ x ∷ rest) ≡ failed
unfolding save_worker_info
save_worker_info-behind port tid node_id addr [] x rest nz h e = ground arith
save_worker_info-behind port tid node_id addr (y ∷ front) x rest nz h e =
    ground (arith, save_worker_info-behind port tid node_id addr front x rest nz h.1 e)

-- A join of a running transaction with no unused slot in front of it adds the worker to that slot,
-- and leaves the other slots as they are.
pub save_worker_info-join :
    (port tid node_id : ℕ) (addr : Addr) (front : List Info) (x : Info) (rest : List Info)
    → All (IsOther tid) front
    → x.tid ≡ tid
    → save_worker_info port tid jointx node_id addr (front ++ x ∷ rest)
      ≡ saved (front ++ record x { workers = add_worker port node_id addr x.workers } ∷ rest)
unfolding save_worker_info
save_worker_info-join port tid node_id addr [] x rest h e = ground arith
save_worker_info-join port tid node_id addr (y ∷ front) x rest h e =
    ground (arith, save_worker_info-join port tid node_id addr front x rest h.1 e)

-- The end of a transaction with a tid other than 0 frees one of its slots, and takes away no slot of
-- another transaction.
pub slots-clean_worker_info :
    (tid other : ℕ) (infos : List Info)
    → tid ≢ 0
    → (slots tid (clean_worker_info tid infos) ≡ slots tid infos - 1)
      × ((other ≢ tid)
          → (other ≢ 0)
          → slots other (clean_worker_info tid infos) ≡ slots other infos)
unfolding slots clean_worker_info
slots-clean_worker_info tid other [] nz = (refl, λ h k. refl)
slots-clean_worker_info tid other (x ∷ xs) nz =
    let (freed, kept) = slots-clean_worker_info tid other xs nz in
    (ground (arith, freed), λ h k. ground (arith, kept h k))
