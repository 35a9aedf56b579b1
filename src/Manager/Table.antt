-- ===== src/Manager/Table.antt =====
-- The transaction table of tmanager.c: saveWorkerInfo, cleanWorkerInfo, the isCrash flags.
use distributed_system.Base.{ℕ, Option, none, some, List, [], ◌∷◌, map, ◌==◌, if◌then◌else◌}
use Prim.Native.Nat.{bit_or}
use distributed_system.Msg.{Addr, TxMessage, begintx, jointx}
use distributed_system.Manager.State.{Info, W}

-- The loops that change the first slot with a given tid and leave by `break`.
unfoldable pub update_info : ℕ → (Info → Info) → List Info → List Info
update_info tid f [] = []
update_info tid f (x ∷ xs) = if x.tid == tid then f x ∷ xs else x ∷ update_info tid f xs

unfoldable pub find_info : ℕ → List Info → Option Info
find_info tid [] = none
find_info tid (x ∷ xs) = if x.tid == tid then some x else find_info tid xs

-- The first unused worker slot takes the worker; its vote is left as it is.
unfoldable pub add_worker : ℕ → ℕ → Addr → List W → List W
add_worker port node_id addr [] = []
add_worker port node_id addr (w ∷ ws) =
    if w.port == 0
    then record w { node_id = node_id; port = port; worker_addr = addr } ∷ ws
    else w ∷ add_worker port node_id addr ws

-- `failed` is the return of -1; `unset` is the use of `index` with no value, where the table is
-- full and holds no such transaction.
pub data SaveResult : Type 0 where
  saved : List Info → SaveResult
  failed : SaveResult
  unset : SaveResult

unfoldable pub keep_slot : Info → SaveResult → SaveResult
keep_slot x (saved xs) = saved (x ∷ xs)
keep_slot x failed = failed
keep_slot x unset = unset

-- The worker is added for a join only.
unfoldable pub join_slot : ℕ → ℕ → ℕ → Addr → Info → Info
unfolding add_worker
join_slot port msg_id node_id addr x =
    if msg_id == jointx then record x { workers = add_worker port node_id addr x.workers } else x

unfoldable pub save_worker_info : ℕ → ℕ → ℕ → ℕ → Addr → List Info → SaveResult
unfolding join_slot keep_slot
save_worker_info port tid msg_id node_id addr [] = if msg_id == jointx then unset else saved []
save_worker_info port tid msg_id node_id addr (x ∷ xs) =
    let rest = save_worker_info port tid msg_id node_id addr xs in
    if x.tid == tid
    then (if msg_id == begintx then failed else saved (join_slot port msg_id node_id addr x ∷ xs))
    else (if x.tid == 0
        then (if msg_id == jointx
            then failed
            else saved (join_slot port msg_id node_id addr (record x { tid = tid }) ∷ xs))
        else keep_slot x rest)

unfoldable pub clean_worker : W → W
clean_worker w = record w { node_id = 0; port = 0; vote_yes = 0 }

unfoldable pub clean_info : Info → Info
unfolding clean_worker
clean_info x = record x { tid = 0; is_crash = 0; workers = map clean_worker x.workers }

unfoldable pub clean_worker_info : ℕ → List Info → List Info
unfolding update_info clean_info
clean_worker_info tid = update_info tid clean_info

unfoldable pub set_crash : TxMessage → List Info → List Info
unfolding update_info
set_crash m = update_info m.tid (λ x. record x { is_crash = bit_or x.is_crash m.is_crash })

unfoldable pub reset_crash : TxMessage → List Info → List Info
unfolding update_info
reset_crash m = update_info m.tid (λ x. record x { is_crash = 0 })

unfoldable pub get_crash : TxMessage → List Info → ℕ
get_crash m [] = 0
get_crash m (x ∷ xs) = if x.tid == m.tid then x.is_crash else get_crash m xs
