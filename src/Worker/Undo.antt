-- ===== src/Worker/Undo.antt =====
-- readValFromRecord of tworker.c undoes the records of a transaction, back to its join.
use distributed_system.Base.{
  ℕ, ◌≡◌, refl, inl, inr, Bool, true, false, not, ◌&&◌, ◌||◌, List, [], ◌∷◌, arith, ◌==◌,
  Bool-cases,
}
use distributed_system.Msg.{Addr, TxMessage, join_success, jointx}
use distributed_system.Worker.State.{ObjectData, Record, Worker}
use distributed_system.Worker.Coordinator.{on_join}
use distributed_system.Worker.Record.{last_msg_id, roll_back}
use distributed_system.Worker.Restart.{is_uncertain}

-- The records of the transaction that are read hold one of a join.
unfoldable pub has_join : ℕ → List Record → Bool
has_join tid [] = false
has_join tid (r ∷ rs) = (r.tid == tid) && ((r.msg_id == jointx) || has_join tid rs)

-- The record written last is not about the transaction.
unfoldable pub is_fresh : ℕ → List Record → Bool
is_fresh tid [] = true
is_fresh tid (r ∷ rs) = not (r.tid == tid)

-- Where a join is read, the object is written whole.
pub roll_back-has_join :
    (tid : ℕ) (log : List Record) (a b : ℕ) (id : List ℕ) (o o' : ObjectData)
    → has_join tid log ≡ true
    → roll_back tid log a b id o ≡ roll_back tid log a b id o'
unfolding roll_back has_join
roll_back-has_join tid [] a b id o o' h = absurd (ground arith)
roll_back-has_join tid (r ∷ rs) a b id o o' h = elim (Bool-cases (r.tid == tid)) [
  | inl mine ↦ elim (Bool-cases (r.msg_id == jointx)) [
    | inl join ↦ rw (mine, join)
    | inr other ↦ rw (mine, other) (roll_back-has_join tid rs _ _ _ o o' (ground arith))
  ]
  | inr theirs ↦ absurd (ground arith)
]

pub roll_back-is_fresh :
    (tid : ℕ) (log : List Record) (a b : ℕ) (id : List ℕ) (o : ObjectData)
    → is_fresh tid log ≡ true
    → roll_back tid log a b id o ≡ o
unfolding roll_back is_fresh
roll_back-is_fresh tid [] a b id o h = refl
roll_back-is_fresh tid (r ∷ rs) a b id o h = ground arith

-- The log of the worker takes the object back to `o`, from the values that it has now.
abbrev pub Undoes : ℕ → ObjectData → Worker → Type 0
Undoes tid o s =
    (has_join tid s.record_log ≡ true)
    × (roll_back tid s.record_log s.obj.a s.obj.b s.obj.id_string s.obj ≡ o)

-- The worker is in the transaction, which has found the object as `o`, and the record written last
-- is not one after which a restart waits for the manager.
pub record InTransaction (tid : ℕ) (o : ObjectData) (s : Worker) : Type 0 where
  pub current : s.cur_tid ≡ tid
  pub runs : s.is_tx_run ≡ true
  pub undoes : Undoes tid o s
  pub certain : is_uncertain (last_msg_id s.record_log) ≡ false

pub on_join-InTransaction :
    (rec : Record) (m : TxMessage) (addr : Addr) (s : Worker)
    → m.msg_id ≡ join_success
    → is_fresh m.tid s.record_log ≡ true
    → InTransaction m.tid s.obj (on_join rec m addr s)
unfolding on_join has_join roll_back last_msg_id is_uncertain
on_join-InTransaction rec m addr s joined fresh = record {
  current = ground arith;
  runs = ground arith;
  undoes = (
    ground arith,
    ground
        (arith, roll_back-is_fresh m.tid s.record_log s.obj.a s.obj.b s.obj.id_string s.obj fresh),
  );
  certain = refl;
}
