-- ===== src/Worker/Record.antt =====
-- The readers of the worker's log of records: findStateFromRecord, isLocalAbort and
-- readValFromRecord of tworker.c. Each starts at the record written last.
use distributed_system.Base.{ℕ, Bool, false, ◌&&◌, ◌||◌, List, [], ◌∷◌, ◌==◌, if◌then◌else◌}
use distributed_system.Worker.State.{ObjectData, Record, Worker}
use distributed_system.Msg.{abort, jointx, new_a, new_b, new_idstr}

-- The kind of the record written last, 0 if there is none, and its tid, that given if there is none.
unfoldable pub last_msg_id : List Record → ℕ
last_msg_id [] = 0
last_msg_id (r ∷ rs) = r.msg_id

unfoldable pub last_tid : List Record → ℕ → ℕ
last_tid [] cur_tid = cur_tid
last_tid (r ∷ rs) cur_tid = r.tid

unfoldable pub find_state_from_record : Worker → ℕ × Worker
unfolding last_msg_id last_tid
find_state_from_record s =
    (last_msg_id s.record_log, record s { cur_tid = last_tid s.record_log s.cur_tid })

unfoldable pub is_local_abort : ℕ → List Record → Bool
is_local_abort tid [] = false
is_local_abort tid (r ∷ rs) = ((r.tid == tid) && (r.msg_id == abort)) || is_local_abort tid rs

-- The loop of readValFromRecord, with its variables oldA, oldB and oldID: it goes on while the
-- records are those of the transaction, and writes the object at each record of a join.
unfoldable pub roll_back : ℕ → List Record → ℕ → ℕ → List ℕ → ObjectData → ObjectData
roll_back tid [] old_a old_b old_id o = o
roll_back tid (r ∷ rs) old_a old_b old_id o =
    let rest =
      roll_back tid rs (if r.msg_id == new_a then r.old_value else old_a)
        (if r.msg_id == new_b then r.old_value else old_b)
        (if r.msg_id == new_idstr then r.old_id else old_id)
        (if r.msg_id == jointx
          then record {
            id_string = old_id;
            last_update_time = r.last_update_time;
            a = old_a;
            b = old_b;
            vector_clock = r.vector_clock;
          }
          else o) in
    if r.tid == tid then rest else o

unfoldable pub read_val_from_record : Worker → Worker
unfolding roll_back
read_val_from_record s = record s {
  obj = roll_back s.cur_tid s.record_log s.obj.a s.obj.b s.obj.id_string s.obj;
}
