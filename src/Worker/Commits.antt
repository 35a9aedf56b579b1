-- ===== src/Worker/Commits.antt =====
-- The commit records in the worker's log file: who writes them, in tworker.c.
use distributed_system.Base.{ℕ, ◌%◌, ◌^◌, ◌≡◌, ◌≢◌, Bool, true, false, List, [], ◌∷◌, arith, All}
use distributed_system.Outcome.{Leaves}
use distributed_system.Worker.Command.{
  local_event_now, log_old_id, log_old_value, on_abort, on_crash, on_new_a, on_new_b, on_new_idstr,
  stamp_object, tell_manager, on_begin, on_command, on_commit,
}
use distributed_system.Msg.{
  CmdMessage, TxMessage, decide_commit, Addr, abort, new_a, new_b, new_idstr, abort_crash, commit,
  commit_crash,
}
use distributed_system.Worker.State.{
  Record, Worker, save_vector_time, update_clock, write_event_to_log, write_local_event_to_log,
  write_record_to_log,
}
use distributed_system.Worker.Send.{crash_now, send_msg, construct_message}
use distributed_system.Clock.{my_index}
use distributed_system.Worker.Record.{read_val_from_record}

-- Every commit record of a log is about a transaction of which Ok holds.
unfoldable pub Logged : (ℕ → Type 0) → List Record → Type 0
Logged Ok rs = All (λ r. r.msg_id ≡ decide_commit → Ok r.tid) rs

pub other-Logged :
    (Ok : ℕ → Type 0) (r : Record) (rs : List Record)
    → r.msg_id ≢ decide_commit
    → Logged Ok rs
    → Logged Ok (r ∷ rs)
unfolding Logged
other-Logged Ok r rs n h = (λ e. absurd (n e), h)

pub commit-Logged :
    (Ok : ℕ → Type 0) (r : Record) (rs : List Record) → Ok r.tid → Logged Ok rs → Logged Ok (r ∷ rs)
unfolding Logged
commit-Logged Ok r rs ok h = (λ e. ok, h)

pub weaken-Logged :
    {P Q : ℕ → Type 0} (rs : List Record) → ((tid : ℕ) → P tid → Q tid) → Logged P rs → Logged Q rs
unfolding Logged
weaken-Logged [] f h = tt
weaken-Logged (r ∷ rs) f (h, hs) = (λ e. f r.tid (h e), weaken-Logged rs f hs)

module _ (Ok : ℕ → Type 0) where
  abbrev pub IsLogged : Worker → Type 0
  IsLogged s = Logged Ok s.record_log

  pub send_msg-IsLogged :
      (m : TxMessage) (addr : Addr) (s : Worker) → IsLogged s → Leaves IsLogged (send_msg m addr s)
  unfolding send_msg crash_now
  send_msg-IsLogged m addr s h = ground arith

  log_old_value-IsLogged :
      (kind value : ℕ) (s : Worker)
      → kind ≢ decide_commit
      → IsLogged s
      → IsLogged (log_old_value kind value s)
  unfolding log_old_value write_record_to_log
  log_old_value-IsLogged kind value s n h = ground (
    arith,
    other-Logged Ok (record s.rec { msg_id = kind; tid = s.cur_tid; old_value = value })
        s.record_log n h,
  )

  log_old_id-IsLogged : (text : List ℕ) (s : Worker) → IsLogged s → IsLogged (log_old_id text s)
  unfolding log_old_id write_record_to_log
  log_old_id-IsLogged text s h = ground (
    arith,
    other-Logged Ok (record s.rec { msg_id = new_idstr; tid = s.cur_tid; old_id = text })
        s.record_log (omega arith) h,
  )

  stamp_object-IsLogged :
      (i now : ℕ) (s : Worker) → IsLogged s → Leaves IsLogged (stamp_object i now s)
  unfolding stamp_object
  stamp_object-IsLogged i now s h = ground arith

  on_new_a-IsLogged :
      (m : CmdMessage) (now : ℕ) (s : Worker) → IsLogged s → Leaves IsLogged (on_new_a m now s)
  unfolding on_new_a local_event_now update_clock save_vector_time write_local_event_to_log
  on_new_a-IsLogged m now s h =
      let s1 = log_old_value new_a s.obj.a s in
      let s2 = record s1 { obj = record s1.obj { a = m.new_value } } in
      stamp_object-IsLogged (my_index s2.node_id s2.my_vector_clock) now (local_event_now new_a s2)
        (log_old_value-IsLogged new_a s.obj.a s (omega arith) h)

  on_new_b-IsLogged :
      (m : CmdMessage) (now : ℕ) (s : Worker) → IsLogged s → Leaves IsLogged (on_new_b m now s)
  unfolding on_new_b local_event_now update_clock save_vector_time write_local_event_to_log
  on_new_b-IsLogged m now s h =
      let s1 = log_old_value new_b s.obj.b s in
      let s2 = record s1 { obj = record s1.obj { b = m.new_value } } in
      stamp_object-IsLogged (my_index s2.node_id s2.my_vector_clock) now (local_event_now new_b s2)
        (log_old_value-IsLogged new_b s.obj.b s (omega arith) h)

  on_new_idstr-IsLogged :
      (m : CmdMessage) (now : ℕ) (s : Worker) → IsLogged s → Leaves IsLogged (on_new_idstr m now s)
  unfolding on_new_idstr local_event_now update_clock save_vector_time write_local_event_to_log
  on_new_idstr-IsLogged m now s h = ground (arith, log_old_id-IsLogged s.obj.id_string s h)

  on_crash-IsLogged : (s : Worker) → IsLogged s → Leaves IsLogged (on_crash s)
  unfolding on_crash local_event_now update_clock save_vector_time write_local_event_to_log
  on_crash-IsLogged s h = h

  on_abort-IsLogged : (kind flag : ℕ) (s : Worker) → IsLogged s → IsLogged (on_abort kind flag s)
  unfolding on_abort read_val_from_record update_clock save_vector_time write_local_event_to_log
      write_record_to_log
  on_abort-IsLogged kind flag s h =
      other-Logged Ok (record s.rec { msg_id = abort; tid = s.cur_tid }) s.record_log (omega arith)
        h

  tell_manager-IsLogged :
      (m : CmdMessage) (s : Worker) → IsLogged s → Leaves IsLogged (tell_manager m s)
  unfolding tell_manager update_clock save_vector_time write_event_to_log
  tell_manager-IsLogged m s h =
      let s1 = save_vector_time (update_clock s.node_id s) in
      let out = construct_message s1 m s1.new_msg 0 in
      send_msg-IsLogged out s.to_addr
        (write_event_to_log out true s.to_addr.sin_port (record s1 { new_msg = out })) h

  on_commit-IsLogged :
      (m : CmdMessage) (kind flag : ℕ) (s : Worker)
      → kind ≢ decide_commit
      → IsLogged s
      → Leaves IsLogged (on_commit m kind flag s)
  unfolding on_commit write_record_to_log
  on_commit-IsLogged m kind flag s n h =
      let r = record s.rec { msg_id = kind; tid = s.cur_tid } in
      tell_manager-IsLogged (record m { msg_id = commit; tid = s.cur_tid })
        (write_record_to_log r (record s { rec = r; is_crash = flag }))
        (other-Logged Ok r s.record_log n h)

  on_begin-IsLogged :
      (m : CmdMessage) (resolved : Bool) (s : Worker)
      → IsLogged s
      → Leaves IsLogged (on_begin m resolved s)
  unfolding on_begin
  on_begin-IsLogged m true s h =
      tell_manager-IsLogged m
        (record s { to_addr = record { host = 0; sin_port = m.port % 2 ^ 16 } }) h
  on_begin-IsLogged m false s h = tt

  pub on_command-IsLogged :
      (m : CmdMessage) (now : ℕ) (resolved : Bool) (s : Worker)
      → IsLogged s
      → Leaves IsLogged (on_command m now resolved s)
  unfolding on_command
  on_command-IsLogged m now resolved s h = ground (
    arith,
    on_begin-IsLogged m resolved s h,
    on_new_a-IsLogged m now s h,
    on_new_b-IsLogged m now s h,
    on_new_idstr-IsLogged m now s h,
    on_crash-IsLogged s h,
    on_commit-IsLogged m commit_crash 1 s (omega arith) h,
    on_commit-IsLogged m commit 0 s (omega arith) h,
    on_abort-IsLogged abort_crash 1 s h,
    on_abort-IsLogged abort 0 s h,
  )
