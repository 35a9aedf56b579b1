-- ===== src/Worker/Rollback.antt =====
-- Each command keeps the worker in its transaction, with the log that takes the object back.
-- (tworker.c: handleCmdMsg, sendMsg.)
use distributed_system.Base.{
  ℕ, ◌≡◌, refl, ◌∙◌, ◌⊎◌, inl, inr, Bool, true, false, Option, none, some, List, ◌∷◌, arith, ◌==◌,
  if◌then◌else◌, Bool-cases,
}
use distributed_system.Msg.{
  Addr, CmdMessage, TxMessage, jointx, new_a, new_b, new_idstr, commit, commit_crash,
}
use distributed_system.Clock.{Clock, my_index}
use distributed_system.Worker.Undo.{InTransaction, has_join, roll_back-has_join}
use distributed_system.Outcome.{Leaves, running, undefined}
use distributed_system.Worker.State.{
  ObjectData, Record, Worker, write_record_to_log, save_vector_time, update_clock,
  write_event_to_log,
}
use distributed_system.Worker.Command.{
  copy_time, local_event_now, log_old_value, on_new_a, stamp_object, c_string, log_old_id,
  on_commit, on_new_b, on_new_idstr, tell_manager,
}
use distributed_system.Worker.Send.{is_negative, minus_1000, send_msg, construct_message}
use distributed_system.Worker.Record.{last_msg_id, roll_back}
use distributed_system.Worker.Restart.{is_uncertain}

-- Nothing was written, and the values of the object are the same.
pub same-InTransaction :
    {tid : ℕ} {o : ObjectData} {s : Worker} (u : Worker)
    → InTransaction tid o s
    → (u.cur_tid ≡ s.cur_tid) × (u.is_tx_run ≡ s.is_tx_run)
    → u.record_log ≡ s.record_log
    → (u.obj.a ≡ s.obj.a) × (u.obj.b ≡ s.obj.b) × (u.obj.id_string ≡ s.obj.id_string)
    → InTransaction tid o u
same-InTransaction {tid} {o} {s} u h (e1, e2) log (a, b, id) = record {
  current = e1 ∙ h.current;
  runs = e2 ∙ h.runs;
  certain = rw log h.certain;
  undoes =
      rw (log, a, b, id)
        (h.undoes.0, roll_back-has_join tid s.record_log _ _ _ _ s.obj h.undoes.0 ∙ h.undoes.1);
}

-- A record `r` of the transaction was written, which holds each value that has changed.
pub logged-InTransaction :
    {tid : ℕ} {o : ObjectData} {s : Worker} (r : Record) (u : Worker)
    → InTransaction tid o s
    → (u.cur_tid ≡ s.cur_tid) × (u.is_tx_run ≡ s.is_tx_run)
    → u.record_log ≡ r ∷ s.record_log
    → (r.tid ≡ tid) × ((r.msg_id == jointx) ≡ false)
    → is_uncertain r.msg_id ≡ false
    → ((if r.msg_id == new_a then r.old_value else u.obj.a) ≡ s.obj.a)
      × ((if r.msg_id == new_b then r.old_value else u.obj.b) ≡ s.obj.b)
      × ((if r.msg_id == new_idstr then r.old_id else u.obj.id_string) ≡ s.obj.id_string)
    → InTransaction tid o u
unfolding has_join roll_back last_msg_id
logged-InTransaction {tid} {o} {s} r u h (e1, e2) log (mine, other) kind (a, b, id) = record {
  current = e1 ∙ h.current;
  runs = e2 ∙ h.runs;
  certain = rw log kind;
  undoes = rw log (
    ground (arith, h.undoes.0),
    rw (other, a, b, id)
        (if_mine (r.tid == tid) (ground arith)
          ∙ roll_back-has_join tid s.record_log _ _ _ u.obj s.obj h.undoes.0
          ∙ h.undoes.1),
  );
}
  where
    if_mine :
        (t : Bool)
        → t ≡ true
        → (if t then roll_back tid s.record_log s.obj.a s.obj.b s.obj.id_string u.obj else u.obj)
          ≡ roll_back tid s.record_log s.obj.a s.obj.b s.obj.id_string u.obj
    if_mine true e = refl
    if_mine false e = absurd (ground arith)

pub send_msg-InTransaction :
    {tid : ℕ} {o : ObjectData} {s : Worker} (m : TxMessage) (addr : Addr)
    → InTransaction tid o s
    → Leaves (InTransaction tid o) (send_msg m addr s)
unfolding send_msg
send_msg-InTransaction {s} m addr h = elim (Bool-cases (s.delay == minus_1000)) [
  | inl at_once ↦ rw at_once (same-InTransaction _ h (refl, refl) refl (refl, refl, refl))
  | inr later ↦ elim (Bool-cases (is_negative s.delay)) [
    | inl then_crash ↦
        rw (later, then_crash) (same-InTransaction _ h (refl, refl) refl (refl, refl, refl))
    | inr plain ↦ rw (later, plain) (same-InTransaction _ h (refl, refl) refl (refl, refl, refl))
  ]
]

stamp_object-InTransaction :
    {tid : ℕ} {o : ObjectData} {s : Worker} (i now : ℕ)
    → InTransaction tid o s
    → Leaves (InTransaction tid o) (stamp_object i now s)
unfolding stamp_object
stamp_object-InTransaction {tid} {o} {s} i now h =
    go (copy_time i s.obj.vector_clock s.my_vector_clock)
  where
    go :
        (c : Option (List Clock))
        → Leaves (InTransaction tid o) (elim c [
          | none ↦ undefined
          | some vc ↦
              running
                (record s { obj = record s.obj { last_update_time = now; vector_clock = vc } })
        ])
    go none = tt
    go (some vc) = same-InTransaction _ h (refl, refl) refl (refl, refl, refl)

pub local_event_now-InTransaction :
    {tid : ℕ} {o : ObjectData} {s : Worker} (kind : ℕ)
    → InTransaction tid o s
    → InTransaction tid o (local_event_now kind s)
unfolding local_event_now
local_event_now-InTransaction kind h = same-InTransaction _ h (refl, refl) refl (refl, refl, refl)

new_a-logged :
    {tid : ℕ} {o : ObjectData} (s : Worker) (value : ℕ)
    → InTransaction tid o s
    → InTransaction tid o (record (log_old_value new_a s.obj.a s) {
      obj = record (log_old_value new_a s.obj.a s).obj { a = value };
    })
unfolding log_old_value is_uncertain
new_a-logged s value h =
    logged-InTransaction (record s.rec { msg_id = new_a; tid = s.cur_tid; old_value = s.obj.a }) _ h
      (ground arith, ground arith) (ground arith) (h.current, refl) refl
      (refl, ground arith, ground arith)

new_b-logged :
    {tid : ℕ} {o : ObjectData} (s : Worker) (value : ℕ)
    → InTransaction tid o s
    → InTransaction tid o (record (log_old_value new_b s.obj.b s) {
      obj = record (log_old_value new_b s.obj.b s).obj { b = value };
    })
unfolding log_old_value is_uncertain
new_b-logged s value h =
    logged-InTransaction (record s.rec { msg_id = new_b; tid = s.cur_tid; old_value = s.obj.b }) _ h
      (ground arith, ground arith) (ground arith) (h.current, refl) refl
      (ground arith, refl, ground arith)

new_idstr-logged :
    {tid : ℕ} {o : ObjectData} (s : Worker) (text : List ℕ)
    → InTransaction tid o s
    → InTransaction tid o (record (log_old_id s.obj.id_string s) {
      obj = record (log_old_id s.obj.id_string s).obj { id_string = text };
    })
unfolding log_old_id is_uncertain
new_idstr-logged s text h =
    logged-InTransaction
      (record s.rec { msg_id = new_idstr; tid = s.cur_tid; old_id = s.obj.id_string }) _ h
      (ground arith, ground arith) (ground arith) (h.current, refl) refl
      (ground arith, ground arith, refl)

pub new_a-InTransaction :
    {tid : ℕ} {o : ObjectData} (m : CmdMessage) (now : ℕ) (s : Worker)
    → InTransaction tid o s
    → Leaves (InTransaction tid o) (on_new_a m now s)
unfolding on_new_a
new_a-InTransaction m now s h =
    stamp_object-InTransaction (my_index s2.node_id s2.my_vector_clock) now
      (local_event_now-InTransaction new_a (new_a-logged s m.new_value h))
  where
    s2 : Worker
    s2 = record (log_old_value new_a s.obj.a s) {
      obj = record (log_old_value new_a s.obj.a s).obj { a = m.new_value };
    }

pub new_b-InTransaction :
    {tid : ℕ} {o : ObjectData} (m : CmdMessage) (now : ℕ) (s : Worker)
    → InTransaction tid o s
    → Leaves (InTransaction tid o) (on_new_b m now s)
unfolding on_new_b
new_b-InTransaction m now s h =
    stamp_object-InTransaction (my_index s2.node_id s2.my_vector_clock) now
      (local_event_now-InTransaction new_b (new_b-logged s m.new_value h))
  where
    s2 : Worker
    s2 = record (log_old_value new_b s.obj.b s) {
      obj = record (log_old_value new_b s.obj.b s).obj { b = m.new_value };
    }

pub new_idstr-InTransaction :
    {tid : ℕ} {o : ObjectData} (m : CmdMessage) (now : ℕ) (s : Worker)
    → InTransaction tid o s
    → Leaves (InTransaction tid o) (on_new_idstr m now s)
unfolding on_new_idstr
new_idstr-InTransaction {tid} {o} m now s h = go (c_string m.str_data)
  where
    go :
        (c : Option (List ℕ))
        → Leaves (InTransaction tid o) (elim c [
          | none ↦ undefined
          | some text ↦
              let s1 = log_old_id s.obj.id_string s in
              let s2 =
                local_event_now new_idstr
                  (record s1 { obj = record s1.obj { id_string = text } }) in
              running (record s2 { obj = record s2.obj { last_update_time = now } })
        ])
    go none = tt
    go (some text) =
        same-InTransaction _ (local_event_now-InTransaction new_idstr (new_idstr-logged s text h))
          (refl, refl) refl (refl, refl, refl)

pub tell_manager-InTransaction :
    {tid : ℕ} {o : ObjectData} (m : CmdMessage) (s : Worker)
    → InTransaction tid o s
    → Leaves (InTransaction tid o) (tell_manager m s)
unfolding tell_manager
tell_manager-InTransaction m s h = send_msg-InTransaction out s.to_addr (
    same-InTransaction
      (write_event_to_log out true s.to_addr.sin_port (record s1 { new_msg = out })) h (refl, refl)
      refl (refl, refl, refl))
  where
    s1 : Worker
    s1 = save_vector_time (update_clock s.node_id s)

    out : TxMessage
    out = construct_message s1 m s1.new_msg 0

pub commit-InTransaction :
    {tid : ℕ} {o : ObjectData} (m : CmdMessage) (kind flag : ℕ) (s : Worker)
    → (kind ≡ commit) ⊎ (kind ≡ commit_crash)
    → InTransaction tid o s
    → Leaves (InTransaction tid o) (on_commit m kind flag s)
unfolding on_commit write_record_to_log is_uncertain
commit-InTransaction m kind flag s k h =
    tell_manager-InTransaction (record m { msg_id = commit; tid = s.cur_tid })
      (write_record_to_log r (record s { rec = r; is_crash = flag }))
      (logged-InTransaction r _ h (refl, refl) refl (h.current, ground arith) (ground arith)
        (ground arith, ground arith, ground arith))
  where
    r : Record
    r = record s.rec { msg_id = kind; tid = s.cur_tid }
