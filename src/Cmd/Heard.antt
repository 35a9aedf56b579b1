-- ===== src/Cmd/Heard.antt =====
-- The command program and its worker together: what a packet of cmd.c makes tworker.c do.
use distributed_system.Base.{
  ℕ, ◌-◌, ◌%◌, ◌^◌, ◌<◌, ◌≡◌, refl, sym, ap, subst, ◌∙◌, ◌≢◌, Bool, false, Option, none, some, List,
  [], ◌∷◌, append-nil, arith, ltb, length, All,
}
use distributed_system.Worker.Command.{
  on_command, handle_cmd_msg, command, local_event_now, log_old_id, on_new_idstr, log_old_value,
  on_new_a, stamp_object,
}
use distributed_system.Clock.Merge.{length-update}
use distributed_system.Wire.Roundtrip.{CmdFits, deserialize_msg-serialize_msg}
use distributed_system.Worker.Slots.{HasSlot, copy_time-is_some, log_old_value-HasSlot}
use distributed_system.Worker.State.{
  Worker, save_vector_time, update_clock, write_local_event_to_log, write_record_to_log,
}
use distributed_system.Cmd.Program.{
  Ending, delivered, copy_text, no_such_host, refused, argument, fill, main, message_of, msg_id_of,
  newa_word, newid_word, same, str_to_uint,
}
use distributed_system.Msg.{CmdMessage, new_idstr, new_a, Addr}
use distributed_system.Outcome.{Outcome, running, undefined}
use distributed_system.Cmd.Delivery.{c_string-copy_text, length-copy_text, str_to_uint-lt}
use distributed_system.Wire.{id_len, serialize_msg, deserialize_msg}
use distributed_system.Clock.{my_index, Clock}

-- What a worker does with the packet, if one is delivered.
unfoldable pub hear : Worker → ℕ → Bool → Ending → Outcome Worker
unfolding handle_cmd_msg
hear s now resolved refused = running s
hear s now resolved no_such_host = running s
hear s now resolved (delivered to buffer) = handle_cmd_msg s (command buffer now resolved)

-- A worker that goes on, and of which P holds.
unfoldable pub GoesOn : (Worker → Type 0) → Outcome Worker → Type 0
GoesOn P o = (s : Worker) × (o ≡ running s) × P s

newid-on_command :
    (text : List ℕ) (m : CmdMessage) (now : ℕ) (resolved : Bool) (s : Worker)
    → All (λ c. c ≢ 0) text
    → length text < length m.str_data
    → GoesOn
        (λ s'. s'.obj.id_string ≡ text)
        (on_command
          (record m { msg_id = new_idstr; str_data = copy_text text m.str_data })
          now
          resolved
          s)
unfolding GoesOn on_command on_new_idstr log_old_id local_event_now update_clock save_vector_time
    write_local_event_to_log write_record_to_log
newid-on_command text m now resolved s h room = (
  _,
  ap
      (λ (o : Option (List ℕ)). elim o [
        | none ↦ undefined
        | some t ↦
            let s1 = log_old_id s.obj.id_string s in
            let s2 =
              local_event_now new_idstr (record s1 { obj = record s1.obj { id_string = t } }) in
            running (record s2 { obj = record s2.obj { last_update_time = now } })
      ])
      (c_string-copy_text text m.str_data h room),
  refl,
)

stamp_object-a :
    (i now : ℕ) (s : Worker)
    → i < length s.obj.vector_clock
    → i < length s.my_vector_clock
    → GoesOn (λ s'. s'.obj.a ≡ s.obj.a) (stamp_object i now s)
unfolding GoesOn stamp_object
stamp_object-a i now s h k =
    let (vc, e) = copy_time-is_some i s.obj.vector_clock s.my_vector_clock h k in
    (
      record s { obj = record s.obj { last_update_time = now; vector_clock = vc } },
      ap
          (λ (o : Option (List Clock)). elim o [
            | none ↦ undefined
            | some vc ↦
                running
                  (record s { obj = record s.obj { last_update_time = now; vector_clock = vc } })
          ])
          e,
      refl,
    )

newa-on_command :
    (value : ℕ) (m : CmdMessage) (now : ℕ) (resolved : Bool) (s : Worker)
    → HasSlot s
    → GoesOn
        (λ s'. s'.obj.a ≡ value)
        (on_command (record m { msg_id = new_a; new_value = value }) now resolved s)
unfolding on_command on_new_a local_event_now update_clock save_vector_time write_local_event_to_log
newa-on_command value m now resolved s h =
    let s1 = log_old_value new_a s.obj.a s in
    let s2 = record s1 { obj = record s1.obj { a = value } } in
    let (own, object) = log_old_value-HasSlot new_a s.obj.a s h in
    stamp_object-a (my_index s2.node_id s2.my_vector_clock) now (local_event_now new_a s2) object
      (omega (arith, own, length-update s2.node_id s2.my_vector_clock))

message_newid :
    (strtoul : List ℕ → Option ℕ) (prog host port text : List ℕ) (m : CmdMessage)
    → length text < id_len
    → message_of strtoul (prog ∷ newid_word ∷ host ∷ port ∷ text ∷ []) m
      ≡ some (record m { msg_id = new_idstr; str_data = copy_text text m.str_data })
unfolding message_of msg_id_of same argument fill
message_newid strtoul prog host port text m short =
    let fine : ltb (id_len - 1) (length text) ≡ false = ground (arith, short) in rw fine refl

message_newa :
    (strtoul : List ℕ → Option ℕ) (prog host port text : List ℕ) (m : CmdMessage)
    → message_of strtoul (prog ∷ newa_word ∷ host ∷ port ∷ text ∷ []) m
      ≡ some (record m { msg_id = new_a; new_value = str_to_uint strtoul text })
unfolding message_of msg_id_of same argument fill
message_newa strtoul prog host port text m = refl

pub main-delivered :
    (strtoul lookup : List ℕ → Option ℕ) (argv : List (List ℕ)) (m out : CmdMessage) (addr : ℕ)
    → message_of strtoul argv m ≡ some out
    → lookup (argument 2 argv) ≡ some addr
    → main strtoul lookup argv m
      ≡ delivered
          (record { host = addr; sin_port = str_to_uint strtoul (argument 3 argv) % 2 ^ 16 })
          (serialize_msg out)
unfolding main
main-delivered strtoul lookup argv m out addr made found =
    let sent_to : ℕ → Addr =
      λ host. record { host = host; sin_port = str_to_uint strtoul (argument 3 argv) % 2 ^ 16 } in
    ap
      (λ (o : Option CmdMessage). elim o [
        | none ↦ refused
        | some out ↦ elim (lookup (argument 2 argv)) [
          | none ↦ no_such_host
          | some host ↦ delivered (sent_to host) (serialize_msg out)
        ]
      ])
      made
    ∙ ap
        (λ (o : Option ℕ). elim o [
          | none ↦ no_such_host
          | some host ↦ delivered (sent_to host) (serialize_msg out)
        ])
        found

hear-delivered :
    (buffer : List ℕ) (out : CmdMessage) (to : Addr) (now : ℕ) (resolved : Bool) (s : Worker)
    → deserialize_msg buffer ≡ some (out, [])
    → s.waiting ≡ none
    → hear s now resolved (delivered to buffer) ≡ on_command out now resolved s
unfolding hear handle_cmd_msg
hear-delivered buffer out to now resolved s read idle =
    ap
      (λ (w : Option Addr). elim w [
        | some addr ↦ running s
        | none ↦ elim (deserialize_msg buffer) [
          | none ↦ undefined
          | some (m, rest) ↦ on_command m now resolved s
        ]
      ])
      idle
    ∙ ap
        (λ (r : Option (CmdMessage × List ℕ)). elim r [
          | none ↦ undefined
          | some (m, rest) ↦ on_command m now resolved s
        ])
        read

hear-main :
    (strtoul lookup : List ℕ → Option ℕ) (argv : List (List ℕ)) (m out : CmdMessage) (addr : ℕ)
    (now : ℕ) (resolved : Bool) (s : Worker)
    → message_of strtoul argv m ≡ some out
    → CmdFits out
    → lookup (argument 2 argv) ≡ some addr
    → s.waiting ≡ none
    → hear s now resolved (main strtoul lookup argv m) ≡ on_command out now resolved s
hear-main strtoul lookup argv m out addr now resolved s made fits found idle =
    let e = main-delivered strtoul lookup argv m out addr made found in
    let read : deserialize_msg (serialize_msg out) ≡ some (out, []) =
      subst (λ b. deserialize_msg b ≡ some (out, [])) (append-nil (serialize_msg out))
        (deserialize_msg-serialize_msg out [] fits) in
    ap (hear s now resolved) e ∙ hear-delivered (serialize_msg out) out _ now resolved s read idle

-- A packet of newid, sent to a worker that does not wait, gives the object of the worker the text of
-- the command, if that is short enough for the field, and the worker goes on.
pub newid-hear :
    (strtoul lookup : List ℕ → Option ℕ) (prog host port text : List ℕ) (m : CmdMessage)
    (addr now : ℕ) (resolved : Bool) (s : Worker)
    → CmdFits m
    → All (λ c. c ≢ 0) text
    → length text < id_len
    → lookup host ≡ some addr
    → s.waiting ≡ none
    → GoesOn
        (λ s'. s'.obj.id_string ≡ text)
        (hear s now resolved (main strtoul lookup (prog ∷ newid_word ∷ host ∷ port ∷ text ∷ []) m))
unfolding argument
newid-hear strtoul lookup prog host port text m addr now resolved s fits h short found idle =
    let out = record m { msg_id = new_idstr; str_data = copy_text text m.str_data } in
    let fits' : CmdFits out =
      (omega arith, fits.1, fits.2, fits.3, fits.4, length-copy_text text m.str_data ∙ fits.5) in
    subst (GoesOn (λ s'. s'.obj.id_string ≡ text))
      (sym (
        hear-main strtoul lookup (prog ∷ newid_word ∷ host ∷ port ∷ text ∷ []) m out addr now
          resolved s (message_newid strtoul prog host port text m short) fits' found idle))
      (newid-on_command text m now resolved s h (omega (arith, short, fits.5)))

-- A packet of newa, sent to a worker that does not wait and has a slot in its clock and in the clock
-- of its object, makes A the number that the text of the command begins with, modulo 2^32, and 0 if
-- the text begins with none, if its host is found and what the local message of the program held
-- fits its fields; the worker goes on.
pub newa-hear :
    (strtoul lookup : List ℕ → Option ℕ) (prog host port text : List ℕ) (m : CmdMessage)
    (addr now : ℕ) (resolved : Bool) (s : Worker)
    → CmdFits m
    → HasSlot s
    → lookup host ≡ some addr
    → s.waiting ≡ none
    → GoesOn
        (λ s'. s'.obj.a ≡ elim (strtoul text) [ none ↦ 0 | some n ↦ n % 2 ^ 32 ])
        (hear s now resolved (main strtoul lookup (prog ∷ newa_word ∷ host ∷ port ∷ text ∷ []) m))
unfolding argument str_to_uint
newa-hear strtoul lookup prog host port text m addr now resolved s fits slot found idle =
    let out = record m { msg_id = new_a; new_value = str_to_uint strtoul text } in
    let fits' : CmdFits out =
      (omega arith, fits.1, fits.2, str_to_uint-lt strtoul text, fits.4, fits.5) in
    subst (GoesOn (λ s'. s'.obj.a ≡ str_to_uint strtoul text))
      (sym (
        hear-main strtoul lookup (prog ∷ newa_word ∷ host ∷ port ∷ text ∷ []) m out addr now
          resolved s (message_newa strtoul prog host port text m) fits' found idle))
      (newa-on_command (str_to_uint strtoul text) m now resolved s slot)
