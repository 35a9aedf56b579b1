-- ===== src/Cmd/Tests.antt =====
-- Runs of the command program, and instances of the theorems.
use distributed_system.Base.{
  ℕ, ◌-◌, ◌≡◌, refl, inr, true, ◌||◌, Option, none, some, List, [], ◌∷◌, arith, ltb, if◌then◌else◌,
  replicate,
}
use distributed_system.Cmd.Program.{delivered, main, join_word, newa_word, newid_word}
use distributed_system.Worker.State.{ObjectData, Worker, Record}
use distributed_system.Worker.Restart.{first_start}
use distributed_system.Msg.{Addr, CmdMessage, TxMessage, jointx}
use distributed_system.Cmd.Heard.{GoesOn, hear, newa-hear, newid-hear}
use distributed_system.Clock.{my_index}
use distributed_system.Cmd.Joined.{main-join}
use distributed_system.Wire.{deserialize_msg}
use distributed_system.Worker.Command.{c_string}

abbrev manager_at : Addr
manager_at = record { host = 0; sin_port = 0 }

abbrev no_record : Record
no_record = record {
  msg_id = 0;
  tid = 0;
  old_value = 0;
  old_id = [];
  vector_clock = [];
  last_update_time = 0;
}

abbrev no_message : TxMessage
no_message = record { msg_id = 0; tid = 0; node_id = 0; is_crash = 0; vector_clock = [] }

abbrev no_data : ObjectData
no_data = record { id_string = []; last_update_time = 0; a = 1; b = 2; vector_clock = [] }

abbrev fresh : Worker
unfolding first_start
fresh = first_start 5000 40001 100 no_data manager_at no_message no_record

-- strtoul on one digit.
abbrev digit : List ℕ → Option ℕ
digit [] = none
digit (c ∷ cs) = if ltb c 48 || ltb 57 c then none else some (c - 48)

abbrev localhost : List ℕ → Option ℕ
localhost name = some 2130706433

abbrev garbage : CmdMessage
garbage = record {
  msg_id = 77;
  tid = 1;
  port = 2;
  new_value = 3;
  delay = 4;
  str_data = replicate 64 90;
}

-- "join worker 9 m 8 7"
main-join_example :
    (to : Addr) × (buffer : List ℕ) × (out : CmdMessage) × (main digit localhost
        ([] ∷ join_word ∷ (119 ∷ []) ∷ (57 ∷ []) ∷ (109 ∷ []) ∷ (56 ∷ []) ∷ (55 ∷ []) ∷ [])
        garbage
      ≡ delivered to buffer)
    × ((to.host ≡ 2130706433) × (to.sin_port ≡ 9))
    × (deserialize_msg buffer ≡ some (out, []))
    × (out.msg_id ≡ jointx)
    × (c_string out.str_data ≡ some (109 ∷ []))
    × (out.port ≡ 8)
    × (out.tid ≡ 7)
main-join_example =
    main-join digit localhost [] join_word (119 ∷ []) (57 ∷ []) (109 ∷ []) (56 ∷ []) (55 ∷ [])
      jointx garbage 2130706433 (inr (refl, refl)) (omega arith) (omega arith, tt) (omega arith)
      refl

newid-hear_example :
    GoesOn
      (λ s'. s'.obj.id_string ≡ 72 ∷ 105 ∷ [])
      (hear fresh 200 true (
        main digit localhost
          ([] ∷ newid_word ∷ (119 ∷ []) ∷ (57 ∷ []) ∷ (72 ∷ 105 ∷ []) ∷ [])
          garbage))
unfolding fresh
newid-hear_example =
    newid-hear digit localhost [] (119 ∷ []) (57 ∷ []) (72 ∷ 105 ∷ []) garbage 2130706433 200 true
      fresh (omega arith) (omega arith, (omega arith, tt)) (omega arith) refl refl

newa-hear_example :
    GoesOn
      (λ s'. s'.obj.a ≡ 7)
      (hear fresh 200 true
        (main digit localhost ([] ∷ newa_word ∷ (119 ∷ []) ∷ (57 ∷ []) ∷ (55 ∷ []) ∷ []) garbage))
unfolding fresh my_index
newa-hear_example =
    newa-hear digit localhost [] (119 ∷ []) (57 ∷ []) (55 ∷ []) garbage 2130706433 200 true fresh
      (omega arith) (omega arith) refl refl
