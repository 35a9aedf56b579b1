-- ===== src/Cmd/Refusal.antt =====
-- When cmd.c refuses its arguments.
use distributed_system.Base.{
  ℕ, ◌-◌, ◌%◌, ◌^◌, ◌≡◌, refl, sym, ap, ◌∙◌, Bool, true, false, not, ◌||◌, Option, none, some, List,
  ltb, ◌==◌, if◌then◌else◌, length,
}
use distributed_system.Cmd.Program.{
  Ending, delivered, main, message_of, fill, argument, copy_text, msg_id_of, no_such_host, refused,
  set_host, str_to_uint,
}
use distributed_system.Msg.{CmdMessage, begintx, delay_response, jointx, new_a, new_b, new_idstr}
use distributed_system.Wire.{id_len, serialize_msg}

-- Whether main returns -1.
unfoldable pub is_refused : Ending → Bool
is_refused refused = true
is_refused no_such_host = false
is_refused (delivered to buffer) = false

is_made : Option CmdMessage → Bool
is_made none = false
is_made (some m) = true

fill-is_made :
    (strtoul strtoul' : List ℕ → Option ℕ) (argv : List (List ℕ)) (m : CmdMessage)
    → is_made (fill strtoul argv m) ≡ is_made (fill strtoul' argv m)
unfolding fill is_made
fill-is_made strtoul strtoul' argv m =
    go ((m.msg_id == begintx) || (m.msg_id == jointx)) ((m.msg_id == new_a) || (m.msg_id == new_b))
      (m.msg_id == new_idstr) (m.msg_id == delay_response) (ltb (length argv) 7)
      (ltb (length argv) 5) (ltb (length argv) 5 || ltb (id_len - 1) (length (argument 4 argv)))
  where
    made : (List ℕ → Option ℕ) → Bool → Bool → Bool → Bool → Bool → Bool → Bool → Bool
    made f b1 b2 b3 b4 c1 c2 c3 = is_made (
        if b1
        then (if c1
            then none
            else some (record (set_host (argument 4 argv) m) {
              port = str_to_uint f (argument 5 argv);
              tid = str_to_uint f (argument 6 argv);
            }))
        else (if b2
            then (if c2
                then none
                else some (record m { new_value = str_to_uint f (argument 4 argv) }))
            else (if b3
                then (if c3
                    then none
                    else some (record m { str_data = copy_text (argument 4 argv) m.str_data }))
                else (if b4
                    then (if c2
                        then none
                        else some (record m { delay = str_to_uint f (argument 4 argv) }))
                    else some m))))

    go :
        (b1 b2 b3 b4 c1 c2 c3 : Bool)
        → made strtoul b1 b2 b3 b4 c1 c2 c3 ≡ made strtoul' b1 b2 b3 b4 c1 c2 c3
    go true b2 b3 b4 true c2 c3 = refl
    go true b2 b3 b4 false c2 c3 = refl
    go false true b3 b4 c1 true c3 = refl
    go false true b3 b4 c1 false c3 = refl
    go false false true b4 c1 c2 true = refl
    go false false true b4 c1 c2 false = refl
    go false false false true c1 true c3 = refl
    go false false false true c1 false c3 = refl
    go false false false false c1 c2 c3 = refl

message_of-is_made :
    (strtoul strtoul' : List ℕ → Option ℕ) (argv : List (List ℕ)) (m : CmdMessage)
    → is_made (message_of strtoul argv m) ≡ is_made (message_of strtoul' argv m)
unfolding message_of is_made
message_of-is_made strtoul strtoul' argv m =
    go (ltb (length argv) 2) (ltb (length argv) 4) (msg_id_of (argument 1 argv))
  where
    made : (List ℕ → Option ℕ) → Bool → Bool → Option ℕ → Bool
    made f b1 b2 o = is_made (
        if b1 then none else elim o [
          | none ↦ none
          | some kind ↦ if b2 then none else fill f argv (record m { msg_id = kind })
        ])

    go : (b1 b2 : Bool) (o : Option ℕ) → made strtoul b1 b2 o ≡ made strtoul' b1 b2 o
    go true b2 o = refl
    go false b2 none = refl
    go false true (some kind) = refl
    go false false (some kind) = fill-is_made strtoul strtoul' argv (record m { msg_id = kind })

main-is_refused :
    (strtoul lookup : List ℕ → Option ℕ) (argv : List (List ℕ)) (m : CmdMessage)
    → is_refused (main strtoul lookup argv m) ≡ not (is_made (message_of strtoul argv m))
unfolding main is_refused is_made
main-is_refused strtoul lookup argv m = go (message_of strtoul argv m) (lookup (argument 2 argv))
  where
    go :
        (o : Option CmdMessage) (h : Option ℕ)
        → is_refused (elim o [
          | none ↦ refused
          | some out ↦ elim h [
            | none ↦ no_such_host
            | some host ↦
                delivered
                  (record {
                    host = host;
                    sin_port = str_to_uint strtoul (argument 3 argv) % 2 ^ 16;
                  })
                  (serialize_msg out)
          ]
        ])
          ≡ not (is_made o)
    go none h = refl
    go (some out) none = refl
    go (some out) (some host) = refl

-- Whether the program refuses its arguments does not depend on what strtoul finds in them, so a text
-- that is no number is never refused where a number would not be.
pub refused-unchecked :
    (strtoul strtoul' lookup : List ℕ → Option ℕ) (argv : List (List ℕ)) (m : CmdMessage)
    → is_refused (main strtoul lookup argv m) ≡ is_refused (main strtoul' lookup argv m)
refused-unchecked strtoul strtoul' lookup argv m =
    main-is_refused strtoul lookup argv m
    ∙ ap not (message_of-is_made strtoul strtoul' argv m)
    ∙ sym (main-is_refused strtoul' lookup argv m)
