-- ===== src/Cmd/Program.antt =====
-- The command program, transaction_management/cmd.c: its arguments, the message that they make, and
-- the packet that it sends. Strings are their bytes. `strtoul` and `gethostbyname` are parameters: the
-- number that a text begins with, if there is one, and the address of a host.
use distributed_system.Base.{
  ℕ, zero, suc, ◌-◌, ◌%◌, ◌^◌, Bool, true, false, ◌&&◌, ◌||◌, Option, none, some, List, [], ◌∷◌,
  ltb, ◌==◌, if◌then◌else◌, length,
}
use distributed_system.Msg.{
  Addr, CmdMessage, abort, abort_crash, begintx, commit, commit_crash, crash, delay_response,
  jointx, new_a, new_b, new_idstr, vote_abort,
}
use distributed_system.Wire.{id_len, serialize_msg}

-- `strcmp(a, b) == 0`
unfoldable pub same : List ℕ → List ℕ → Bool
same [] [] = true
same [] (y ∷ b) = false
same (x ∷ a) [] = false
same (x ∷ a) (y ∷ b) = (x == y) && same a b

-- "begin"
abbrev pub begin_word : List ℕ
begin_word = 98 ∷ 101 ∷ 103 ∷ 105 ∷ 110 ∷ []

-- "join"
abbrev pub join_word : List ℕ
join_word = 106 ∷ 111 ∷ 105 ∷ 110 ∷ []

-- "newa"
abbrev pub newa_word : List ℕ
newa_word = 110 ∷ 101 ∷ 119 ∷ 97 ∷ []

-- "newb"
abbrev pub newb_word : List ℕ
newb_word = 110 ∷ 101 ∷ 119 ∷ 98 ∷ []

-- "newid"
abbrev pub newid_word : List ℕ
newid_word = 110 ∷ 101 ∷ 119 ∷ 105 ∷ 100 ∷ []

-- "crash"
abbrev pub crash_word : List ℕ
crash_word = 99 ∷ 114 ∷ 97 ∷ 115 ∷ 104 ∷ []

-- "delay"
abbrev pub delay_word : List ℕ
delay_word = 100 ∷ 101 ∷ 108 ∷ 97 ∷ 121 ∷ []

-- "commit"
abbrev pub commit_word : List ℕ
commit_word = 99 ∷ 111 ∷ 109 ∷ 109 ∷ 105 ∷ 116 ∷ []

-- "commitcrash"
abbrev pub commitcrash_word : List ℕ
commitcrash_word = 99 ∷ 111 ∷ 109 ∷ 109 ∷ 105 ∷ 116 ∷ 99 ∷ 114 ∷ 97 ∷ 115 ∷ 104 ∷ []

-- "abort"
abbrev pub abort_word : List ℕ
abort_word = 97 ∷ 98 ∷ 111 ∷ 114 ∷ 116 ∷ []

-- "abortcrash"
abbrev pub abortcrash_word : List ℕ
abortcrash_word = 97 ∷ 98 ∷ 111 ∷ 114 ∷ 116 ∷ 99 ∷ 114 ∷ 97 ∷ 115 ∷ 104 ∷ []

-- "voteabort"
abbrev pub voteabort_word : List ℕ
voteabort_word = 118 ∷ 111 ∷ 116 ∷ 101 ∷ 97 ∷ 98 ∷ 111 ∷ 114 ∷ 116 ∷ []

-- The message id of the first argument.
unfoldable pub msg_id_of : List ℕ → Option ℕ
unfolding same
msg_id_of cmd_type =
    if same cmd_type begin_word
    then some begintx
    else (if same cmd_type join_word
        then some jointx
        else (if same cmd_type newa_word
            then some new_a
            else (if same cmd_type newb_word
                then some new_b
                else (if same cmd_type newid_word
                    then some new_idstr
                    else (if same cmd_type crash_word
                        then some crash
                        else (if same cmd_type delay_word
                            then some delay_response
                            else (if same cmd_type commit_word
                                then some commit
                                else (if same cmd_type commitcrash_word
                                    then some commit_crash
                                    else (if same cmd_type abort_word
                                        then some abort
                                        else (if same cmd_type abortcrash_word
                                            then some abort_crash
                                            else (if same cmd_type voteabort_word
                                                then some vote_abort
                                                else none)))))))))))

-- `strcpy` into a char array: the text, a null byte, and what the array held behind them.
unfoldable pub copy_text : List ℕ → List ℕ → List ℕ
copy_text [] [] = []
copy_text [] (b ∷ bs) = 0 ∷ bs
copy_text (c ∷ cs) [] = []
copy_text (c ∷ cs) (b ∷ bs) = c ∷ copy_text cs bs

-- An argument, which the tests on argc have shown to be there.
unfoldable pub argument : ℕ → List (List ℕ) → List ℕ
argument i [] = []
argument zero (a ∷ rest) = a
argument (suc i) (a ∷ rest) = argument i rest

-- strToUInt: its `err++` changes its own copy of a pointer, so a text that is no number is 0.
unfoldable pub str_to_uint : (List ℕ → Option ℕ) → List ℕ → ℕ
str_to_uint strtoul arg = elim (strtoul arg) [ none ↦ 0 | some n ↦ n % 2 ^ 32 ]

-- The host name is left as it is if it is too long.
unfoldable pub set_host : List ℕ → CmdMessage → CmdMessage
unfolding copy_text
set_host name m =
    if ltb (id_len - 1) (length name) then m else record m { str_data = copy_text name m.str_data }

-- The switch over the message id; none is a return of -1. `m` holds what the local msg held.
unfoldable pub fill : (List ℕ → Option ℕ) → List (List ℕ) → CmdMessage → Option CmdMessage
unfolding argument str_to_uint set_host copy_text
fill strtoul argv m =
    if (m.msg_id == begintx) || (m.msg_id == jointx)
    then (if ltb (length argv) 7
        then none
        else some (record (set_host (argument 4 argv) m) {
          port = str_to_uint strtoul (argument 5 argv);
          tid = str_to_uint strtoul (argument 6 argv);
        }))
    else (if (m.msg_id == new_a) || (m.msg_id == new_b)
        then (if ltb (length argv) 5
            then none
            else some (record m { new_value = str_to_uint strtoul (argument 4 argv) }))
        else (if m.msg_id == new_idstr
            then (if ltb (length argv) 5 || ltb (id_len - 1) (length (argument 4 argv))
                then none
                else some (record m { str_data = copy_text (argument 4 argv) m.str_data }))
            else (if m.msg_id == delay_response
                then (if ltb (length argv) 5
                    then none
                    else some (record m { delay = str_to_uint strtoul (argument 4 argv) }))
                else some m)))

-- How the program ends: a return of -1, an unknown host, or a packet handed to sendto.
pub data Ending : Type 0 where
  refused : Ending
  no_such_host : Ending
  delivered : Addr → List ℕ → Ending

-- The message that the arguments make; none is a return of -1.
unfoldable pub message_of : (List ℕ → Option ℕ) → List (List ℕ) → CmdMessage → Option CmdMessage
unfolding argument msg_id_of fill
message_of strtoul argv m =
    if ltb (length argv) 2 then none else elim (msg_id_of (argument 1 argv)) [
      | none ↦ none
      | some kind ↦
          if ltb (length argv) 4 then none else fill strtoul argv (record m { msg_id = kind })
    ]

-- main. `err` is never changed, so its test is never passed.
unfoldable pub main :
    (List ℕ → Option ℕ) → (List ℕ → Option ℕ) → List (List ℕ) → CmdMessage → Ending
unfolding message_of argument str_to_uint serialize_msg
main strtoul lookup argv m = elim (message_of strtoul argv m) [
  | none ↦ refused
  | some out ↦ elim (lookup (argument 2 argv)) [
    | none ↦ no_such_host
    | some host ↦
        delivered
          (record { host = host; sin_port = str_to_uint strtoul (argument 3 argv) % 2 ^ 16 })
          (serialize_msg out)
  ]
]
