-- ===== src/Cmd/Joined.antt =====
-- The packets of the commands begin and join of transaction_management/cmd.c, as a worker reads them.
use distributed_system.Base.{
  ℕ, ◌-◌, ◌%◌, ◌^◌, ◌<◌, ◌≡◌, refl, subst, ◌∙◌, ◌≢◌, ◌⊎◌, inl, inr, false, Option, none, some, List,
  [], ◌∷◌, append-nil, arith, ltb, length, All,
}
use distributed_system.Msg.{Addr, CmdMessage, begintx, jointx}
use distributed_system.Wire.{id_len, deserialize_msg, serialize_msg}
use distributed_system.Wire.Roundtrip.{CmdFits, deserialize_msg-serialize_msg}
use distributed_system.Worker.Command.{c_string}
use distributed_system.Cmd.Program.{
  argument, begin_word, copy_text, delivered, fill, join_word, main, message_of, msg_id_of, same,
  set_host, str_to_uint,
}
use distributed_system.Cmd.Delivery.{c_string-copy_text, length-copy_text, str_to_uint-lt}
use distributed_system.Cmd.Heard.{main-delivered}

-- The number that a text begins with, modulo 2^32, and 0 if it begins with none.
abbrev pub number_read : (List ℕ → Option ℕ) → List ℕ → ℕ
number_read strtoul text = elim (strtoul text) [ none ↦ 0 | some n ↦ n % 2 ^ 32 ]

-- The words of the two commands, each with the kind of its message.
abbrev pub IsStart : List ℕ → ℕ → Type 0
IsStart word kind =
    ((word ≡ begin_word) × (kind ≡ begintx)) ⊎ ((word ≡ join_word) × (kind ≡ jointx))

joining : ℕ → List ℕ → ℕ → ℕ → CmdMessage → CmdMessage
joining kind name port tid m = record m {
  msg_id = kind;
  str_data = copy_text name m.str_data;
  port = port;
  tid = tid;
}

message_join :
    (strtoul : List ℕ → Option ℕ) (prog word host port name tm tid : List ℕ) (kind : ℕ)
    (m : CmdMessage)
    → IsStart word kind
    → length name < id_len
    → message_of strtoul (prog ∷ word ∷ host ∷ port ∷ name ∷ tm ∷ tid ∷ []) m
      ≡ some (joining kind name (number_read strtoul tm) (number_read strtoul tid) m)
unfolding message_of msg_id_of same argument fill set_host str_to_uint joining
message_join strtoul prog word host port name tm tid kind m (inl (w, k)) short =
    let fine : ltb (id_len - 1) (length name) ≡ false = ground (arith, short) in
    rw (w, k, fine) refl
message_join strtoul prog word host port name tm tid kind m (inr (w, k)) short =
    let fine : ltb (id_len - 1) (length name) ≡ false = ground (arith, short) in
    rw (w, k, fine) refl

-- The command begin or join with the host and port of a worker, the name and port of a manager and
-- a tid, where the worker's host is found and the name is short enough for its field: the program
-- hands one packet to sendto, for that host and port, and a worker reads from it a message of the
-- kind of the command, with the name as its text, and the manager's port and the tid as numbers,
-- if what the local message held fits its fields.
pub main-join :
    (strtoul lookup : List ℕ → Option ℕ) (prog word host port name tm tid : List ℕ) (kind : ℕ)
    (m : CmdMessage) (addr : ℕ)
    → IsStart word kind
    → CmdFits m
    → All (λ c. c ≢ 0) name
    → length name < id_len
    → lookup host ≡ some addr
    → (to : Addr) × (buffer : List ℕ) × (out : CmdMessage) × (main strtoul lookup
          (prog ∷ word ∷ host ∷ port ∷ name ∷ tm ∷ tid ∷ [])
          m
        ≡ delivered to buffer)
      × ((to.host ≡ addr) × (to.sin_port ≡ number_read strtoul port % 2 ^ 16))
      × (deserialize_msg buffer ≡ some (out, []))
      × (out.msg_id ≡ kind)
      × (c_string out.str_data ≡ some name)
      × (out.port ≡ number_read strtoul tm)
      × (out.tid ≡ number_read strtoul tid)
unfolding argument str_to_uint joining
main-join strtoul lookup prog word host port name tm tid kind m addr start fits text short found =
    let out = joining kind name (number_read strtoul tm) (number_read strtoul tid) m in
    let made = message_join strtoul prog word host port name tm tid kind m start short in
    let fits' : CmdFits out = (
      elim start [ inl (w, k) ↦ omega (arith, k) | inr (w, k) ↦ omega (arith, k) ],
      str_to_uint-lt strtoul tid,
      str_to_uint-lt strtoul tm,
      fits.3,
      fits.4,
      length-copy_text name m.str_data ∙ fits.5,
    ) in
    (
      _,
      serialize_msg out,
      out,
      main-delivered strtoul lookup (prog ∷ word ∷ host ∷ port ∷ name ∷ tm ∷ tid ∷ []) m out addr
          made found,
      (refl, refl),
      subst (λ b. deserialize_msg b ≡ some (out, [])) (append-nil (serialize_msg out))
          (deserialize_msg-serialize_msg out [] fits'),
      refl,
      c_string-copy_text name m.str_data text (omega (arith, short, fits.5)),
      refl,
      refl,
    )
