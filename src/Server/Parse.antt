-- ===== src/Server/Parse.antt =====
-- The parser of HandleTCPClient in client_server/mtserver.c: its for loop and its recv loop. The
-- outcome `exited` is the return of the function, after which the connection is closed.
use distributed_system.Base.{
  ℕ, zero, suc, ◌+◌, ◌-◌, ◌%◌, ◌^◌, Bool, true, false, not, ◌&&◌, ◌||◌, Option, none, some, List,
  [], ◌∷◌, ◌++◌, ltb, leb, ◌==◌, if◌then◌else◌, length, replicate,
}
use distributed_system.Server.Client.{
  Client, byte_at, exit_word, invalid, is_digit, load_word, manage_buffer, rcv_buf_size, send_word,
  space, strncmp_eq, sum_digits, uptime_word,
}
use distributed_system.Outcome.{Outcome, exited, running, undefined}

-- The bytes are taken off the buffer and my_char is set to 0.
unfoldable pub take_off : ℕ → Client → Client
unfolding manage_buffer
take_off n s = record s { my_buffer = manage_buffer n s.my_buffer; my_char = 0 }

-- The end of a branch that counts an invalid command.
unfoldable pub check_invalid : Client → Outcome Client
check_invalid s = if ltb 2 s.num_invalid then exited s else running s

-- After an answer the bytes that were read are taken off.
unfoldable pub answered : Client → Outcome Client
unfolding take_off
answered s = running (record (take_off s.my_char s) { num_invalid = 0 })

unfoldable pub on_uptime : Client → Outcome Client
unfolding send_word answered
on_uptime s =
    if s.my_char == length uptime_word
    then send_word (s.uptimes s.reports % 2 ^ 32) answered (record s { reports = suc s.reports })
    else running (record s { num_invalid = 0 })

unfoldable pub on_load : Client → Outcome Client
unfolding send_word answered
on_load s =
    if s.my_char == length load_word
    then send_word (s.loads s.readings % 2 ^ 32) answered (record s { readings = suc s.readings })
    else running (record s { num_invalid = 0 })

unfoldable pub say_bye : Client → Outcome Client
say_bye s = exited (record s { my_buffer = []; num_invalid = 0 })

unfoldable pub on_exit : Client → Outcome Client
unfolding send_word say_bye
on_exit s = send_word 0 say_bye s

-- A digit or a space that does not follow a digit, if it has to.
unfoldable pub misplaced : Client → Bool
unfolding byte_at
misplaced s =
    (ltb 1 s.my_char && not (is_digit (byte_at (s.my_char - 2) s.my_buffer)))
    || ((s.my_char == 1) && (byte_at (s.my_char - 1) s.my_buffer == space))

unfoldable pub count_invalid : Client → Outcome Client
unfolding check_invalid
count_invalid s = check_invalid (record s { num_invalid = s.num_invalid + 1 })

unfoldable pub on_number : Client → Outcome Client
unfolding misplaced byte_at send_word take_off count_invalid sum_digits answered
on_number s =
    if misplaced s
    then send_word invalid count_invalid (take_off s.my_char s)
    else (if byte_at (s.my_char - 1) s.my_buffer == space
        then send_word (sum_digits (s.my_char - 1) s.my_buffer 0) answered s
        else running (record s { num_invalid = 0 }))

unfoldable pub on_other : Client → Outcome Client
unfolding take_off send_word check_invalid
on_other s =
    let t = take_off (if s.my_char == 1 then s.my_char else s.my_char - 1) s in
    send_word invalid check_invalid (record t { num_invalid = t.num_invalid + 1 })

-- The body of the for loop.
unfoldable pub body : Client → Outcome Client
unfolding strncmp_eq on_uptime on_load on_exit on_number on_other byte_at
body s =
    if strncmp_eq s.my_char s.my_buffer uptime_word
    then on_uptime s
    else (if strncmp_eq s.my_char s.my_buffer load_word
        then on_load s
        else (if strncmp_eq s.my_char s.my_buffer exit_word
            then on_exit s
            else (if is_digit (byte_at (s.my_char - 1) s.my_buffer)
                  || (byte_at (s.my_char - 1) s.my_buffer == space)
                then on_number s
                else on_other s)))

-- The for loop, from the current my_char; none if the fuel runs out.
unfoldable pub scan : ℕ → Client → Option (Outcome Client)
unfolding body
scan zero s = none
scan (suc fuel) s = elim (leb s.my_char (length s.my_buffer)) [
  | false ↦ some (running s)
  | true ↦ elim (body s) [
    | running t ↦ scan fuel (record t { my_char = t.my_char + 1 })
    | exited t ↦ some (exited t)
    | undefined ↦ some undefined
  ]
]

abbrev pub scan_fuel : ℕ
scan_fuel = 1024

-- The bytes in front of the first null byte; none if there is none.
unfoldable pub text_of : List ℕ → Option (List ℕ)
text_of [] = none
text_of (c ∷ cs) =
    let rest = text_of cs in
    if c == 0 then some [] else elim rest [ none ↦ none | some t ↦ some (c ∷ t) ]

-- What recv gives: an error, or the bytes received, none of them at the end of the transmission.
pub data Input : Type 0 where
  recv_error : Input
  bytes : List ℕ → Input

-- strcat of the received bytes, in a buffer that was zero, and the for loop. The reading of a buffer
-- that is full, and the writing past the end of myBuffer, are undefined.
unfoldable pub receive : List ℕ → Client → Option (Outcome Client)
unfolding text_of scan
receive packet s = elim (text_of (packet ++ replicate (rcv_buf_size - length packet) 0)) [
  | none ↦ some undefined
  | some text ↦
      if ltb (length (s.my_buffer ++ text)) rcv_buf_size
      then scan scan_fuel (record s { my_buffer = s.my_buffer ++ text; my_char = 1 })
      else some undefined
]

-- HandleTCPClient; none if a for loop runs out of fuel.
unfoldable pub handle_tcp_client : Client → List Input → Option (Outcome Client)
unfolding receive
handle_tcp_client s [] = some (running s)
handle_tcp_client s (recv_error ∷ is) = some (exited s)
handle_tcp_client s (bytes [] ∷ is) = some (exited s)
handle_tcp_client s (bytes (c ∷ cs) ∷ is) = elim (receive (c ∷ cs) s) [
  | none ↦ none
  | some undefined ↦ some undefined
  | some (exited t) ↦ some (exited t)
  | some (running t) ↦ handle_tcp_client t is
]
