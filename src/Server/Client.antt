-- ===== src/Server/Client.antt =====
-- The state of a client thread in client_server/mtserver.c, and the C functions on strings that it
-- uses. A buffer of RCVBUFSIZE bytes that holds a string is its bytes in front of the null byte.
use distributed_system.Base.{
  ℕ, zero, suc, ◌+◌, ◌-◌, ◌%◌, ◌^◌, Bool, true, false, ◌&&◌, List, [], ◌∷◌, leb, ◌==◌,
  if◌then◌else◌,
}
use distributed_system.Outcome.{Outcome, exited}

abbrev pub rcv_buf_size : ℕ
rcv_buf_size = 32

-- `responses` are the words sent, in host order, the last one first. `accepts` tells of each send
-- whether it succeeds, `uptimes` what sysinfo reports at each call, `loads` what numThread is at
-- each reading; the counts are those of the calls so far.
pub record Client : Type 0 where
  pub my_buffer : List ℕ
  pub my_char : ℕ
  pub num_invalid : ℕ
  pub accepts : ℕ → Bool
  pub sends : ℕ
  pub uptimes : ℕ → ℕ
  pub reports : ℕ
  pub loads : ℕ → ℕ
  pub readings : ℕ
  pub responses : List ℕ

-- "uptime", "load" and "exit"
abbrev pub uptime_word : List ℕ
uptime_word = 117 ∷ 112 ∷ 116 ∷ 105 ∷ 109 ∷ 101 ∷ []

abbrev pub load_word : List ℕ
load_word = 108 ∷ 111 ∷ 97 ∷ 100 ∷ []

abbrev pub exit_word : List ℕ
exit_word = 101 ∷ 120 ∷ 105 ∷ 116 ∷ []

abbrev pub space : ℕ
space = 32

-- The -1 that is sent for an invalid command.
abbrev pub invalid : ℕ
invalid = 2 ^ 32 - 1

-- `strncmp(a, b, n) == 0`
unfoldable pub strncmp_eq : ℕ → List ℕ → List ℕ → Bool
strncmp_eq zero a b = true
strncmp_eq (suc n) [] [] = true
strncmp_eq (suc n) [] (y ∷ b) = false
strncmp_eq (suc n) (x ∷ a) [] = false
strncmp_eq (suc n) (x ∷ a) (y ∷ b) = (x == y) && strncmp_eq n a b

abbrev pub is_digit : ℕ → Bool
is_digit c = leb 48 c && leb c 57

-- A byte of the buffer, the null byte behind the string.
unfoldable pub byte_at : ℕ → List ℕ → ℕ
byte_at i [] = 0
byte_at zero (c ∷ cs) = c
byte_at (suc i) (c ∷ cs) = byte_at i cs

-- manageBuffer: the first bytes are taken off.
unfoldable pub manage_buffer : ℕ → List ℕ → List ℕ
manage_buffer zero cs = cs
manage_buffer (suc n) [] = []
manage_buffer (suc n) (c ∷ cs) = manage_buffer n cs

-- `sum += myBuffer[i] - '0'` on a uint32_t, for the first bytes.
unfoldable pub sum_digits : ℕ → List ℕ → ℕ → ℕ
sum_digits zero cs sum = sum
sum_digits (suc n) [] sum = sum
sum_digits (suc n) (c ∷ cs) sum = sum_digits n cs ((sum + c + (2 ^ 32 - 48)) % 2 ^ 32)

-- A send of four bytes, and what follows if it succeeds; perror and the return if not.
unfoldable pub send_word : ℕ → (Client → Outcome Client) → Client → Outcome Client
send_word word next s =
    let t = record s { sends = suc s.sends; responses = word ∷ s.responses } in
    if s.accepts s.sends then next t else exited (record s { sends = suc s.sends })
