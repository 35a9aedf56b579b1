-- ===== src/Server/Numbers.antt =====
-- Numbers in the commands of client_server/mtserver.c.
use distributed_system.Base.{
  ℕ, zero, suc, ◌+◌, ◌-◌, ◌*◌, ◌%◌, ◌^◌, ◌≤◌, ◌<◌, ◌≡◌, refl, sym, ap, ◌∙◌, inl, inr, true, false,
  ◌||◌, List, [], ◌∷◌, ◌++◌, arith, ltb, ◌==◌, Bool-cases, length, length-append, All,
}
use distributed_system.Server.Client.{
  Client, byte_at, is_digit, space, strncmp_eq, sum_digits, manage_buffer, rcv_buf_size, send_word,
}
use distributed_system.Server.Parse.{body, misplaced, on_number, answered, scan, take_off}
use distributed_system.Outcome.{running}
use distributed_system.Server.Commands.{after_answer, with_bytes, scan-running, scan-waits}

-- The sum of the digits of a text, as numbers.
unfoldable pub digit_sum : List ℕ → ℕ
digit_sum [] = 0
digit_sum (d ∷ ds) = (d - 48) + digit_sum ds

abbrev pub IsDigit : ℕ → Type 0
IsDigit c = is_digit c ≡ true

sum_digits-digit_sum :
    (ds rest : List ℕ) (sum : ℕ)
    → All IsDigit ds
    → sum + 9 * length ds < 2 ^ 32
    → sum_digits (length ds) (ds ++ rest) sum ≡ sum + digit_sum ds
unfolding sum_digits digit_sum
sum_digits-digit_sum [] rest sum h room = omega arith
sum_digits-digit_sum (d ∷ ds) rest sum h room =
    let next_sum : (sum + d + (2 ^ 32 - 48)) % 2 ^ 32 ≡ sum + (d - 48) =
      ground (arith, h.0, room) in
    let small : d - 48 ≤ 9 = ground (arith, h.0) in
    ap (λ n. sum_digits (length ds) (ds ++ rest) n) next_sum
    ∙ (sum_digits-digit_sum ds rest (sum + (d - 48)) h.1 (omega (arith, small, room)) ∙ omega arith)

byte_at-IsDigit :
    (i : ℕ) (ds rest : List ℕ) → All IsDigit ds → i < length ds → IsDigit (byte_at i (ds ++ rest))
unfolding byte_at
byte_at-IsDigit i [] rest h k = absurd (omega (arith, k))
byte_at-IsDigit zero (d ∷ ds) rest h k = h.0
byte_at-IsDigit (suc i) (d ∷ ds) rest h k = byte_at-IsDigit i ds rest h.1 (omega (arith, k))

byte_at-space : (ds rest : List ℕ) → byte_at (length ds) (ds ++ space ∷ rest) ≡ space
unfolding byte_at
byte_at-space [] rest = refl
byte_at-space (d ∷ ds) rest = byte_at-space ds rest

-- A buffer that begins with a digit is none of the words.
strncmp_eq-digit :
    (n x : ℕ) (cs word : List ℕ)
    → 1 ≤ n
    → IsDigit (byte_at 0 cs)
    → is_digit x ≡ false
    → strncmp_eq n cs (x ∷ word) ≡ false
unfolding strncmp_eq byte_at
strncmp_eq-digit zero x cs word h d e = absurd (omega (arith, h))
strncmp_eq-digit (suc n) x [] word h d e = refl
strncmp_eq-digit (suc n) x (c ∷ cs) word h d e = ground (arith, d, e)

body-number :
    (s : Client) (n k : ℕ) (cs : List ℕ)
    → 1 ≤ n
    → IsDigit (byte_at 0 cs)
    → (is_digit (byte_at (n - 1) cs) || (byte_at (n - 1) cs == space)) ≡ true
    → body (record s { my_buffer = cs; my_char = n; num_invalid = k })
      ≡ on_number (record s { my_buffer = cs; my_char = n; num_invalid = k })
unfolding body
body-number s n k cs h d e =
    rw
      (
        strncmp_eq-digit n 117 cs (112 ∷ 116 ∷ 105 ∷ 109 ∷ 101 ∷ []) h d refl,
        strncmp_eq-digit n 108 cs (111 ∷ 97 ∷ 100 ∷ []) h d refl,
        strncmp_eq-digit n 101 cs (120 ∷ 105 ∷ 116 ∷ []) h d refl,
        e,
      )
      refl

placed :
    (s : Client) (n k : ℕ) (cs : List ℕ)
    → (1 < n → IsDigit (byte_at (n - 2) cs))
    → (n ≡ 1 → (byte_at (n - 1) cs == space) ≡ false)
    → misplaced (record s { my_buffer = cs; my_char = n; num_invalid = k }) ≡ false
unfolding misplaced
placed s n k cs before alone = elim (Bool-cases (ltb 1 n)) [
  | inl e ↦ let d = before (ground (arith, e)) in ground (arith, e, d)
  | inr e ↦ elim (Bool-cases (n == 1)) [
    | inl one ↦ let a = alone (ground (arith, one)) in ground (arith, e, one, a)
    | inr other ↦ ground (arith, e, other)
  ]
]

body-digit :
    (s : Client) (n k : ℕ) (cs : List ℕ)
    → 1 ≤ n
    → ((i : ℕ) → i < n → IsDigit (byte_at i cs))
    → body (record s { my_buffer = cs; my_char = n; num_invalid = k })
      ≡ running (record s { my_buffer = cs; my_char = n; num_invalid = 0 })
unfolding on_number
body-digit s n k cs h digits =
    let last : IsDigit (byte_at (n - 1) cs) = digits (n - 1) (omega (arith, h)) in
    let no_space : (byte_at (n - 1) cs == space) ≡ false = ground (arith, last) in
    let either : (is_digit (byte_at (n - 1) cs) || (byte_at (n - 1) cs == space)) ≡ true =
      ground (arith, last) in
    body-number s n k cs h (digits 0 (omega (arith, h))) either
    ∙ rw (placed s n k cs (λ e. digits (n - 2) (omega (arith, e))) (λ e. no_space), no_space) refl

-- The turns over the digits in front of position m.
steps : ℕ → ℕ → ℕ
steps zero fuel = fuel
steps (suc j) fuel = suc (steps j fuel)

steps_lem : (j fuel : ℕ) → steps j fuel ≡ j + fuel
unfolding steps
steps_lem zero fuel = omega arith
steps_lem (suc j) fuel = omega (arith, steps_lem j fuel)

scan-digits :
    (j n k fuel : ℕ) (s : Client) (cs : List ℕ)
    → 1 ≤ n
    → n + j ≤ length cs + 1
    → ((i : ℕ) → i + 1 < n + j → IsDigit (byte_at i cs))
    → (k' : ℕ) × (scan (steps j fuel) (record s { my_buffer = cs; my_char = n; num_invalid = k })
        ≡ scan fuel (record s { my_buffer = cs; my_char = n + j; num_invalid = k' }))
unfolding steps
scan-digits zero n k fuel s cs h within digits = (
  k,
  ap (λ i. scan fuel (record s { my_buffer = cs; my_char = i; num_invalid = k })) (omega arith),
)
scan-digits (suc j) n k fuel s cs h within digits =
    let (k', e) =
      scan-digits j (n + 1) 0 fuel s cs (omega arith) (omega (arith, within))
        (λ i l. digits i (omega (arith, l))) in
    (
      k',
      scan-waits (steps j fuel) n k s cs (omega (arith, within))
            (body-digit s n k cs h (λ i l. digits i (omega (arith, l))))
          ∙ (e
              ∙ ap (λ i. scan fuel (record s { my_buffer = cs; my_char = i; num_invalid = k' }))
                  (omega arith)),
    )

manage_buffer-append :
    (ds rest : List ℕ) → manage_buffer (suc (length ds)) (ds ++ space ∷ rest) ≡ rest
unfolding manage_buffer
manage_buffer-append [] rest = refl
manage_buffer-append (d ∷ ds) rest = manage_buffer-append ds rest

-- Digits with a space behind them are answered with the sum of the digits, and the for loop goes on
-- with the bytes behind the space, if there are 1 to 30 digits and the answer can be sent.
pub scan-number :
    (fuel : ℕ) (s : Client) (ds rest : List ℕ)
    → All IsDigit ds
    → 1 ≤ length ds
    → length ds < rcv_buf_size - 1
    → s.accepts s.sends ≡ true
    → scan (length ds + suc fuel) (with_bytes (ds ++ space ∷ rest) s)
      ≡ scan fuel (after_answer (digit_sum ds) rest s)
unfolding on_number send_word answered take_off
scan-number fuel s ds rest digits some_digit room ok =
    ap (λ f. scan f (with_bytes cs s)) (sym (steps_lem (length ds) (suc fuel)))
    ∙ (waits.1
        ∙ scan-running fuel (at waits.0) t (omega (arith, long)) (
            body-number s (1 + length ds) waits.0 cs (omega arith) (before 0 some_digit) either
            ∙ rw (in_place, is_space, ok, taken, summed) refl))
  where
    cs : List ℕ
    cs = ds ++ space ∷ rest

    long : length cs ≡ length ds + (1 + length rest)
    long = omega (arith, length-append ds (space ∷ rest))

    before : (i : ℕ) → i < length ds → IsDigit (byte_at i cs)
    before i l = byte_at-IsDigit i ds (space ∷ rest) digits l

    at : ℕ → Client
    at k = record s { my_buffer = cs; my_char = 1 + length ds; num_invalid = k }

    waits :
        (k' : ℕ) × (scan (steps (length ds) (suc fuel)) (with_bytes cs s) ≡ scan (suc fuel) (at k'))
    waits =
        scan-digits (length ds) 1 s.num_invalid (suc fuel) s cs (omega arith) (omega (arith, long))
          (λ i l. before i (omega (arith, l)))

    found : byte_at (1 + length ds - 1) cs ≡ space
    found = ap (λ i. byte_at i cs) (omega arith) ∙ byte_at-space ds rest

    either :
        (is_digit (byte_at (1 + length ds - 1) cs) || (byte_at (1 + length ds - 1) cs == space))
        ≡ true
    either = ground (arith, found)

    is_space : (byte_at (1 + length ds - 1) cs == space) ≡ true
    is_space = ground (arith, found)

    in_place : misplaced (at waits.0) ≡ false
    in_place =
        placed s (1 + length ds) waits.0 cs (λ e. before (1 + length ds - 2) (omega (arith, e)))
          (λ e. absurd (omega (arith, e, some_digit)))

    plus_one : 1 + length ds ≡ suc (length ds)
    plus_one = omega arith

    minus_one : 1 + length ds - 1 ≡ length ds
    minus_one = omega arith

    taken : manage_buffer (1 + length ds) cs ≡ rest
    taken = ap (λ i. manage_buffer i cs) plus_one ∙ manage_buffer-append ds rest

    summed : sum_digits (1 + length ds - 1) cs 0 ≡ digit_sum ds
    summed =
        ap (λ i. sum_digits i cs 0) minus_one
        ∙ (sum_digits-digit_sum ds (space ∷ rest) 0 digits (omega (arith, room)) ∙ omega arith)

    t : Client
    t = record s {
      my_buffer = rest;
      my_char = 0;
      num_invalid = 0;
      sends = suc s.sends;
      responses = digit_sum ds ∷ s.responses;
    }
