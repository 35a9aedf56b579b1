-- ===== src/Server/Turns.antt =====
-- What a turn of the for loop of HandleTCPClient in client_server/mtserver.c does to the buffer.
use distributed_system.Base.{
  ℕ, zero, suc, ◌+◌, ◌-◌, ◌%◌, ◌^◌, ◌≤◌, ◌<◌, ◌≡◌, refl, ◌⊎◌, inl, inr, ◌||◌, List, [], ◌∷◌, arith,
  ltb, ◌==◌, if◌then◌else◌, Bool-cases, length,
}
use distributed_system.Server.Client.{
  Client, manage_buffer, byte_at, exit_word, invalid, is_digit, load_word, send_word, space,
  strncmp_eq, uptime_word, sum_digits,
}
use distributed_system.Outcome.{Outcome, exited, running, undefined}
use distributed_system.Server.Parse.{
  body, check_invalid, misplaced, on_exit, on_load, on_number, on_other, on_uptime, take_off,
  answered, count_invalid, say_bye,
}

pub length-manage_buffer : (n : ℕ) (cs : List ℕ) → length (manage_buffer n cs) ≡ length cs - n
unfolding manage_buffer
length-manage_buffer zero cs = omega arith
length-manage_buffer (suc n) [] = omega arith
length-manage_buffer (suc n) (c ∷ cs) = omega (arith, length-manage_buffer n cs)

-- A turn that goes on has either kept the buffer and my_char, or it has taken bytes off and set my_char
-- to 0.
unfoldable pub IsProgress : Client → Client → Type 0
IsProgress s t =
    ((t.my_buffer ≡ s.my_buffer) × (t.my_char ≡ s.my_char))
    ⊎ ((length t.my_buffer < length s.my_buffer) × (t.my_char ≡ 0))

-- What holds of the state if the turn goes on.
unfoldable pub Continues : (Client → Type 0) → Outcome Client → Type 0
Continues P (running t) = P t
Continues P (exited t) = Unit
Continues P undefined = Unit

pub send_word-Continues :
    (P : Client → Type 0) (word : ℕ) (then_do : Client → Outcome Client) (s : Client)
    → Continues P (then_do (record s { sends = suc s.sends; responses = word ∷ s.responses }))
    → Continues P (send_word word then_do s)
unfolding send_word Continues
send_word-Continues P word then_do s h = elim (Bool-cases (s.accepts s.sends)) [
  | inl e ↦ rw e h
  | inr e ↦ rw e tt
]

module _ (s : Client) (first : 1 ≤ s.my_char) (within : s.my_char ≤ length s.my_buffer) where
  shorter : (n : ℕ) → 1 ≤ n → length (manage_buffer n s.my_buffer) < length s.my_buffer
  shorter n h = omega (arith, first, within, h, length-manage_buffer n s.my_buffer)

  answered-IsProgress :
      (t : Client)
      → t.my_buffer ≡ s.my_buffer
      → t.my_char ≡ s.my_char
      → Continues (IsProgress s) (answered t)
  unfolding answered take_off IsProgress Continues
  answered-IsProgress t b c = inr (rw (b, c) (shorter s.my_char first), refl)

  send_answer-IsProgress :
      (word : ℕ) (t : Client)
      → t.my_buffer ≡ s.my_buffer
      → t.my_char ≡ s.my_char
      → Continues (IsProgress s) (send_word word answered t)
  send_answer-IsProgress word t b c =
      send_word-Continues (IsProgress s) word answered t
        (answered-IsProgress (record t { sends = suc t.sends; responses = word ∷ t.responses }) b c)

  on_uptime-IsProgress : Continues (IsProgress s) (on_uptime s)
  unfolding on_uptime IsProgress Continues
  on_uptime-IsProgress = elim (Bool-cases (s.my_char == length uptime_word)) [
    | inl e ↦ rw e (
        send_answer-IsProgress (s.uptimes s.reports % 2 ^ 32) (record s { reports = suc s.reports })
          refl refl)
    | inr e ↦ rw e (inl (refl, refl))
  ]

  on_load-IsProgress : Continues (IsProgress s) (on_load s)
  unfolding on_load IsProgress Continues
  on_load-IsProgress = elim (Bool-cases (s.my_char == length load_word)) [
    | inl e ↦ rw e (
        send_answer-IsProgress (s.loads s.readings % 2 ^ 32)
          (record s { readings = suc s.readings }) refl refl)
    | inr e ↦ rw e (inl (refl, refl))
  ]

  on_exit-IsProgress : Continues (IsProgress s) (on_exit s)
  unfolding on_exit Continues say_bye
  on_exit-IsProgress = send_word-Continues (IsProgress s) 0 say_bye s tt

  check-IsProgress : (t : Client) → IsProgress s t → Continues (IsProgress s) (check_invalid t)
  unfolding check_invalid Continues
  check-IsProgress t h = elim (Bool-cases (ltb 2 t.num_invalid)) [
    | inl e ↦ rw e tt
    | inr e ↦ rw e h
  ]

  on_number-IsProgress : Continues (IsProgress s) (on_number s)
  unfolding on_number IsProgress Continues take_off count_invalid
  on_number-IsProgress = elim (Bool-cases (misplaced s)) [
    | inl e ↦ rw e (
        send_word-Continues (IsProgress s) invalid count_invalid (take_off s.my_char s) (
          check-IsProgress
            (record s {
              my_buffer = manage_buffer s.my_char s.my_buffer;
              my_char = 0;
              sends = suc s.sends;
              responses = invalid ∷ s.responses;
              num_invalid = s.num_invalid + 1;
            })
            (inr (shorter s.my_char first, refl))))
    | inr e1 ↦ elim (Bool-cases (byte_at (s.my_char - 1) s.my_buffer == space)) [
      | inl e ↦
          rw (e1, e) (send_answer-IsProgress (sum_digits (s.my_char - 1) s.my_buffer 0) s refl refl)
      | inr e ↦ rw (e1, e) (inl (refl, refl))
    ]
  ]

  on_other-IsProgress : Continues (IsProgress s) (on_other s)
  unfolding on_other IsProgress take_off
  on_other-IsProgress =
      send_word-Continues (IsProgress s) invalid check_invalid
        (record s {
          my_buffer = manage_buffer n s.my_buffer;
          my_char = 0;
          num_invalid = s.num_invalid + 1;
        })
        (check-IsProgress
          (record s {
            my_buffer = manage_buffer n s.my_buffer;
            my_char = 0;
            num_invalid = s.num_invalid + 1;
            sends = suc s.sends;
            responses = invalid ∷ s.responses;
          })
          (inr (shorter n (ground (arith, first)), refl)))
    where
      n : ℕ
      n = if s.my_char == 1 then s.my_char else s.my_char - 1

  pub body-IsProgress : Continues (IsProgress s) (body s)
  unfolding body
  body-IsProgress = elim (Bool-cases (strncmp_eq s.my_char s.my_buffer uptime_word)) [
    | inl e ↦ rw e on_uptime-IsProgress
    | inr e1 ↦ elim (Bool-cases (strncmp_eq s.my_char s.my_buffer load_word)) [
      | inl e ↦ rw (e1, e) on_load-IsProgress
      | inr e2 ↦ elim (Bool-cases (strncmp_eq s.my_char s.my_buffer exit_word)) [
        | inl e ↦ rw (e1, e2, e) on_exit-IsProgress
        | inr e3 ↦
            elim (Bool-cases (
              is_digit (byte_at (s.my_char - 1) s.my_buffer)
              || (byte_at (s.my_char - 1) s.my_buffer == space))) [
                | inl e ↦ rw (e1, e2, e3, e) on_number-IsProgress
                | inr e ↦ rw (e1, e2, e3, e) on_other-IsProgress
              ]
      ]
    ]
  ]
