-- ===== src/Server/Commands.antt =====
-- What the commands of client_server/mtserver.c lead to.
use distributed_system.Base.{
  ℕ, suc, ◌+◌, ◌%◌, ◌^◌, ◌≤◌, ◌≡◌, refl, ap, ◌∙◌, Bool, true, false, some, List, [], ◌∷◌, ◌++◌,
  arith, leb, if◌then◌else◌, length,
}
use distributed_system.Server.Client.{
  Client, load_word, manage_buffer, send_word, strncmp_eq, uptime_word,
}
use distributed_system.Outcome.{Outcome, exited, running, undefined}
use distributed_system.Server.Parse.{
  answered, body, on_exit, on_load, say_bye, scan, take_off, on_uptime,
}

-- A turn of the for loop that goes on, and one that returns.
pub scan-running :
    (fuel : ℕ) (s t : Client)
    → s.my_char ≤ length s.my_buffer
    → body s ≡ running t
    → scan (suc fuel) s ≡ scan fuel (record t { my_char = t.my_char + 1 })
unfolding scan
scan-running fuel s t within e =
    let b : leb s.my_char (length s.my_buffer) ≡ true = ground (arith, within) in
    ap
      (λ (c : Bool). elim c [
        | false ↦ some (running s)
        | true ↦ elim (body s) [
          | running t ↦ scan fuel (record t { my_char = t.my_char + 1 })
          | exited t ↦ some (exited t)
          | undefined ↦ some undefined
        ]
      ])
      b
    ∙ ap
        (λ (o : Outcome Client). elim o [
          | running t ↦ scan fuel (record t { my_char = t.my_char + 1 })
          | exited t ↦ some (exited t)
          | undefined ↦ some undefined
        ])
        e

scan-exited :
    (fuel : ℕ) (s t : Client)
    → s.my_char ≤ length s.my_buffer
    → body s ≡ exited t
    → scan (suc fuel) s ≡ some (exited t)
unfolding scan
scan-exited fuel s t within e =
    let b : leb s.my_char (length s.my_buffer) ≡ true = ground (arith, within) in
    ap
      (λ (c : Bool). elim c [
        | false ↦ some (running s)
        | true ↦ elim (body s) [
          | running t ↦ scan fuel (record t { my_char = t.my_char + 1 })
          | exited t ↦ some (exited t)
          | undefined ↦ some undefined
        ]
      ])
      b
    ∙ ap
        (λ (o : Outcome Client). elim o [
          | running t ↦ scan fuel (record t { my_char = t.my_char + 1 })
          | exited t ↦ some (exited t)
          | undefined ↦ some undefined
        ])
        e

-- The client at the start of a for loop, with these bytes in its buffer.
abbrev pub with_bytes : List ℕ → Client → Client
with_bytes cs s = record s { my_buffer = cs; my_char = 1 }

-- The client after an answer.
abbrev pub after_answer : ℕ → List ℕ → Client → Client
after_answer word rest s = record s {
  my_buffer = rest;
  my_char = 1;
  num_invalid = 0;
  sends = suc s.sends;
  responses = word ∷ s.responses;
}

-- The exit command is recognised by its first letter: a buffer that begins with `e`, whatever follows
-- it, is answered with 0, and the function returns, if the answer can be sent.
pub scan-exit :
    (fuel : ℕ) (s : Client) (rest : List ℕ)
    → s.accepts s.sends ≡ true
    → scan (suc fuel) (with_bytes (101 ∷ rest) s) ≡ some (exited (after_answer 0 [] s))
unfolding body strncmp_eq on_exit send_word say_bye
scan-exit fuel s rest ok =
    scan-exited fuel (with_bytes (101 ∷ rest) s) (after_answer 0 [] s) (omega arith) (
      ap
        (λ b.
          if b
          then exited (after_answer 0 [] s)
          else exited (record (with_bytes (101 ∷ rest) s) { sends = suc s.sends }))
        ok)

-- A turn that waits for more of a command.
pub scan-waits :
    (fuel n k : ℕ) (s : Client) (cs : List ℕ)
    → n ≤ length cs
    → body (record s { my_buffer = cs; my_char = n; num_invalid = k })
      ≡ running (record s { my_buffer = cs; my_char = n; num_invalid = 0 })
    → scan (suc fuel) (record s { my_buffer = cs; my_char = n; num_invalid = k })
      ≡ scan fuel (record s { my_buffer = cs; my_char = n + 1; num_invalid = 0 })
scan-waits fuel n k s cs within e =
    scan-running fuel (record s { my_buffer = cs; my_char = n; num_invalid = k })
      (record s { my_buffer = cs; my_char = n; num_invalid = 0 }) within e

-- The bytes of "load" are answered with the number of threads that is read then, and the for loop goes
-- on with the bytes behind them, if the answer can be sent.
pub scan-load :
    (fuel : ℕ) (s : Client) (rest : List ℕ)
    → s.accepts s.sends ≡ true
    → scan (suc (suc (suc (suc fuel)))) (with_bytes (load_word ++ rest) s)
      ≡ scan fuel
          (after_answer (s.loads s.readings % 2 ^ 32) rest (record s { readings = suc s.readings }))
unfolding body strncmp_eq on_load send_word answered take_off manage_buffer
scan-load fuel s rest ok =
    let cs = load_word ++ rest in
    let last = record s { my_buffer = cs; my_char = 4; num_invalid = 0 } in
    let word = s.loads s.readings % 2 ^ 32 in
    let t = record s {
      my_buffer = rest;
      my_char = 0;
      num_invalid = 0;
      readings = suc s.readings;
      sends = suc s.sends;
      responses = word ∷ s.responses;
    } in
    scan-waits (suc (suc (suc fuel))) 1 s.num_invalid s cs (omega arith) refl
    ∙ (scan-waits (suc (suc fuel)) 2 0 s cs (omega arith) refl
        ∙ (scan-waits (suc fuel) 3 0 s cs (omega arith) refl
            ∙ scan-running fuel last t (omega arith) (
                ap
                  (λ b.
                    if b
                    then running t
                    else exited (record last { readings = suc s.readings; sends = suc s.sends }))
                  ok)))

-- The bytes of "uptime" are answered with the seconds that sysinfo reports then, and the for loop goes
-- on with the bytes behind them, if the answer can be sent.
pub scan-uptime :
    (fuel : ℕ) (s : Client) (rest : List ℕ)
    → s.accepts s.sends ≡ true
    → scan (suc (suc (suc (suc (suc (suc fuel)))))) (with_bytes (uptime_word ++ rest) s)
      ≡ scan fuel
          (after_answer (s.uptimes s.reports % 2 ^ 32) rest (record s { reports = suc s.reports }))
unfolding body strncmp_eq on_uptime send_word answered take_off manage_buffer
scan-uptime fuel s rest ok =
    let cs = uptime_word ++ rest in
    let last = record s { my_buffer = cs; my_char = 6; num_invalid = 0 } in
    let word = s.uptimes s.reports % 2 ^ 32 in
    let t = record s {
      my_buffer = rest;
      my_char = 0;
      num_invalid = 0;
      reports = suc s.reports;
      sends = suc s.sends;
      responses = word ∷ s.responses;
    } in
    scan-waits (suc (suc (suc (suc (suc fuel))))) 1 s.num_invalid s cs (omega arith) refl
    ∙ (scan-waits (suc (suc (suc (suc fuel)))) 2 0 s cs (omega arith) refl
        ∙ (scan-waits (suc (suc (suc fuel))) 3 0 s cs (omega arith) refl
            ∙ (scan-waits (suc (suc fuel)) 4 0 s cs (omega arith) refl
                ∙ (scan-waits (suc fuel) 5 0 s cs (omega arith) refl
                    ∙ scan-running fuel last t (omega arith) (
                        ap
                          (λ b.
                            if b
                            then running t
                            else exited
                                (record last { reports = suc s.reports; sends = suc s.sends }))
                          ok)))))
