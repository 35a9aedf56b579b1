-- ===== src/Worker/Life.antt =====
-- A worker over its starts: the commands and messages of each process, and main again.
use distributed_system.Base.{
  ℕ, ◌%◌, ◌^◌, ◌≡◌, refl, sym, ap, subst, ◌∙◌, ◌≢◌, Bool, true, false, ◌&&◌, Option, none, some,
  arith, ◌==◌, if◌then◌else◌,
}
use distributed_system.Startup.{
  World, Start, refused, started, create_socket, check_size, found_file,
}
use distributed_system.Outcome.{running, exited, Leaves}
use distributed_system.Worker.State.{Worker}
use distributed_system.Worker.Command.{Input, handle_cmd_msg}
use distributed_system.Worker.Restart.{first_start, restart}
use distributed_system.Worker.Boot.{
  Files, main, start_on, enter, get_port, count_errors, object_data_size, open_log, save_port,
}
use distributed_system.Worker.Ports.{restart-HasPort, handle_cmd_msg-HasPort}

-- What follows a state: an event, or a new process that finds the log file, after an exit or after a
-- crash between two events.
pub data Life (s : Worker) : Worker → Type 0 where
  here : Life s s
  event : {t u : Worker} (i : Input) → Life s t → handle_cmd_msg t i ≡ running u → Life s u
  left_again :
      {t u v : Worker} (i : Input) (w : World) (f : Files)
      → Life s t
      → handle_cmd_msg t i ≡ exited u
      → w.log_exists ≡ true
      → f.left ≡ u
      → main w f ≡ started v
      → Life s v
  crashed_again :
      {t v : Worker} (w : World) (f : Files)
      → Life s t
      → w.log_exists ≡ true
      → f.left ≡ t
      → main w f ≡ started v
      → Life s v

-- What a start went through.
abbrev Entered : World → Files → Worker → Type 0
Entered w f s = (port : ℕ) × (create_socket w (get_port w f.left) ≡ true) × (s ≡ enter w f port)

started_of : Worker → Start Worker → Worker
started_of d (refused code) = d
started_of d (started s) = s

start_on-Entered :
    (w : World) (f : Files) (port : ℕ) (s : Worker) → start_on w f port ≡ started s → Entered w f s
unfolding start_on started_of
start_on-Entered w f port s e =
    go (create_socket w port) (create_socket w (get_port w f.left)) refl
      (check_size object_data_size w.data_size w.data_grows) e
  where
    go :
        (a b : Bool)
        → create_socket w (get_port w f.left) ≡ b
        → (c : Option ℕ)
        → (if a && b
            then elim c as (λ x. Start Worker) [
              | some code ↦ refused code
              | none ↦ started (enter w f port)
            ]
            else refused 1)
          ≡ started s
        → Entered w f s
    go true true bound none e = (port, bound, sym (ap (started_of s) e))
    go true true bound (some code) e = absurd (ground (arith, e))
    go true false bound c e = absurd (ground (arith, e))
    go false b bound c e = absurd (ground (arith, e))

main-Entered : (w : World) (f : Files) (s : Worker) → main w f ≡ started s → Entered w f s
unfolding main
main-Entered w f s e = go (w.argc == 2) (open_log w) w.number (λ port. count_errors w == 0) e
  where
    go :
        (a : Bool) (o n : Option ℕ) (c : ℕ → Bool)
        → (if a
            then elim o as (λ x. Start Worker) [
              | some code ↦ refused code
              | none ↦ elim n as (λ x. Start Worker) [
                | none ↦ refused 1
                | some port ↦ if c port then start_on w f port else refused 1
              ]
            ]
            else refused 1)
          ≡ started s
        → Entered w f s
    go false o n c e = absurd (ground (arith, e))
    go true (some code) n c e = absurd (ground (arith, e))
    go true none none c e = absurd (ground (arith, e))
    go true none (some port) c e = pick (c port) e
      where
        pick : (b : Bool) → (if b then start_on w f port else refused 1) ≡ started s → Entered w f s
        pick true e = start_on-Entered w f port s e
        pick false e = absurd (ground (arith, e))

enter-sys_port :
    (w : World) (f : Files) (port : ℕ) → (enter w f port).sys_port ≡ save_port w (get_port w f.left)
unfolding enter first_start
enter-sys_port w f port = go (found_file w)
  where
    p : ℕ
    p = save_port w (get_port w f.left)

    go :
        (b : Bool)
        → (if b
            then restart f.addr f.out f.rec
                (record f.left { node_id = port % 2 ^ 32; sys_port = p })
            else first_start (port % 2 ^ 32) p w.now f.left.obj f.addr f.out f.rec).sys_port
          ≡ p
    go true =
        restart-HasPort p f.addr f.out f.rec
          (record f.left { node_id = port % 2 ^ 32; sys_port = p }) refl
    go false = refl

get_port-found : (w : World) (left : Worker) → w.log_exists ≡ true → get_port w left ≡ left.sys_port
unfolding get_port found_file
get_port-found w left found = ground (arith, found)

save_port-saved : (w : World) (p : ℕ) → p ≢ 0 → save_port w p ≡ p
unfolding save_port
save_port-saved w p n = ground (arith, n)

save_port-ne_zero : (w : World) (p : ℕ) → w.generated % 2 ^ 16 ≢ 0 → save_port w p ≢ 0
unfolding save_port
save_port-ne_zero w p n = ground (arith, n)

-- A start that finds the log file, with a port in it, is one with that port.
main-again :
    (w : World) (f : Files) (s : Worker)
    → w.log_exists ≡ true
    → f.left.sys_port ≢ 0
    → main w f ≡ started s
    → (s.sys_port ≡ f.left.sys_port) × (create_socket w f.left.sys_port ≡ true)
main-again w f s found n e =
    let (port, bound, state) = main-Entered w f s e in
    let same = get_port-found w f.left found in
    (
      ap (λ (s : Worker). s.sys_port) state
          ∙ enter-sys_port w f port
          ∙ ap (save_port w) same
          ∙ save_port-saved w f.left.sys_port n,
      sym (ap (create_socket w) same) ∙ bound,
    )

main-sys_port :
    (w : World) (f : Files) (s : Worker)
    → w.generated % 2 ^ 16 ≢ 0
    → main w f ≡ started s
    → s.sys_port ≢ 0
main-sys_port w f s n e z =
    let (port, bound, state) = main-Entered w f s e in
    save_port-ne_zero w (get_port w f.left) n
      (sym (ap (λ (s : Worker). s.sys_port) state ∙ enter-sys_port w f port) ∙ z)

-- The same, if the log file holds the port p.
main-at :
    (p : ℕ) (w : World) (f : Files) (u v : Worker)
    → p ≢ 0
    → w.log_exists ≡ true
    → u.sys_port ≡ p
    → f.left ≡ u
    → main w f ≡ started v
    → (v.sys_port ≡ p) × (create_socket w p ≡ true)
main-at p w f u v n found at same start =
    let holds : f.left.sys_port ≡ p = ap (λ (s : Worker). s.sys_port) same ∙ at in
    let (port, bound) = main-again w f v found (λ z. n (sym holds ∙ z)) start in
    (port ∙ holds, sym (ap (create_socket w) holds) ∙ bound)

Life-sys_port : (s z : Worker) → s.sys_port ≢ 0 → Life s z → z.sys_port ≡ s.sys_port
Life-sys_port s z n here = refl
Life-sys_port s z n (event {t} i life e) =
    subst (Leaves (λ (v : Worker). v.sys_port ≡ s.sys_port)) e
      (handle_cmd_msg-HasPort s.sys_port t i (Life-sys_port s t n life))
Life-sys_port s z n (left_again {t} {u} i w f life e found same start) =
    let at =
      subst (Leaves (λ (v : Worker). v.sys_port ≡ s.sys_port)) e
        (handle_cmd_msg-HasPort s.sys_port t i (Life-sys_port s t n life)) in
    (main-at s.sys_port w f u z n found at same start).0
Life-sys_port s z n (crashed_again {t} w f life found same start) =
    (main-at s.sys_port w f t z n found (Life-sys_port s t n life) same start).0

-- Whatever happens to a worker after a start, exits, crashes between two events and further starts
-- included, the next start that finds its log file, and gets as far as its loop, has bound the
-- socket of the manager to the port that the first one saved, and keeps that port in the log file,
-- if the system chooses a port other than 0.
pub Life-port :
    (w first : World) (f file : Files) (s t u : Worker)
    → main first file ≡ started s
    → first.generated % 2 ^ 16 ≢ 0
    → Life s t
    → w.log_exists ≡ true
    → f.left ≡ t
    → main w f ≡ started u
    → (u.sys_port ≡ s.sys_port) × (create_socket w s.sys_port ≡ true)
Life-port w first f file s t u begin n life found same start =
    let used = main-sys_port first file s n begin in
    main-at s.sys_port w f t u used found (Life-sys_port s t used life) same start
