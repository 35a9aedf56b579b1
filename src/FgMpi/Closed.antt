-- ===== src/FgMpi/Closed.antt =====
-- What the steps of bully_algorithm_fg_mpi/bully.c keep: a property of the rank, the size, the time
-- and the history that printing, receiving, advancing the time and posting keep is kept by a run.
use distributed_system.Base.{
  ℕ, ◌+◌, ◌^◌, ◌≤◌, ◌<◌, ◌≡◌, Bool, true, false, List, [], ◌∷◌, ltb, if◌then◌else◌,
}
use distributed_system.Outcome.{Leaves, running, undefined, ◌>>=◌}
use distributed_system.FgMpi.State.{
  Effect, Line, Message, Node, coord_id, election_id, isend, print_event, printed, put_lines,
  received, discarded, event_printing,
}
use distributed_system.FgMpi.Send.{advance, post, send_event}

-- A COORD goes to a smaller rank but not to the clock node, an ELECTION to a greater one.
abbrev pub May : ℕ → ℕ → ℕ → ℕ → Type 0
May rank size event to =
    (event ≡ coord_id → (1 ≤ to) × (to < rank)) × (event ≡ election_id → (rank < to) × (to < size))

-- `P` holds between the sends, `F` where the time has been advanced for a send.
pub record Closed (P F : ℕ → ℕ → ℕ → List Effect → Type 0) : Type 0 where
  pub prints : (r z d : ℕ) (h : List Effect) (l : Line) → P r z d h → P r z d (printed l ∷ h)
  pub fresh_prints : (r z d : ℕ) (h : List Effect) (l : Line) → F r z d h → F r z d (printed l ∷ h)
  pub receives :
      (r z d : ℕ) (h : List Effect) (m : Message)
      → P r z d h
      → P r z (if ltb d m.time then m.time else d) (received m ∷ h)
  pub discards : (r z d : ℕ) (h : List Effect) (m : Message) → P r z d h → P r z d (discarded m ∷ h)
  pub advances : (r z d : ℕ) (h : List Effect) → P r z d h → F r z (d + 1) h
  pub settles : (r z d : ℕ) (h : List Effect) → F r z d h → P r z d h
  pub posts :
      (r z d : ℕ) (h : List Effect) (event to : ℕ) (c : Bool)
      → May r z event to
      → F r z d h
      → P r z d (isend to event d c ∷ h)

abbrev pub On : (ℕ → ℕ → ℕ → List Effect → Type 0) → Node → Type 0
On P s = P s.rank s.size s.dlc_time s.history

-- Printing keeps what a line keeps.
put_lines-keep :
    (Q : List Effect → Type 0)
    → ((h : List Effect) (l : Line) → Q h → Q (printed l ∷ h))
    → (ls : List Line) (h : List Effect) → Q h
    → Q (put_lines ls h)
unfolding put_lines
put_lines-keep Q prints [] h q = q
put_lines-keep Q prints (l ∷ ls) h q = put_lines-keep Q prints ls (printed l ∷ h) (prints h l q)

module _ {P F : ℕ → ℕ → ℕ → List Effect → Type 0} (closed : Closed P F) where
  open closed use {prints, fresh_prints, receives, advances, settles, posts}

  pub print-keep :
      (event sender receiver : ℕ) (is_send : Bool) (s : Node)
      → On P s
      → On P (print_event event sender receiver is_send s)
  unfolding print_event
  print-keep event sender receiver is_send s p =
      put_lines-keep (P s.rank s.size s.dlc_time) (prints s.rank s.size s.dlc_time)
        (event_printing s.dlc_time event sender receiver s.is_debug is_send) s.history p

  pub fresh-keep :
      (event sender receiver : ℕ) (is_send : Bool) (s : Node)
      → On F s
      → On F (print_event event sender receiver is_send s)
  unfolding print_event
  fresh-keep event sender receiver is_send s p =
      put_lines-keep (F s.rank s.size s.dlc_time) (fresh_prints s.rank s.size s.dlc_time)
        (event_printing s.dlc_time event sender receiver s.is_debug is_send) s.history p

  pub advance-keep : (s : Node) → On P s → Leaves (On F) (advance s)
  unfolding advance
  advance-keep s p = go (ltb (s.dlc_time + 1) (2 ^ 31))
    where
      go :
          (b : Bool)
          → Leaves
              (On F)
              (if b then running (record s { dlc_time = s.dlc_time + 1 }) else undefined)
      go true = advances s.rank s.size s.dlc_time s.history p
      go false = tt

  -- The property, at a rank and a size.
  abbrev pub At : ℕ → ℕ → Node → Type 0
  At r z s = On P s × (s.rank ≡ r) × (s.size ≡ z)

  pub send-keep :
      (r z event to : ℕ) (s : Node)
      → May r z event to
      → At r z s
      → Leaves (At r z) (send_event event to s)
  unfolding send_event advance post print_event
  send-keep r z event to s may (p, rank, size) = go (ltb (s.dlc_time + 1) (2 ^ 31))
    where
      u : Node
      u = record s { dlc_time = s.dlc_time + 1 }

      go :
          (b : Bool)
          → Leaves (At r z) (
              (if b then running u else undefined) >>= λ t.
              running (post event to (print_event event t.rank to true t)))
      go false = tt
      go true = (
        posts s.rank s.size (s.dlc_time + 1) _ event to (s.test s.tested) (rw (rank, size) may)
            (fresh-keep event s.rank to true u (advances s.rank s.size s.dlc_time s.history p)),
        rank,
        size,
      )
