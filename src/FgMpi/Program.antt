-- ===== src/FgMpi/Program.antt =====
-- The function bully of bully_algorithm_fg_mpi/bully.c, which every rank runs: its arguments, and the
-- choice between the clock node and the other nodes. strtoul is a parameter: the number that a text
-- begins with, if there is one.
use distributed_system.Base.{
  ℕ, suc, ◌%◌, ◌^◌, ◌<◌, ◌≡◌, refl, Bool, true, false, not, ◌&&◌, Option, none, some, List, [], ◌∷◌,
  ◌++◌, arith, ltb, ◌==◌, if◌then◌else◌, length,
}
use distributed_system.Outcome.{Outcome}
use distributed_system.FgMpi.State.{Node, Message}
use distributed_system.FgMpi.Start.{fresh_node, begin, handle_clock}

-- What a rank does: it returns -1, it is the clock node, or it enters handleNode. Of an int that is
-- negative the model says no more.
pub data Role : Type 0 where
  refused : Role
  negative : Role
  clock_node : List (ℕ × Message) → Role
  node : Outcome Node → Role

-- One conversion: the number, which is 0 if there is none, and the count of failures.
unfoldable pub put_number : Option ℕ → List ℕ × ℕ → List ℕ × ℕ
put_number none (ns, err) = (0 ∷ ns, suc err)
put_number (some n) (ns, err) = (n % 2 ^ 32 ∷ ns, err)

-- The arguments as numbers, and how many conversions failed.
unfoldable pub convert : (List ℕ → Option ℕ) → List (List ℕ) → List ℕ × ℕ
unfolding put_number
convert strtoul [] = ([], 0)
convert strtoul (text ∷ texts) = put_number (strtoul text) (convert strtoul texts)

unfoldable pub all_small : List ℕ → Bool
all_small [] = true
all_small (n ∷ ns) = ltb n (2 ^ 31) && all_small ns

-- The call of handleClock or handleNode.
unfoldable pub enter : ℕ → ℕ → List ℕ → (ℕ → ℕ) → (ℕ → ℕ) → (ℕ → Bool) → Role
unfolding all_small fresh_node begin handle_clock
enter size rank (debug ∷ timeout ∷ aya ∷ failure ∷ life ∷ []) random wtime test =
    if rank == 0
    then clock_node (handle_clock size)
    else (if all_small (timeout ∷ aya ∷ failure ∷ life ∷ [])
        then node (
            begin
              (fresh_node size rank (not (debug == 0)) timeout aya failure life random wtime test))
        else negative)
enter size rank ns random wtime test = refused

unfoldable pub bully :
    (List ℕ → Option ℕ) → List (List ℕ) → ℕ → ℕ → (ℕ → ℕ) → (ℕ → ℕ) → (ℕ → Bool) → Role
unfolding convert enter
bully strtoul [] size rank random wtime test = refused
bully strtoul (cmd ∷ texts) size rank random wtime test =
    if length texts == 5
    then (let (ns, err) = convert strtoul texts in
        if err == 0 then enter size rank ns random wtime test else refused)
    else refused

convert-fails :
    (strtoul : List ℕ → Option ℕ) (before after : List (List ℕ)) (text : List ℕ)
    → strtoul text ≡ none
    → 0 < (convert strtoul (before ++ text ∷ after)).1
unfolding convert
convert-fails strtoul [] after text h = rw h (omega arith)
convert-fails strtoul (t ∷ before) after text h =
    go (strtoul t) (convert strtoul (before ++ text ∷ after))
      (convert-fails strtoul before after text h)
  where
    go : (o : Option ℕ) (rest : List ℕ × ℕ) → 0 < rest.1 → 0 < (put_number o rest).1
    go none rest h = omega arith
    go (some n) rest h = h

-- An argument that is no number, wherever it stands, makes every rank return -1.
pub bully-refused :
    (strtoul : List ℕ → Option ℕ) (cmd text : List ℕ) (before after : List (List ℕ)) (size rank : ℕ)
    (random wtime : ℕ → ℕ) (test : ℕ → Bool)
    → strtoul text ≡ none
    → bully strtoul (cmd ∷ before ++ text ∷ after) size rank random wtime test ≡ refused
unfolding bully
bully-refused strtoul cmd text before after size rank random wtime test h =
    go (length (before ++ text ∷ after) == 5) (convert strtoul (before ++ text ∷ after))
      (convert-fails strtoul before after text h)
  where
    go :
        (five : Bool) (c : List ℕ × ℕ)
        → 0 < c.1
        → (if five
            then (if c.1 == 0 then enter size rank c.0 random wtime test else refused)
            else refused)
          ≡ refused
    go false c some_failed = refl
    go true (ns, err) some_failed =
        let b : (err == 0) ≡ false = ground (arith, some_failed) in rw b refl
