-- ===== src/Bully/Joining.antt =====
-- Where main of node.c leads to.
use distributed_system.Base.{
  ℕ, ◌≤◌, ◌≡◌, refl, ap, ◌∙◌, ◌≢◌, true, false, Option, none, some, List, ◌∷◌, arith, ltb, ◌==◌,
  length, All,
}
use distributed_system.Outcome.{Outcome, running}
use distributed_system.Bully.State.{Node, GroupMem, max_nodes}
use distributed_system.Bully.Start.{found_in_group, first_start, fresh_node}
use distributed_system.Bully.Launch.{found_in_group-lt}
use distributed_system.Bully.Group.{read_group_list_file, is_dash}
use distributed_system.Bully.Reading.{IsWritten, group_text, read_members-group_text}
use distributed_system.Bully.Boot.{
  Ending, returns, Args, Surroundings, main, plays, value_of, error_of, count_errors, join_group,
}

first_start-found :
    (port : ℕ) (gs : List GroupMem) (probability aya_time : ℕ) (random : ℕ → ℕ) (pos : ℕ)
    → found_in_group port gs ≡ some pos
    → length gs ≤ max_nodes
    → first_start port gs probability aya_time random
      ≡ some (running (fresh_node port gs probability aya_time random pos))
unfolding first_start
first_start-found port gs probability aya_time random pos found few =
    let below : ltb pos max_nodes ≡ true =
      ground (arith, found_in_group-lt port gs pos found, few) in
    rw (first_start, found, below) refl

join_group-found :
    (strtoul : List ℕ → Option ℕ) (args : Args) (w : Surroundings) (gs : List GroupMem)
    (port rate pos : ℕ)
    → strtoul args.port ≡ some port
    → strtoul args.aya_time ≡ some rate
    → found_in_group port gs ≡ some pos
    → length gs ≤ max_nodes
    → join_group strtoul args w gs
      ≡ plays (running (fresh_node port gs (value_of (strtoul args.probability)) rate w.random pos))
unfolding join_group value_of
join_group-found strtoul args w gs port rate pos p a found few =
    ap
      (λ n. entered (
        first_start (value_of n) gs (value_of (strtoul args.probability))
          (value_of (strtoul args.aya_time)) w.random))
      p
    ∙ ap
        (λ n.
          entered (first_start port gs (value_of (strtoul args.probability)) (value_of n) w.random))
        a
    ∙ ap entered (
        first_start-found port gs (value_of (strtoul args.probability)) rate w.random pos found few)
  where
    entered : Option (Outcome Node) → Ending
    entered none = returns
    entered (some o) = plays o

read_group_list_file-text :
    (unset : ℕ → ℕ) (c : ℕ) (name input : List ℕ) (open_file : List ℕ → Option (List ℕ))
    (gs : List GroupMem)
    → c ≢ 45
    → open_file (c ∷ name) ≡ some (group_text gs)
    → All IsWritten gs
    → length gs ≤ max_nodes
    → read_group_list_file unset (c ∷ name) open_file input ≡ some (some gs)
unfolding read_group_list_file is_dash
read_group_list_file-text unset c name input open_file gs n text written few =
    let named : (c == 45) ≡ false = ground (arith, n) in
    rw (named, text, read_members-group_text unset max_nodes gs written few) refl

-- With a port, a timeout and an AYA time that are numbers, a log file that opens, and a group file
-- with the lines of at most nine members, of which each name is a word of fewer than 32 bytes and each
-- port a long, a node whose port is one of theirs enters sendUDPMsg with these members, that AYA time
-- and a clock that is 1 in the slot of its position, whatever the text of the failure probability
-- is.
pub main-group_text :
    (strtoul : List ℕ → Option ℕ) (args : Args) (w : Surroundings) (gs : List GroupMem)
    (port expiry rate pos c : ℕ) (name : List ℕ)
    → strtoul args.port ≡ some port
    → strtoul args.timeout_value ≡ some expiry
    → strtoul args.aya_time ≡ some rate
    → w.log_opens ≡ true
    → args.group_list_file ≡ c ∷ name
    → c ≢ 45
    → w.open_file (c ∷ name) ≡ some (group_text gs)
    → All IsWritten gs
    → length gs ≤ max_nodes
    → found_in_group port gs ≡ some pos
    → main strtoul (some args) w
      ≡ plays (running (fresh_node port gs (value_of (strtoul args.probability)) rate w.random pos))
unfolding main count_errors error_of
main-group_text strtoul args w gs port expiry rate pos c name p t a log file n text written few
      found =
    rw
      (
        p,
        t,
        a,
        log,
        file,
        read_group_list_file-text w.unset c name w.input w.open_file gs n text written few,
        join_group-found strtoul args w gs port rate pos p a found few,
      )
      refl
