-- ===== src/Bully/JoiningTests.antt =====
-- Group files of node.c, and an instance of the theorem about main.
use distributed_system.Base.{
  ℕ, ◌≡◌, refl, true, Option, none, some, List, [], ◌∷◌, ◌++◌, arith, ltb, if◌then◌else◌,
}
use distributed_system.Outcome.{running}
use distributed_system.Trace.Events.{codes}
use distributed_system.Trace.Write.{decimal}
use distributed_system.Bully.State.{GroupMem}
use distributed_system.Bully.Start.{fresh_node, found_in_group}
use distributed_system.Bully.Group.{read_members, number_of, is_space}
use distributed_system.Bully.Reading.{group_text}
use distributed_system.Bully.Boot.{Args, Surroundings, main, plays, returns, value_of}
use distributed_system.Bully.Joining.{main-group_text}

abbrev members : List GroupMem
members =
    record { hostname = codes "alpha"; portno = 4000 }
    ∷ record { hostname = codes "beta"; portno = 5000 }
    ∷ []

abbrev no_port : ℕ → ℕ
no_port left = 77

-- "alpha 4000" and "beta 5000", each in a line.
text_run : group_text members ≡ codes "alpha 4000" ++ 10 ∷ codes "beta 5000" ++ 10 ∷ []
unfolding group_text decimal
text_run = refl

read_run : read_members no_port 9 (codes "  alpha +4000 beta  5000") ≡ some members
unfolding read_members
read_run = refl

-- A port that is no number: the member keeps the port that the array held, and the word is the name
-- of the next one.
no_number_run :
    read_members no_port 9 (codes "alpha x4000")
    ≡ some (
        record { hostname = codes "alpha"; portno = 77 }
        ∷ record { hostname = codes "x4000"; portno = 77 }
        ∷ [])
unfolding read_members
no_number_run = refl

-- A member more than the array has room for.
too_many_run : read_members no_port 1 (codes "alpha 4000 beta 5000") ≡ none
unfolding read_members
too_many_run = refl

-- The numbers of a strtoul that takes digits only.
abbrev strtoul : List ℕ → Option ℕ
unfolding number_of
strtoul [] = none
strtoul (b ∷ bs) =
    if ltb b 48 then none else (if ltb 57 b then none else some (number_of 0 (b ∷ bs)))

abbrev args : Args
args = record {
  port = codes "5000";
  group_list_file = codes "group";
  log_file = codes "log";
  timeout_value = codes "5";
  aya_time = codes "3";
  probability = codes "many";
}

abbrev surroundings : Surroundings
surroundings = record {
  log_opens = true;
  open_file = λ name. some (group_text members);
  input = [];
  unset = no_port;
  random = λ i. i;
}

main-group_text_example :
    main strtoul (some args) surroundings ≡ plays (running (fresh_node 5000 members 0 3 (λ i. i) 1))
unfolding is_space found_in_group value_of number_of strtoul
main-group_text_example =
    main-group_text strtoul args surroundings members 5000 5 3 1 103 (codes "roup") refl refl refl
      refl refl (omega arith) refl
      (
        ((refl, (refl, (refl, (refl, (refl, tt))))), omega arith, omega arith, omega arith),
        (((refl, (refl, (refl, (refl, tt)))), omega arith, omega arith, omega arith), tt),
      )
      (omega arith) refl

-- A port that is of no member.
stranger_run : main strtoul (some (record args { port = codes "6000" })) surroundings ≡ returns
unfolding main group_text decimal strtoul
stranger_run = refl
