-- ===== src/Bully/Boot.antt =====
-- main of node.c.
use distributed_system.Base.{ℕ, ◌+◌, Bool, Option, none, some, List, ◌==◌, if◌then◌else◌}
use distributed_system.Outcome.{Outcome, undefined}
use distributed_system.Bully.State.{GroupMem, Node}
use distributed_system.Bully.Start.{first_start}
use distributed_system.Bully.Group.{read_group_list_file}

-- What main ends in: it returns -1, it calls exit, or it enters sendUDPMsg.
pub data Ending : Type 0 where
  returns : Ending
  exits : Ending
  plays : Outcome Node → Ending

-- The six arguments.
pub record Args : Type 0 where
  pub port : List ℕ
  pub group_list_file : List ℕ
  pub log_file : List ℕ
  pub timeout_value : List ℕ
  pub aya_time : List ℕ
  pub probability : List ℕ

-- What the program finds: whether the log file opens, the files, the standard input, and what the
-- array of members held.
pub record Surroundings : Type 0 where
  pub log_opens : Bool
  pub open_file : List ℕ → Option (List ℕ)
  pub input : List ℕ
  pub unset : ℕ → ℕ
  pub random : ℕ → ℕ

-- The value of a conversion, and its error.
unfoldable pub value_of : Option ℕ → ℕ
value_of none = 0
value_of (some n) = n

unfoldable pub error_of : Option ℕ → ℕ
error_of none = 1
error_of (some n) = 0

-- `err`: the last conversion is tested with the text of the one before it, so it is never an error.
unfoldable pub count_errors : (List ℕ → Option ℕ) → Args → ℕ
unfolding error_of
count_errors strtoul args =
    error_of (strtoul args.port)
    + error_of (strtoul args.timeout_value)
    + error_of (strtoul args.aya_time)

unfoldable pub join_group : (List ℕ → Option ℕ) → Args → Surroundings → List GroupMem → Ending
unfolding value_of first_start
join_group strtoul args w members =
    elim (first_start (value_of (strtoul args.port)) members (value_of (strtoul args.probability))
      (value_of (strtoul args.aya_time)) w.random) [ none ↦ returns | some o ↦ plays o ]

-- none stands for a number of arguments other than six.
unfoldable pub main : (List ℕ → Option ℕ) → Option Args → Surroundings → Ending
unfolding count_errors read_group_list_file join_group
main strtoul none w = returns
main strtoul (some args) w =
    if count_errors strtoul args == 0
    then (if w.log_opens
        then elim (read_group_list_file w.unset args.group_list_file w.open_file w.input) [
          | none ↦ returns
          | some none ↦ plays undefined
          | some (some members) ↦ join_group strtoul args w members
        ]
        else exits)
    else returns
