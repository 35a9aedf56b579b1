-- ===== src/FgMpi/State.antt =====
-- The state of a node in bully_algorithm_fg_mpi/bully.c: the tags, the arguments and the locals of
-- handleNode, and eventPrinting. An int that is never negative is a natural number.
use distributed_system.Base.{ℕ, Bool, Option, none, some, List, [], ◌∷◌, ◌++◌, ◌==◌, if◌then◌else◌}
use Prim.Native.String.{String}

abbrev pub election_id : ℕ
election_id = 20

abbrev pub aya_id : ℕ
aya_id = 21

abbrev pub iaa_id : ℕ
iaa_id = 22

abbrev pub coord_id : ℕ
coord_id = 23

abbrev pub answer_id : ℕ
answer_id = 24

abbrev pub clock_id : ℕ
clock_id = 25

abbrev pub iam_dead_jim : ℕ
iam_dead_jim = 998

abbrev pub iam_alive : ℕ
iam_alive = 1000

abbrev pub leader_dead : ℕ
leader_dead = 1001

abbrev pub terminate : ℕ
terminate = 999

-- What MPI_Irecv and MPI_Wait give: the source and the tag of the status, and the two ints.
pub record Message : Type 0 where
  pub source : ℕ
  pub tag : ℕ
  pub event : ℕ
  pub time : ℕ

-- A line of output: that of a debug run, with the direction, or that of every run.
pub data Line : Type 0 where
  debug_line : Bool → String → ℕ → ℕ → ℕ → Line
  node_line : ℕ → String → ℕ → Line

-- What the node does: a line printed, a message received, a message that it takes in while it is
-- dead and does not look at, and a send, with its destination, its event and its time, and whether
-- MPI_Test found it complete; if not it is cancelled.
pub data Effect : Type 0 where
  printed : Line → Effect
  received : Message → Effect
  discarded : Message → Effect
  isend : ℕ → ℕ → ℕ → Bool → Effect

-- `random`, `wtime` and `test` are the sequences that random(), MPI_Wtime (in microseconds) and
-- MPI_Test give, with the number of calls so far. `dead` is deadTime while coordDead is set.
pub record Node : Type 0 where
  pub size : ℕ
  pub rank : ℕ
  pub is_debug : Bool
  pub timeout_value : ℕ
  pub aya_time : ℕ
  pub send_failure : ℕ
  pub return_to_life : ℕ
  pub tick : ℕ
  pub aya_tick : ℕ
  pub dlc_time : ℕ
  pub last_sent : ℕ
  pub last_received : ℕ
  pub aya_rate : ℕ
  pub coord_node : ℕ
  pub dead : Option ℕ
  pub random : ℕ → ℕ
  pub drawn : ℕ
  pub wtime : ℕ → ℕ
  pub timed : ℕ
  pub test : ℕ → Bool
  pub tested : ℕ
  pub history : List Effect

-- The words of a debug line, and of a line of every run.
unfoldable pub labels : ℕ → Option (String × String)
labels event =
    if event == election_id
    then some ("Elect", "ELECTION")
    else (if event == answer_id
        then some ("Answer", "PRIV_ANSWER")
        else (if event == coord_id
            then some ("COORD", "LEADER")
            else (if event == aya_id
                then some ("AYA", "PRIV_AYA")
                else (if event == iaa_id
                    then some ("IAA", "PRIV_IAA")
                    else (if event == iam_dead_jim
                        then some ("DEAD", "DEAD")
                        else (if event == iam_alive then some ("IAM_ALIVE", "ALIVE") else none))))))

-- The lines of eventPrinting, in their order.
unfoldable pub event_printing : ℕ → ℕ → ℕ → ℕ → Bool → Bool → List Line
unfolding labels
event_printing dlc event sender receiver debug is_send =
    if event == leader_dead then node_line sender "LEADERDEAD" dlc ∷ [] else elim (labels event) [
      | none ↦ []
      | some (word, name) ↦
          (if debug then debug_line is_send word sender receiver dlc ∷ [] else [])
          ++ (if is_send then node_line sender name dlc ∷ [] else [])
    ]

-- The lines are put out one after the other.
unfoldable pub put_lines : List Line → List Effect → List Effect
put_lines [] h = h
put_lines (l ∷ ls) h = put_lines ls (printed l ∷ h)

unfoldable pub print_event : ℕ → ℕ → ℕ → Bool → Node → Node
unfolding event_printing put_lines
print_event event sender receiver is_send s = record s {
  history =
      put_lines (event_printing s.dlc_time event sender receiver s.is_debug is_send) s.history;
}
