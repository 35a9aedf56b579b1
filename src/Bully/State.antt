-- ===== src/Bully/State.antt =====
-- The state of an election node: bully_algorithm/msg.h, the globals of node.c and its sendMsg,
-- mergeVectorClock, updateMyVectorClock, constructMsg and writeEventToLog.
use distributed_system.Base.{
  ℕ, suc, ◌%◌, Bool, true, Option, List, [], ◌∷◌, ltb, ◌==◌, if◌then◌else◌,
}
use distributed_system.Msg.{Addr}
use distributed_system.Clock.{Clock, tick}

-- The message kinds; 0 stands in lastSent and lastReceived for no message.
abbrev pub elect : ℕ
elect = 10

abbrev pub answer : ℕ
answer = 11

abbrev pub coord : ℕ
coord = 12

abbrev pub aya : ℕ
aya = 20

abbrev pub iaa : ℕ
iaa = 21

abbrev pub max_nodes : ℕ
max_nodes = 9

-- `struct msg`
pub record Message : Type 0 where
  pub msg_id : ℕ
  pub election_id : ℕ
  pub vector_clock : List Clock

-- A member of the group: its host name, as bytes, and its port, an unsigned long.
pub record GroupMem : Type 0 where
  pub hostname : List ℕ
  pub portno : ℕ

-- What leaves the process: a packet handed to sendto, or a line of the log with the clock written.
pub data Effect : Type 0 where
  sent : Addr → Message → Effect
  logged : Message → Bool → ℕ → List Clock → Effect

-- `random` is the sequence that random() gives, `drawn` how many of it are used. `thread` is the
-- address that the AYA thread sends to, none where threadPtr is NULL.
pub record Node : Type 0 where
  pub port : ℕ
  pub members : List GroupMem
  pub my_vector_clock : List Clock
  pub counter : ℕ
  pub last_sent : ℕ
  pub last_received : ℕ
  pub thread : Option Addr
  pub handle_first_msg : Bool
  pub aya_time : ℕ
  pub send_failure_probability : ℕ
  pub random : ℕ → ℕ
  pub drawn : ℕ
  pub history : List Effect

-- Every slot of the own port is incremented.
unfoldable pub increment : ℕ → List Clock → List Clock
unfolding tick
increment port [] = []
increment port (c ∷ vc) = (if c.node_id == port then tick c else c) ∷ increment port vc

unfoldable pub update_clock : Node → Node
unfolding increment
update_clock s = record s { my_vector_clock = increment s.port s.my_vector_clock }

-- mergeVectorClock compares slot by slot: the entry with the greater time is taken as it is.
unfoldable pub merge_slots : List Clock → List Clock → List Clock
merge_slots [] vc = vc
merge_slots (e ∷ es) [] = []
merge_slots (e ∷ es) (c ∷ vc) = (if ltb c.time e.time then e else c) ∷ merge_slots es vc

unfoldable pub merge_clock : Message → Node → Node
unfolding merge_slots
merge_clock m s = record s { my_vector_clock = merge_slots m.vector_clock s.my_vector_clock }

unfoldable pub construct_msg : ℕ → ℕ → Node → Message
construct_msg kind election_id s = record {
  msg_id = kind;
  election_id = election_id;
  vector_clock = s.my_vector_clock;
}

-- The packet is handed to sendto unless the random number is below the failure probability. A
-- failure of sendto is printed and changes nothing.
unfoldable pub send_msg : Message → Addr → Node → Node
send_msg m to s = record s {
  drawn = suc s.drawn;
  history =
      if ltb (s.random s.drawn % 100) s.send_failure_probability
      then s.history
      else sent to m ∷ s.history;
}

unfoldable pub write_event_to_log : Message → Bool → ℕ → Node → Node
write_event_to_log m is_send peer s = record s {
  history = logged m is_send peer s.my_vector_clock ∷ s.history;
}

-- The four calls that every send consists of.
unfoldable pub send_event : ℕ → ℕ → Addr → Node → Node
unfolding update_clock construct_msg send_msg write_event_to_log
send_event kind election_id to s =
    let s1 = update_clock s in
    let m = construct_msg kind election_id s1 in
    write_event_to_log m true to.sin_port (send_msg m to s1)
