-- ===== src/Bully/Handle.antt =====
-- The message handler, the timeouts, the AYA thread and the main loop of bully_algorithm/node.c. The
-- handlers and the rounds of the AYA thread follow each other; none interrupts another.
use distributed_system.Base.{
  ℕ, ◌+◌, ◌*◌, ◌%◌, ◌^◌, Bool, true, false, Option, none, some, List, [], ◌∷◌, ◌==◌, if◌then◌else◌,
}
use distributed_system.Outcome.{◌>>=◌, Outcome, exited, running, undefined}
use distributed_system.Msg.{Addr}
use distributed_system.Bully.State.{
  Message, Node, answer, aya, coord, elect, iaa, merge_clock, send_event, update_clock,
  write_event_to_log,
}
use distributed_system.Bully.Elect.{
  call_election, call_first_election, declare_coordinator, pass_election,
}
use distributed_system.Bully.Wire.{deserialize_msg}

-- case ELECT: the answer, and unless an election of the own is open, the election is passed on, or
-- the node is the coordinator if it has no one to pass it on to.
unfoldable pub on_elect : (List ℕ → Option ℕ) → Message → Addr → Node → Outcome Node
unfolding send_event pass_election declare_coordinator
on_elect lookup m from s =
    let s1 = record (send_event answer m.election_id from s) { last_received = elect } in
    if s1.last_sent == elect
    then running s1
    else pass_election lookup m.election_id s1.members (record s1 { last_sent = 0 }) >>= λ t.
        if t.last_sent == 0 then declare_coordinator lookup t.members t else running t

-- case ANSWER
unfoldable pub on_answer : Node → Node
on_answer s = if s.last_sent == elect then record s { last_received = answer; last_sent = 0 } else s

-- case COORD: the AYA thread is started if there is none; `created` is the success of
-- pthread_create.
unfoldable pub on_coord : Bool → Addr → Node → Outcome Node
on_coord created from s =
    let s1 = record s { last_received = coord } in
    elim s.thread [
      | some to ↦ running s1
      | none ↦ if created then running (record s1 { thread = some from }) else exited s1
    ]

-- case AYA
unfoldable pub on_aya : Message → Addr → Node → Node
unfolding send_event
on_aya m from s =
    send_event iaa m.election_id from (record s { last_received = aya; last_sent = iaa })

unfoldable pub handle_msg : (List ℕ → Option ℕ) → Bool → Message → Addr → Node → Outcome Node
unfolding on_elect on_answer on_coord on_aya
handle_msg lookup created m from s =
    if m.msg_id == elect
    then on_elect lookup m from s
    else (if m.msg_id == answer
        then running (on_answer s)
        else (if m.msg_id == coord
            then on_coord created from s
            else (if m.msg_id == aya then running (on_aya m from s) else running s)))

-- A message has been received.
unfoldable pub receive : (List ℕ → Option ℕ) → Bool → Message → Addr → Node → Outcome Node
unfolding merge_clock update_clock write_event_to_log handle_msg
receive lookup created m from s = handle_msg lookup created m from (
    write_event_to_log m false from.sin_port
      (update_clock (merge_clock m (record s { handle_first_msg = false }))))

-- case AYA of a timeout: the coordinator is gone. `cancelled` is the success of pthread_cancel, which
-- reads through threadPtr.
unfoldable pub lose_coordinator : (List ℕ → Option ℕ) → Bool → Node → Outcome Node
unfolding call_election
lose_coordinator lookup cancelled s = elim s.thread [
  | none ↦ undefined
  | some to ↦
      if cancelled then call_election lookup s.members (record s { thread = none }) else exited s
]

-- case 0 of a timeout.
unfoldable pub on_silence : (List ℕ → Option ℕ) → Node → Outcome Node
unfolding call_election declare_coordinator
on_silence lookup s =
    (if s.last_received == answer then call_election lookup s.members s else running s) >>= λ t.
    if t.last_received == elect then declare_coordinator lookup t.members t else running t

unfoldable pub on_timeout : (List ℕ → Option ℕ) → Bool → Node → Outcome Node
unfolding declare_coordinator lose_coordinator on_silence
on_timeout lookup cancelled s =
    if s.last_sent == elect
    then declare_coordinator lookup s.members s
    else (if s.last_sent == aya
        then lose_coordinator lookup cancelled s
        else (if s.last_sent == 0 then on_silence lookup s else running s))

-- One round of ThreadMain, with its ten draws, each of which is divided by `2*AYATime`, an unsigned
-- long: where that is 0 the behaviour is undefined. The thread goes on while threadPtr is set.
unfoldable pub thread_main : Node → Outcome Node
unfolding send_event
thread_main s = elim s.thread [
  | none ↦ running s
  | some to ↦
      if (2 * s.aya_time) % 2 ^ 64 == 0
      then undefined
      else running
          (send_event aya (s.port % 2 ^ 32) to (record s { last_sent = aya; drawn = s.drawn + 10 }))
]

-- What happens to the node: nothing for the timeout, an empty packet, a packet in the buffer (with
-- the success of pthread_create), or a round of the AYA thread.
pub data Input : Type 0 where
  timeout : Bool → Input
  no_bytes : Input
  datagram : Bool → List ℕ → Addr → Input
  thread_round : Input

-- A round of the main loop. While handleFirstMsg is set there is no recvfrom, and the size left by
-- the first one is 0.
unfoldable pub round : (List ℕ → Option ℕ) → Node → Input → Outcome Node
unfolding on_timeout deserialize_msg receive thread_main
round lookup s (timeout cancelled) =
    if s.handle_first_msg then running s else on_timeout lookup cancelled s
round lookup s no_bytes = running s
round lookup s (datagram created buffer from) =
    if s.handle_first_msg then running s else elim (deserialize_msg buffer) [
      | none ↦ undefined
      | some (m, rest) ↦ receive lookup created m from s
    ]
round lookup s thread_round = thread_main s

-- The first recvfrom of sendUDPMsg, and the handling of its packet.
unfoldable pub first_round : (List ℕ → Option ℕ) → Node → Input → Outcome Node
unfolding call_first_election deserialize_msg receive
first_round lookup s (timeout cancelled) = call_first_election lookup s.members s
first_round lookup s no_bytes =
    running (record s { last_received = 0; last_sent = 0; handle_first_msg = true })
first_round lookup s (datagram created buffer from) = elim (deserialize_msg buffer) [
  | none ↦ undefined
  | some (m, rest) ↦
      receive lookup created m from
        (record s { last_received = 0; last_sent = 0; handle_first_msg = true })
]
first_round lookup s thread_round = running s

unfoldable pub run : (List ℕ → Option ℕ) → Node → List Input → Outcome Node
unfolding round
run lookup s [] = running s
run lookup s (i ∷ is) = round lookup s i >>= λ t. run lookup t is
