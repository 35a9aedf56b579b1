-- ===== src/FgMpi/Handle.antt =====
-- The loop of handleNode in bully_algorithm_fg_mpi/bully.c: the clock tick, the messages, the dead
-- coordinator, the timeout and the end.
use distributed_system.Base.{
  ℕ, suc, ◌+◌, ◌-◌, ◌*◌, ◌%◌, ◌^◌, Bool, true, false, not, ◌&&◌, ◌||◌, none, some, List, [], ◌∷◌,
  ltb, ◌==◌, if◌then◌else◌,
}
use distributed_system.Outcome.{◌>>=◌, Outcome, exited, running, undefined}
use distributed_system.FgMpi.State.{
  Message, Node, answer_id, aya_id, clock_id, coord_id, election_id, iaa_id, iam_alive,
  iam_dead_jim, leader_dead, print_event, received, discarded, terminate,
}
use distributed_system.FgMpi.Send.{
  advance, declare, for_above, post, resend_election, send_election, send_event,
}

-- The last of the ten draws gives the rate.
unfoldable pub draw_rate : Node → Outcome Node
draw_rate s =
    if s.aya_time == 0
    then undefined
    else running
        (record s { aya_rate = s.random (s.drawn + 9) % (2 * s.aya_time); drawn = s.drawn + 10 })

-- The test in front of the AYA.
unfoldable pub aya_due : Node → Bool
aya_due s = ((s.aya_rate == 0) || (s.aya_tick % s.aya_rate == 0)) && not (s.coord_node == 0)

-- A tick of the clock node.
unfoldable pub on_clock : Node → Outcome Node
unfolding aya_due draw_rate send_event
on_clock s =
    if ltb (s.tick + 1) (2 ^ 31) && ltb (s.aya_tick + 1) (2 ^ 31)
    then (let s1 = record s { tick = s.tick + 1; aya_tick = s.aya_tick + 1 } in
        if aya_due s1
        then (draw_rate s1 >>= λ t.
            send_event aya_id t.coord_node (record t { last_sent = aya_id }))
        else running s1)
    else undefined

-- case ELECTION_ID
unfoldable pub on_election : ℕ → Node → Outcome Node
unfolding send_event for_above send_election declare
on_election source s = send_event answer_id source s >>= λ t.
    let u = record t { last_received = election_id } in
    if u.last_sent == election_id
    then running u
    else for_above send_election (record u { last_sent = 0 }) >>= λ v.
        if v.last_sent == 0 then declare v else running v

-- case ANSWER_ID
unfoldable pub on_answer : Node → Node
on_answer s =
    if s.last_received == coord_id
    then record s { last_sent = 0 }
    else (if s.last_sent == election_id
        then record s { last_received = answer_id; last_sent = 0 }
        else s)

-- One turn of `while (coordDead)` up to the next MPI_Wait: the node comes back to life, or stays dead.
unfoldable pub dead_turn : ℕ → ℕ → Node → Node
unfolding print_event
dead_turn since source s =
    let s1 = record s { timed = suc s.timed } in
    if ltb (since + s.return_to_life * 1000000) (s.wtime s.timed)
    then record (print_event iam_alive s1.rank source true s1) {
      dead = none;
      last_sent = 0;
      last_received = 0;
    }
    else record s1 { dead = some since }

-- case AYA_ID: the coordinator answers, or declares itself dead.
unfoldable pub on_aya : ℕ → Node → Outcome Node
unfolding advance print_event post dead_turn
on_aya source s = advance (record s { last_received = aya_id; last_sent = iaa_id }) >>= λ t.
    let rn = t.random t.drawn % 100 in
    let now = t.wtime t.timed in
    let u = record t { drawn = suc t.drawn; timed = suc t.timed } in
    if ltb rn t.send_failure
    then running (dead_turn now source (print_event iam_dead_jim u.rank source true u))
    else running (post iaa_id source (print_event iaa_id u.rank source true u))

-- The time becomes the greater of the received and the own one.
unfoldable pub receive : Message → Node → Node
unfolding print_event
receive m s = print_event m.tag m.source s.rank false (record s {
  tick = 0;
  dlc_time = if ltb s.dlc_time m.time then m.time else s.dlc_time;
  history = received m ∷ s.history;
})

-- The switch over the tag of a message that is not a clock tick.
unfoldable pub on_message : Message → Node → Outcome Node
unfolding on_election on_answer on_aya
on_message m s =
    if m.tag == election_id
    then on_election m.source s
    else (if m.tag == answer_id
        then running (on_answer s)
        else (if m.tag == coord_id
            then running (record s { last_received = coord_id; coord_node = m.source })
            else (if m.tag == aya_id
                then on_aya m.source s
                else (if m.tag == iaa_id
                    then running (record s { last_received = iaa_id })
                    else running s))))

-- The two assignments behind the loops of a timeout.
unfoldable pub start_over : Node → Outcome Node
start_over s = running (record s { tick = 0; coord_node = 0 })

-- `lastReceived == 0 || (lastReceived == ANSWER_ID && (tick % (size-1)*timeoutValue == 0))`; the
-- remainder is taken before the product.
unfoldable pub gives_up : Node → Bool
gives_up s =
    (s.last_received == 0)
    || ((s.last_received == answer_id) && ((s.tick % (s.size - 1)) * s.timeout_value == 0))

-- case 0 of a timeout.
unfoldable pub on_silence : Node → Outcome Node
unfolding gives_up for_above resend_election declare start_over
on_silence s =
    (if gives_up s then for_above resend_election s >>= start_over else running s) >>= λ t.
    if t.last_received == election_id then declare t >>= start_over else running t

-- case AYA_ID of a timeout.
unfoldable pub lose_leader : Node → Outcome Node
unfolding print_event for_above send_election start_over
lose_leader s = for_above send_election (print_event leader_dead s.rank 0 true s) >>= start_over

unfoldable pub on_timeout : Node → Outcome Node
unfolding on_silence declare lose_leader start_over
on_timeout s =
    if s.last_sent == 0
    then on_silence s
    else (if s.last_sent == election_id
        then declare s >>= start_over
        else (if s.last_sent == aya_id then lose_leader s else running s))

-- `(tick % timeoutValue) == 0 && tick != 0`, where a timeout of 0 is a division by 0.
unfoldable pub check_timeout : Node → Outcome Node
unfolding on_timeout
check_timeout s =
    if s.timeout_value == 0
    then undefined
    else (if (s.tick % s.timeout_value == 0) && not (s.tick == 0) then on_timeout s else running s)

-- The end of a round, which a dead node does not reach.
unfoldable pub finish : ℕ → Node → Outcome Node
unfolding check_timeout
finish event s = elim s.dead [
  | some since ↦ running s
  | none ↦ check_timeout s >>= λ t. if event == terminate then exited t else running t
]

-- What a dead node waits for is taken in, but neither its tag nor its time is read.
unfoldable pub discard : Message → Node → Node
discard m s = record s { history = discarded m ∷ s.history }

-- A round of the loop, or a turn of the loop of a dead node, for a message that has arrived.
unfoldable pub round : Node → Message → Outcome Node
unfolding dead_turn discard on_clock receive on_message finish
round s m = elim s.dead [
  | some since ↦ finish m.event (dead_turn since m.source (discard m s))
  | none ↦ (if m.tag == clock_id then on_clock s else on_message m (receive m s)) >>= λ t.
      finish m.event t
]

unfoldable pub run : Node → List Message → Outcome Node
unfolding round
run s [] = running s
run s (m ∷ ms) = round s m >>= λ t. run t ms
