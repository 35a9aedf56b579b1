-- ===== src/Trace/Events.antt =====
-- The lines of events in the ShiViz logs: writeLocalEventToLog and writeEventToLog of tmanager.c and
-- tworker.c in transaction_management, writeEventToLog of bully_algorithm/node.c, and writeStartToLog
-- and writeToFile, which node.c and helper.c both have.
use distributed_system.Base.{
  ℕ, ◌-◌, ◌%◌, ◌^◌, Bool, ◌||◌, Option, none, some, List, [], ◌∷◌, ◌++◌, ltb, ◌==◌, if◌then◌else◌,
}
use Prim.Native.Char.{code}
use Prim.Native.String.{String}
use distributed_system.Clock.{Clock}
use distributed_system.Bully.State.{elect, answer, coord, aya, iaa}
use distributed_system.Trace.Write.{node_vector_time, decimal, put_text, write_vector_time}
use distributed_system.Outcome.{Outcome, running, exited}
use distributed_system.Msg.{
  begintx, jointx, join_fail, join_success, begin_fail, begin_success, prepare_commit, commit,
  vote_commit, decide_commit, decide_abort, vote_abort, poll_decision, commit_crash, new_a, new_b,
  new_idstr, abort, abort_crash, crash, restarted,
}

-- The bytes of a text.
abbrev pub codes : String → List ℕ
codes String.[] = []
codes (String.◌∷◌ c s) = code c ∷ codes s

-- The words in front of the tid, of a message sent and of one received; none if the switch of
-- writeEventToLog in tmanager.c leaves logBuf without a value.
unfoldable pub manager_words : ℕ → Option (String × String)
manager_words kind =
    if kind == begintx
    then some ("Send BEGIN Transaction ", "Receive BEGIN Transaction ")
    else (if kind == jointx
        then some ("Send JOIN Transaction ", "Receive JOIN Transaction ")
        else (if kind == join_fail
            then some ("SEND JOIN_FAIL Transaction ", "Receive JOIN_FAIL Transaction ")
            else (if kind == join_success
                then some ("SEND JOIN_SUCCESS Transaction ", "Receive JOIN_SUCCESS Transaction ")
                else (if kind == begin_fail
                    then some ("SEND BEGIN_FAIL Transaction ", "Receive BEGIN_FAIL Transaction ")
                    else (if kind == begin_success
                        then some (
                          "SEND BEGIN_SUCCESS Transaction ", "Receive BEGIN_SUCCESS Transaction ",
                        )
                        else (if (kind == prepare_commit) || (kind == commit)
                            then some
                                ("SEND PREPARE_COMMIT Transaction ", "Receive COMMIT Transaction ")
                            else (if (kind == vote_commit) || (kind == decide_commit)
                                then some (
                                  "SEND DECIDE_COMMIT Transaction ",
                                  "Receive VOTE_COMMIT Transaction ",
                                )
                                else (if (kind == decide_abort) || (kind == vote_abort)
                                    then some (
                                      "SEND DECIDE_ABORT Transaction ",
                                      "Receive VOTE_ABORT Transaction ",
                                    )
                                    else (if kind == poll_decision
                                        then some (
                                          "SEND POLL_DECISION Transaction ",
                                          "Receive POLL_DECISION Transaction ",
                                        )
                                        else none)))))))))

-- The same for tworker.c.
unfoldable pub worker_words : ℕ → Option (String × String)
worker_words kind =
    if (kind == begin_success) || (kind == begintx)
    then some ("Send BEGIN Transaction ", "Receive BEGIN_SUCCESS ")
    else (if (kind == join_success) || (kind == jointx)
        then some ("Send JOIN Transaction ", "Receive JOIN_SUCCESS ")
        else (if kind == join_fail
            then some ("SEND JOIN_FAIL Transaction ", "Receive JOIN_FAIL Transaction ")
            else (if kind == begin_fail
                then some ("SEND BEGIN_FAIL Transaction ", "Receive BEGIN_FAIL Transaction ")
                else (if (kind == prepare_commit) || (kind == commit)
                    then some ("SEND COMMIT Transaction ", "Receive PREPARE_COMMIT Transaction ")
                    else (if kind == commit_crash
                        then some (
                          "SEND COMMIT_CRASH Transaction ", "Receive PREPARE_COMMIT Transaction ",
                        )
                        else (if (kind == decide_commit) || (kind == vote_commit)
                            then some (
                              "SEND VOTE_COMMIT Transaction ", "Receive DECIDE_COMMIT Transaction ",
                            )
                            else (if (kind == decide_abort) || (kind == vote_abort)
                                then some (
                                  "SEND VOTE_ABORT Transaction ",
                                  "Receive DECIDE_ABORT Transaction ",
                                )
                                else (if kind == poll_decision
                                    then some (
                                      "SEND POLL_DECISION Transaction ",
                                      "Receive POLL_DECISION Transaction ",
                                    )
                                    else none))))))))

-- What sprintf puts into logBuf.
unfoldable pub event_line : String × String → ℕ → Bool → List ℕ
unfolding decimal
event_line words tid is_send =
    if is_send
    then codes words.0 ++ (decimal tid ++ codes " to ")
    else codes words.1 ++ (decimal tid ++ codes " from ")

abbrev pub log_size : ℕ
log_size = 500

abbrev pub port_size : ℕ
port_size = 10

-- portBuf, the line end and the vector time behind the line.
unfoldable pub end_event : List ℕ → ℕ → ℕ → List Clock → Option (List ℕ)
unfolding put_text decimal write_vector_time
end_event line peer port vc = elim (put_text port_size (78 ∷ decimal peer)) [
  | none ↦ none
  | some name ↦ elim (write_vector_time 10 port vc) [
    | none ↦ none
    | some time ↦ put_text log_size (line ++ (name ++ 10 ∷ time))
  ]
]

unfoldable pub write_event :
    Option (String × String) → ℕ → Bool → ℕ → ℕ → List Clock → Option (List ℕ)
unfolding event_line end_event
write_event none tid is_send peer port vc = none
write_event (some words) tid is_send peer port vc =
    end_event (event_line words tid is_send) peer port vc

-- writeEventToLog of both programs, with the text that goes to the file.
unfoldable pub manager_event : ℕ → ℕ → Bool → ℕ → ℕ → List Clock → Option (List ℕ)
unfolding manager_words write_event
manager_event kind = write_event (manager_words kind)

unfoldable pub worker_event : ℕ → ℕ → Bool → ℕ → ℕ → List Clock → Option (List ℕ)
unfolding worker_words write_event
worker_event kind = write_event (worker_words kind)

-- `%d` of an int32_t.
unfoldable pub signed_decimal : ℕ → List ℕ
unfolding decimal
signed_decimal n = if ltb n (2 ^ 31) then decimal n else 45 ∷ decimal (2 ^ 32 - n)

-- The lines of local events: tmanager.c, and tworker.c with the number and the text of the command.
unfoldable pub manager_local : ℕ → Option (List ℕ)
manager_local kind =
    if kind == crash
    then some (codes "Locally CRASH")
    else (if kind == restarted then some (codes "Manager RESTARTED") else none)

unfoldable pub worker_local : ℕ → ℕ → List ℕ → Option (List ℕ)
unfolding signed_decimal
worker_local kind value text =
    if kind == new_a
    then some (codes "Update A value to " ++ signed_decimal value)
    else (if kind == new_b
        then some (codes "Update B value to " ++ signed_decimal value)
        else (if kind == new_idstr
            then some (codes "Update ID String to " ++ (text ++ codes " "))
            else (if kind == abort
                then some (codes "Locally ABORT")
                else (if kind == abort_crash
                    then some (codes "Locally ABORT_CRASH")
                    else (if kind == crash
                        then some (codes "Locally CRASH")
                        else (if kind == restarted
                            then some (codes "Worker RESTARTED")
                            else none))))))

-- writeLocalEventToLog, behind its switch.
unfoldable pub write_local_event : Option (List ℕ) → ℕ → List Clock → Option (List ℕ)
unfolding put_text write_vector_time
write_local_event none port vc = none
write_local_event (some line) port vc = elim (write_vector_time 10 port vc) [
  | none ↦ none
  | some time ↦ put_text log_size (line ++ 10 ∷ time)
]

-- writeStartToLog; its buffer has 100 bytes.
unfoldable pub write_start : ℕ → ℕ → Option (List ℕ)
unfolding put_text signed_decimal
write_start port clock = put_text 100 (
    codes "Starting N"
    ++ (signed_decimal (port % 2 ^ 32)
        ++ 10
          ∷ 78
          ∷ (signed_decimal (port % 2 ^ 32)
              ++ codes " {\"N"
              ++ (signed_decimal (port % 2 ^ 32)
                  ++ codes "\" : "
                  ++ (signed_decimal (clock % 2 ^ 32) ++ 125 ∷ 10 ∷ [])))))

-- writeToFile: a file that cannot be opened, or not be written, ends the program.
unfoldable pub write_to_file : Bool → Bool → List ℕ → List ℕ → Outcome (List ℕ)
write_to_file opens puts buf file =
    if opens then (if puts then running (file ++ buf) else exited file) else exited file

-- The line of node.c; only that of an ELECT has a number.
unfoldable pub node_line : ℕ → ℕ → Bool → Option (List ℕ)
unfolding decimal
node_line kind election_id is_send =
    if kind == elect
    then some (
        if is_send
        then codes "Send ELECTION " ++ (decimal election_id ++ codes " to ")
        else codes "Receive ELECTION " ++ (decimal election_id ++ codes " from "))
    else (if kind == answer
        then some (codes (if is_send then "Send ANSWER to " else "Receive ANSWER from "))
        else (if kind == coord
            then some (codes (if is_send then "Send COORD to " else "Receive COORD from "))
            else (if kind == aya
                then some (codes (if is_send then "Send AYA to " else "Receive AYA from "))
                else (if kind == iaa
                    then some (codes (if is_send then "Send IAA to " else "Receive IAA from "))
                    else none))))

-- writeEventToLog of node.c.
unfoldable pub node_event : ℕ → ℕ → Bool → ℕ → ℕ → List Clock → Option (List ℕ)
unfolding node_line put_text decimal node_vector_time
node_event kind election_id is_send peer port vc = elim (node_line kind election_id is_send) [
  | none ↦ none
  | some line ↦ elim (put_text port_size (78 ∷ decimal peer)) [
    | none ↦ none
    | some name ↦ elim (node_vector_time port vc) [
      | none ↦ none
      | some time ↦ put_text log_size (line ++ (name ++ 10 ∷ time))
    ]
  ]
]
