-- ===== src/Trace/Tests.antt =====
-- Texts of vector times, and instances of the theorems.
use distributed_system.Base.{◌≡◌, refl, true, none, some, List, [], ◌∷◌, ◌++◌, arith}
use distributed_system.Clock.{Clock, empty}
use distributed_system.Trace.Write.{write_vector_time, node_id_text}
use distributed_system.Msg.{jointx}
use distributed_system.Bully.State.{coord}
use distributed_system.Trace.Events.{
  write_start, codes, node_event, manager_event, worker_event, manager_words, worker_words,
}
use distributed_system.Trace.Lines.{node_event-none, events-text, event_of}
use distributed_system.Trace.Exact.{write_vector_time-separated}
use distributed_system.Trace.Entries.{separated, used}

abbrev times : List Clock
times = record { node_id = 5000; time = 12 } ∷ empty ∷ record { node_id = 9000; time = 3 } ∷ []

-- "N9 {"N1" : 2}" and a line end.
text_run :
    write_vector_time 10 9 (record { node_id = 1; time = 2 } ∷ empty ∷ [])
    ≡ some (78 ∷ 57 ∷ 32 ∷ 123 ∷ 34 ∷ 78 ∷ 49 ∷ 34 ∷ 32 ∷ 58 ∷ 32 ∷ 50 ∷ 125 ∷ 10 ∷ [])
unfolding write_vector_time
text_run = refl

write_vector_time-separated_example :
    write_vector_time 10 9000 times
    ≡ some (node_id_text 9000 ++ separated (used times) ++ 125 ∷ 10 ∷ [])
unfolding used
write_vector_time-separated_example =
    write_vector_time-separated 9000 times (omega arith)
      ((omega arith, omega arith), ((omega arith, omega arith), ((omega arith, omega arith), tt)))
      (omega arith) (λ e. absurd (ground (arith, e)))

node_event-none_example : node_event coord 0 true 9000 5000 times ≡ none
node_event-none_example = node_event-none coord 0 true 9000 5000 times (omega arith)

-- A JOIN to port 9000.
events-text_example :
    (manager_event jointx 12 true 9000 5000 times
      ≡ event_of (manager_words jointx) 12 true 9000 5000 times)
    × (worker_event jointx 12 true 9000 5000 times
        ≡ event_of (worker_words jointx) 12 true 9000 5000 times)
unfolding used
events-text_example =
    events-text jointx 12 true 9000 5000 times (omega arith) (omega arith) (omega arith)
      ((omega arith, omega arith), ((omega arith, omega arith), ((omega arith, omega arith), tt)))
      (omega arith) (λ e. absurd (ground (arith, e)))

-- "Send JOIN Transaction 12 to N9", and the vector time in a line of its own.
event_run :
    worker_event jointx 12 true 9 4 (record { node_id = 4; time = 2 } ∷ [])
    ≡ some (codes "Send JOIN Transaction 12 to N9" ++ 10 ∷ codes "N4 {\"N4\" : 2}" ++ 10 ∷ [])
unfolding worker_event worker_words write_vector_time
event_run = refl

start_run : write_start 4 1 ≡ some (codes "Starting N4" ++ 10 ∷ codes "N4 {\"N4\" : 1}" ++ 10 ∷ [])
unfolding write_start
start_run = refl
