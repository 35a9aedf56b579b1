-- ===== src/Trace/Lines.antt =====
-- What writeEventToLog of tmanager.c and of tworker.c writes.
use distributed_system.Base.{
  ℕ, ◌^◌, ◌≤◌, ◌<◌, ◌≡◌, refl, ◌≢◌, Bool, true, false, ◌||◌, Option, none, some, List, [], ◌∷◌,
  ◌++◌, arith, ◌==◌, if◌then◌else◌, length, length-append, All,
}
use Prim.Native.String.{String}
use distributed_system.Clock.{Clock, max_nodes}
use distributed_system.Trace.Events.{
  node_event, node_line, port_size, end_event, write_event, manager_event, worker_event, codes,
  manager_words, worker_words, event_line, log_size,
}
use distributed_system.Trace.Write.{node_vector_time, put_text, decimal}
use distributed_system.Trace.Exact.{
  node_vector_time-none, vector_text, put_text-fits, length-vector_text,
  write_vector_time-separated,
}
use distributed_system.Trace.Entries.{used, IsShort}
use distributed_system.Msg.{
  begintx, jointx, join_fail, join_success, begin_fail, begin_success, prepare_commit, commit,
  vote_commit, decide_commit, decide_abort, vote_abort, poll_decision, commit_crash,
}
use distributed_system.Trace.Decimal.{length-decimal}

-- The line, the peer and the vector time.
unfoldable pub event_text : List ℕ → ℕ → ℕ → List Clock → List ℕ
unfolding decimal vector_text
event_text line peer port vc = line ++ ((78 ∷ decimal peer) ++ 10 ∷ vector_text port vc)

-- That of an event with words.
unfoldable pub event_of : Option (String × String) → ℕ → Bool → ℕ → ℕ → List Clock → Option (List ℕ)
unfolding event_line event_text
event_of none tid is_send peer port vc = none
event_of (some words) tid is_send peer port vc =
    some (event_text (event_line words tid is_send) peer port vc)

-- Words of at most 40 bytes.
HasRoom : String × String → Type 0
HasRoom words = (length (codes words.0) ≤ 40) × (length (codes words.1) ≤ 40)

AllRoom : Option (String × String) → Type 0
AllRoom none = Unit
AllRoom (some words) = HasRoom words

choose-AllRoom :
    (b : Bool) (words : String × String) (rest : Option (String × String))
    → HasRoom words
    → AllRoom rest
    → AllRoom (if b then some words else rest)
unfolding AllRoom
choose-AllRoom true words rest p q = p
choose-AllRoom false words rest p q = q

manager_words-AllRoom : (kind : ℕ) → AllRoom (manager_words kind)
unfolding manager_words AllRoom HasRoom
manager_words-AllRoom kind =
    choose-AllRoom (kind == begintx) _ _ (omega arith, omega arith)
      (choose-AllRoom (kind == jointx) _ _ (omega arith, omega arith)
        (choose-AllRoom (kind == join_fail) _ _ (omega arith, omega arith)
          (choose-AllRoom (kind == join_success) _ _ (omega arith, omega arith)
            (choose-AllRoom (kind == begin_fail) _ _ (omega arith, omega arith)
              (choose-AllRoom (kind == begin_success) _ _ (omega arith, omega arith)
                (choose-AllRoom ((kind == prepare_commit) || (kind == commit)) _ _
                  (omega arith, omega arith)
                  (choose-AllRoom ((kind == vote_commit) || (kind == decide_commit)) _ _
                    (omega arith, omega arith)
                    (choose-AllRoom ((kind == decide_abort) || (kind == vote_abort)) _ _
                      (omega arith, omega arith)
                      (choose-AllRoom (kind == poll_decision) _ _ (omega arith, omega arith)
                        tt)))))))))

worker_words-AllRoom : (kind : ℕ) → AllRoom (worker_words kind)
unfolding worker_words AllRoom HasRoom
worker_words-AllRoom kind =
    choose-AllRoom ((kind == begin_success) || (kind == begintx)) _ _ (omega arith, omega arith)
      (choose-AllRoom ((kind == join_success) || (kind == jointx)) _ _ (omega arith, omega arith)
        (choose-AllRoom (kind == join_fail) _ _ (omega arith, omega arith)
          (choose-AllRoom (kind == begin_fail) _ _ (omega arith, omega arith)
            (choose-AllRoom ((kind == prepare_commit) || (kind == commit)) _ _
              (omega arith, omega arith)
              (choose-AllRoom (kind == commit_crash) _ _ (omega arith, omega arith)
                (choose-AllRoom ((kind == decide_commit) || (kind == vote_commit)) _ _
                  (omega arith, omega arith)
                  (choose-AllRoom ((kind == decide_abort) || (kind == vote_abort)) _ _
                    (omega arith, omega arith)
                    (choose-AllRoom (kind == poll_decision) _ _ (omega arith, omega arith)
                      tt))))))))

length-event_line :
    (words : String × String) (tid : ℕ) (is_send : Bool)
    → HasRoom words
    → tid < 2 ^ 32
    → length (event_line words tid is_send) ≤ 56
unfolding event_line HasRoom
length-event_line words tid true room small = omega (
  arith,
  room.0,
  length-decimal tid 9 (omega (arith, small)),
  length-append (codes words.0) (decimal tid ++ codes " to "),
  length-append (decimal tid) (codes " to "),
)
length-event_line words tid false room small = omega (
  arith,
  room.1,
  length-decimal tid 9 (omega (arith, small)),
  length-append (codes words.1) (decimal tid ++ codes " from "),
  length-append (decimal tid) (codes " from "),
)

length-event_text :
    (line : List ℕ) (peer port : ℕ) (vc : List Clock)
    → length line ≤ 56
    → peer < 10 ^ 8
    → length (vector_text port vc) ≤ 211
    → length (event_text line peer port vc) < 500
unfolding event_text
length-event_text line peer port vc short small room = omega (
  arith,
  short,
  room,
  length-decimal peer 7 small,
  length-append line ((78 ∷ decimal peer) ++ 10 ∷ vector_text port vc),
  length-append (78 ∷ decimal peer) (10 ∷ vector_text port vc),
)

end_event-text :
    (line : List ℕ) (peer port : ℕ) (vc : List Clock)
    → length line ≤ 56
    → peer < 10 ^ 8
    → port < 10 ^ 6
    → All IsShort vc
    → length vc ≤ max_nodes
    → used vc ≢ []
    → end_event line peer port vc ≡ some (event_text line peer port vc)
unfolding end_event event_text vector_text
end_event-text line peer port vc short far near times slots some_time =
    rw
      (
        end_event,
        put_text-fits port_size (78 ∷ decimal peer) (omega (arith, length-decimal peer 7 far)),
        write_vector_time-separated port vc near times slots some_time,
      )
      (put_text-fits log_size (event_text line peer port vc) (
        length-event_text line peer port vc short far
          (length-vector_text port vc near times slots)))

write_event-text :
    (words : Option (String × String)) (tid : ℕ) (is_send : Bool) (peer port : ℕ) (vc : List Clock)
    → AllRoom words
    → tid < 2 ^ 32
    → peer < 10 ^ 8
    → port < 10 ^ 6
    → All IsShort vc
    → length vc ≤ max_nodes
    → used vc ≢ []
    → write_event words tid is_send peer port vc ≡ event_of words tid is_send peer port vc
unfolding write_event event_of AllRoom
write_event-text none tid is_send peer port vc room small far near times slots some_time = refl
write_event-text (some words) tid is_send peer port vc room small far near times slots some_time =
    end_event-text (event_line words tid is_send) peer port vc
      (length-event_line words tid is_send room small) far near times slots some_time

-- writeEventToLog of tmanager.c and of tworker.c write the words of the switch, the tid, the peer and
-- the vector time, in their order, overflow no buffer, and write nothing defined exactly for the kinds
-- without words, if the tid has 32 bits, the peer has at most eight digits, the own port at most six,
-- each node id at most five and each time at most seven, and some slot of at most ten has a time.
pub events-text :
    (kind tid : ℕ) (is_send : Bool) (peer port : ℕ) (vc : List Clock)
    → tid < 2 ^ 32
    → peer < 10 ^ 8
    → port < 10 ^ 6
    → All IsShort vc
    → length vc ≤ max_nodes
    → used vc ≢ []
    → (manager_event kind tid is_send peer port vc
        ≡ event_of (manager_words kind) tid is_send peer port vc)
      × (worker_event kind tid is_send peer port vc
          ≡ event_of (worker_words kind) tid is_send peer port vc)
unfolding manager_event worker_event
events-text kind tid is_send peer port vc small far near times slots some_time = (
  write_event-text (manager_words kind) tid is_send peer port vc (manager_words-AllRoom kind) small
      far near times slots some_time,
  write_event-text (worker_words kind) tid is_send peer port vc (worker_words-AllRoom kind) small
      far near times slots some_time,
)

-- writeEventToLog of node.c overflows a buffer at every message that it logs, or writes nothing
-- defined, if the own port has at least three digits.
pub node_event-none :
    (kind election_id : ℕ) (is_send : Bool) (peer port : ℕ) (vc : List Clock)
    → 100 ≤ port
    → node_event kind election_id is_send peer port vc ≡ none
unfolding node_event
node_event-none kind election_id is_send peer port vc h =
    none_after (node_line kind election_id is_send) (put_text port_size (78 ∷ decimal peer))
      (node_vector_time-none port vc h)
  where
    none_after :
        (line name : Option (List ℕ))
        → node_vector_time port vc ≡ none
        → (elim line as (λ x. Option (List ℕ)) [
          | none ↦ none
          | some line ↦ elim name as (λ x. Option (List ℕ)) [
            | none ↦ none
            | some name ↦ elim (node_vector_time port vc) as (λ x. Option (List ℕ)) [
              | none ↦ none
              | some time ↦ put_text log_size (line ++ (name ++ 10 ∷ time))
            ]
          ]
        ])
          ≡ none
    none_after none name e = refl
    none_after (some line) none e = refl
    none_after (some line) (some name) e = rw e refl
