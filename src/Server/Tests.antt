-- ===== src/Server/Tests.antt =====
-- Runs of client_server/mtserver.c on concrete clients and servers.
use distributed_system.Base.{
  ℕ, ◌+◌, ◌%◌, ◌^◌, ◌≤◌, ◌<◌, ◌≡◌, refl, true, Option, none, some, List, [], ◌∷◌, ◌++◌, arith,
  length,
}
use distributed_system.Server.Client.{
  Client, invalid, rcv_buf_size, send_word, space, strncmp_eq, sum_digits,
}
use distributed_system.Outcome.{Outcome, exited, running, undefined}
use distributed_system.Server.Threads.{
  Reach, accept_connection, accepting, end_thread, ending, first_start, here, onward,
}
use distributed_system.Server.Bound.{Reach-bound}
use distributed_system.Server.Total.{Returns, handle_tcp_client_total}
use distributed_system.Server.Commands.{after_answer, with_bytes}
use distributed_system.Server.Parse.{
  answered, bytes, check_invalid, handle_tcp_client, misplaced, on_load, on_number, on_other, scan,
}
use distributed_system.Server.Numbers.{digit_sum, scan-number}

abbrev client : Client
client = record {
  my_buffer = [];
  my_char = 1;
  num_invalid = 0;
  accepts = λ n. true;
  sends = 0;
  uptimes = λ n. 3600;
  reports = 0;
  loads = λ n. 2;
  readings = 0;
  responses = [];
}

abbrev answers : Option (Outcome Client) → List ℕ
answers none = []
answers (some (running t)) = t.responses
answers (some (exited t)) = t.responses
answers (some undefined) = []

-- "loa" and "d12 " in two packets: the load, and the sum of the digits.
packets_run :
    answers (
      handle_tcp_client client (bytes (108 ∷ 111 ∷ 97 ∷ []) ∷ bytes (100 ∷ 49 ∷ 50 ∷ 32 ∷ []) ∷ []))
    ≡ 3 ∷ 2 ∷ []
unfolding handle_tcp_client on_load on_number strncmp_eq send_word answered misplaced sum_digits
packets_run = refl

-- "xyz": three invalid commands end the connection.
invalid_run :
    answers (handle_tcp_client client (bytes (120 ∷ 121 ∷ 122 ∷ 108 ∷ []) ∷ []))
    ≡ invalid ∷ invalid ∷ invalid ∷ []
unfolding handle_tcp_client on_other strncmp_eq send_word check_invalid
invalid_run = refl

handle_tcp_client_total_example :
    Returns
      (handle_tcp_client client (bytes (108 ∷ 111 ∷ 97 ∷ 100 ∷ []) ∷ bytes [] ∷ []))
      (λ t. length t.my_buffer < rcv_buf_size)
handle_tcp_client_total_example =
    handle_tcp_client_total client (bytes (108 ∷ 111 ∷ 97 ∷ 100 ∷ []) ∷ bytes [] ∷ []) (omega arith)

scan-number_example :
    scan 6 (with_bytes ((49 ∷ 50 ∷ []) ++ space ∷ 108 ∷ []) client)
    ≡ scan 3 (after_answer (digit_sum (49 ∷ 50 ∷ [])) (108 ∷ []) client)
scan-number_example =
    scan-number 3 client (49 ∷ 50 ∷ []) (108 ∷ []) (refl, (refl, tt)) (omega arith) (omega arith)
      refl

-- A thread that ends before it is counted.
early_end : Reach (first_start 1) (end_thread (accept_connection (first_start 1)))
unfolding first_start accept_connection
early_end = onward (onward here (accepting refl)) (ending (omega arith))

Reach-bound_example :
    ((end_thread (accept_connection (first_start 1))).live ≤ 1 % 2 ^ 32)
    × (((end_thread (accept_connection (first_start 1))).num_thread
            + (end_thread (accept_connection (first_start 1))).pending)
          % 2 ^ 32
        ≡ (end_thread (accept_connection (first_start 1))).live)
Reach-bound_example = Reach-bound 1 early_end
