-- ===== src/Server/Threads.antt =====
-- The accept loop and the threads of client_server/mtserver.c, with the steps in which they take
-- turns.
use distributed_system.Base.{ℕ, ◌+◌, ◌-◌, ◌%◌, ◌^◌, ◌<◌, ◌≡◌, ltb, if◌then◌else◌}

-- `max` is the argument, converted for the comparison with a uint32_t. `live` is the number of client
-- threads that have not decremented numThread; `pending` is 1 between pthread_create and numThread++.
pub record Server : Type 0 where
  pub max : ℕ
  pub num_thread : ℕ
  pub live : ℕ
  pub pending : ℕ

-- atoi of the first argument as an int, read as an unsigned number.
unfoldable pub first_start : ℕ → Server
first_start argument = record { max = argument % 2 ^ 32; num_thread = 0; live = 0; pending = 0 }

-- A connection that is accepted while numThread is below the maximum gets a thread; otherwise it is
-- closed.
unfoldable pub accept_connection : Server → Server
accept_connection s =
    if ltb s.num_thread s.max then record s { live = s.live + 1; pending = 1 } else s

-- `numThread++` of the main thread
unfoldable pub count_thread : Server → Server
count_thread s = record s { num_thread = (s.num_thread + 1) % 2 ^ 32; pending = 0 }

-- `numThread--` of a client thread
unfoldable pub end_thread : Server → Server
end_thread s = record s { num_thread = (s.num_thread + (2 ^ 32 - 1)) % 2 ^ 32; live = s.live - 1 }

-- The main thread accepts only after it has counted; a thread may end before it is counted.
pub data Step (s : Server) : Server → Type 0 where
  accepting : s.pending ≡ 0 → Step s (accept_connection s)
  counting : s.pending ≡ 1 → Step s (count_thread s)
  ending : 0 < s.live → Step s (end_thread s)

pub data Reach (s : Server) : Server → Type 0 where
  here : Reach s s
  onward : {t u : Server} → Reach s t → Step t u → Reach s u
