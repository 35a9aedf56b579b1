-- ===== src/Startup.antt =====
-- What main of tmanager.c and of tworker.c find when they start, with createSocket of helper.c.
use distributed_system.Base.{
  ℕ, ◌%◌, ◌^◌, Bool, true, not, ◌&&◌, Option, none, some, ltb, ◌==◌, if◌then◌else◌,
}

-- What the calls of a start find. `number` is what strtoul makes of the argument; an fstat finds a
-- size or fails, as it does if the file did not open; a port binds or does not. `file_exist` is what
-- the local fileExist, which is not initialised, holds. The worker alone has an object file,
-- `generated`, the port that bind chooses for port 0, and the time `now`.
pub record World : Type 0 where
  pub argc : ℕ
  pub number : Option ℕ
  pub file_exist : ℕ
  pub log_exists : Bool
  pub log_size : Option ℕ
  pub log_grows : Bool
  pub data_opens : Bool
  pub shiviz_opens : Bool
  pub opens_socket : Bool
  pub binds : ℕ → Bool
  pub generated : ℕ
  pub data_size : Option ℕ
  pub data_grows : Bool
  pub now : ℕ

-- What main returns, negated, or the state in which it enters its loop.
pub data Start (A : Type 0) : Type 0 where
  refused : ℕ → Start A
  started : A → Start A

-- createSocket: whether it gives a socket. The port of an address has 16 bits.
unfoldable pub create_socket : World → ℕ → Bool
create_socket w port = w.opens_socket && w.binds (port % 2 ^ 16)

-- fstat and the write of a file that is too short: the code that main returns, if it does.
unfoldable pub check_size : ℕ → Option ℕ → Bool → Option ℕ
check_size size none grows = some 2
check_size size (some n) grows = if ltb n size && not grows then some 3 else none

-- The test of the variable fileExist.
unfoldable pub found_file : World → Bool
found_file w = if w.log_exists then true else not (w.file_exist == 0)
