-- ===== src/Worker/Boot.antt =====
-- main of tworker.c up to the loop of handleCmdMsg, with savePort and getPortfromLogFile.
use distributed_system.Base.{ℕ, ◌+◌, ◌%◌, ◌^◌, ◌&&◌, Option, none, some, ◌==◌, if◌then◌else◌}
use distributed_system.Startup.{
  World, Start, refused, started, create_socket, check_size, found_file,
}
use distributed_system.Msg.{Addr, TxMessage}
use distributed_system.Worker.State.{Record, Worker}
use distributed_system.Worker.Restart.{first_start, restart}

-- The locals and the files: what the log and the object file hold, of which a first start uses only
-- the object, and what the locals msg and rec and the address hold.
pub record Files : Type 0 where
  pub left : Worker
  pub addr : Addr
  pub out : TxMessage
  pub rec : Record

-- `sizeof(CrashInfo)` and `sizeof(ObjectData)`, where a long has 8 bytes.
abbrev pub crash_info_size : ℕ
crash_info_size = 104

abbrev pub object_data_size : ℕ
object_data_size = 168

-- The conversion of the argument, and the log file.
unfoldable pub open_log : World → Option ℕ
unfolding check_size
open_log w = elim w.number [
  | none ↦ none
  | some port ↦ check_size crash_info_size w.log_size w.log_grows
]

-- The value of `err`.
unfoldable pub count_errors : World → ℕ
count_errors w =
    (elim w.number [ none ↦ 1 | some port ↦ 0 ])
    + (if w.data_opens then (if w.shiviz_opens then 0 else 1) else 1)

-- The port that the socket of the manager is created with.
unfoldable pub get_port : World → Worker → ℕ
unfolding found_file
get_port w left = if found_file w then left.sys_port else 0

-- The port in the log file after savePort.
unfoldable pub save_port : World → ℕ → ℕ
save_port w sys_port = if sys_port == 0 then w.generated % 2 ^ 16 else sys_port

-- The first start, or the restart, behind the checks.
unfoldable pub enter : World → Files → ℕ → Worker
unfolding found_file first_start restart get_port save_port
enter w f port =
    let sys_port = save_port w (get_port w f.left) in
    if found_file w
    then restart f.addr f.out f.rec (record f.left { node_id = port % 2 ^ 32; sys_port = sys_port })
    else first_start (port % 2 ^ 32) sys_port w.now f.left.obj f.addr f.out f.rec

-- From the sockets on.
unfoldable pub start_on : World → Files → ℕ → Start Worker
unfolding create_socket get_port check_size enter
start_on w f port =
    if create_socket w port && create_socket w (get_port w f.left)
    then elim (check_size object_data_size w.data_size w.data_grows) [
      | some code ↦ refused code
      | none ↦ started (enter w f port)
    ]
    else refused 1

unfoldable pub main : World → Files → Start Worker
unfolding open_log count_errors start_on
main w f =
    if w.argc == 2
    then elim (open_log w) [
      | some code ↦ refused code
      | none ↦ elim w.number [
        | none ↦ refused 1
        | some port ↦ if count_errors w == 0 then start_on w f port else refused 1
      ]
    ]
    else refused 1
