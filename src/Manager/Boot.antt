-- ===== src/Manager/Boot.antt =====
-- main of tmanager.c up to handleWorkerMsg.
use distributed_system.Base.{ℕ, ◌+◌, ◌&&◌, Option, none, some, ◌==◌, if◌then◌else◌}
use distributed_system.Startup.{
  World, Start, refused, started, create_socket, check_size, found_file,
}
use distributed_system.Msg.{Addr, TxMessage}
use distributed_system.Manager.State.{CoordRecord, Manager}
use distributed_system.Manager.Restart.{first_start, restart}

-- What the log file holds, of which a first start uses nothing, and what the locals rec and new_msg
-- and the addresses hold.
pub record Files : Type 0 where
  pub left : Manager
  pub addr : Addr
  pub rec : CoordRecord
  pub out : TxMessage

-- `sizeof(struct CoordCrashInfo)`
abbrev pub crash_info_size : ℕ
crash_info_size = 1520

-- The conversion of the argument, and the log file.
unfoldable pub open_log : World → Option ℕ
unfolding check_size
open_log w = elim w.number [
  | none ↦ none
  | some port ↦ check_size crash_info_size w.log_size w.log_grows
]

-- The value of `err`.
unfoldable pub count_errors : World → ℕ
count_errors w = (elim w.number [ none ↦ 1 | some port ↦ 0 ]) + (if w.shiviz_opens then 0 else 1)

-- The first start, or the restart, behind the checks.
unfoldable pub enter : World → Files → ℕ → Manager
unfolding found_file first_start restart
enter w f port =
    if found_file w
    then restart f.rec f.out (record f.left { port = port })
    else first_start port f.addr f.rec f.out

unfoldable pub main : World → Files → Start Manager
unfolding open_log count_errors create_socket enter
main w f =
    if w.argc == 2
    then elim (open_log w) [
      | some code ↦ refused code
      | none ↦ elim w.number [
        | none ↦ refused 1
        | some port ↦
            if (count_errors w == 0) && create_socket w port
            then started (enter w f port)
            else refused 1
      ]
    ]
    else refused 1
