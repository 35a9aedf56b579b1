-- ===== src/Dump/Files.antt =====
-- main of dumpObject.c.
use distributed_system.Base.{
  ℕ, zero, suc, ◌+◌, ◌-◌, ◌/◌, ◌%◌, ◌^◌, Option, none, some, List, [], ◌∷◌, ◌++◌, ltb, ◌==◌,
  if◌then◌else◌, replicate,
}
use distributed_system.Clock.{Clock, empty}
use distributed_system.Manager.State.{CoordRecord}
use distributed_system.Worker.State.{ObjectData, Record}
use distributed_system.Trace.Write.{decimal}
use distributed_system.Trace.Events.{codes}
use distributed_system.Dump.Print.{
  hex, line, padded, print_clock, print_coord_record, print_record, print_time,
}

-- What an fstat of an open file finds, if it does not fail, and what the mapping holds.
pub record ObjectFile : Type 0 where
  pub size : Option ℕ
  pub obj : ObjectData

-- The records are in the order of the file.
pub record WorkerLog : Type 0 where
  pub size : Option ℕ
  pub sys_port : ℕ
  pub vector_clock : List Clock
  pub records : List Record

pub record ManagerLog : Type 0 where
  pub size : Option ℕ
  pub records : List CoordRecord

-- `mapped` is the number of bytes that a mapping of 512 bytes makes readable, a page. A file that
-- does not open is none.
pub record Disk : Type 0 where
  pub argc : ℕ
  pub number : Option ℕ
  pub mapped : ℕ
  pub object : Option ObjectFile
  pub worker_log : Option WorkerLog
  pub manager_log : Option ManagerLog

-- What main ends in: the value it returns, negated, and what it has printed; or it reads memory that
-- is not mapped.
pub data Dump : Type 0 where
  returned : ℕ → List ℕ → Dump
  undefined : Dump

-- A part of main, and the one behind it, which a return skips.
unfoldable pub and_then : Dump → Dump → Dump
and_then (returned zero text) (returned code rest) = returned code (text ++ rest)
and_then (returned zero text) undefined = undefined
and_then (returned (suc code) text) d = returned (suc code) text
and_then undefined d = undefined

abbrev pub object_size : ℕ
object_size = 168

abbrev pub crash_info_size : ℕ
crash_info_size = 104

abbrev pub record_size : ℕ
record_size = 176

abbrev pub coord_crash_info_size : ℕ
coord_crash_info_size = 1520

abbrev pub coord_record_size : ℕ
coord_record_size = 12

-- printf, with the rest of main behind it.
unfoldable pub put : List ℕ → Dump → Dump
put text (returned code rest) = returned code (text ++ rest)
put text undefined = undefined

-- `numRec`: the difference is unsigned, and the quotient is cut to an int, of which a negative one
-- ends the loop at once.
unfoldable pub num_rec : ℕ → ℕ → ℕ → ℕ
num_rec header record_size size =
    let q = (size + 2 ^ 64 - header) % 2 ^ 64 / record_size % 2 ^ 32 in
    if ltb q (2 ^ 31) then q else 0

-- The loop over the records, the next of which is at the offset: behind the records of the file the
-- page holds zeros.
unfoldable pub print_records :
    {A : Type 0}
    → (print : A → List ℕ) (zeros : A) (size mapped offset n : ℕ) → List A
    → Option (List ℕ)
print_records print zeros size mapped offset zero rs = some []
print_records print zeros size mapped offset (suc n) [] =
    let rest = print_records print zeros size mapped (offset + size) n [] in
    if ltb mapped (offset + size)
    then none
    else elim rest [ none ↦ none | some text ↦ some (print zeros ++ text) ]
print_records print zeros size mapped offset (suc n) (r ∷ rs) =
    let rest = print_records print zeros size mapped (offset + size) n rs in
    if ltb mapped (offset + size)
    then none
    else elim rest [ none ↦ none | some text ↦ some (print r ++ text) ]

unfoldable pub printed : Option (List ℕ) → Dump
printed none = undefined
printed (some text) = returned 0 text

-- A file: its fstat, what is printed if its size is not right, and what is printed of its content,
-- which cannot be read if the file is empty.
unfoldable pub dump_file : Option ℕ → (ℕ → List ℕ) → (ℕ → Dump) → Dump
unfolding put
dump_file none complain content = returned 3 []
dump_file (some zero) complain content = undefined
dump_file (some (suc n)) complain content = put (complain (suc n)) (content (suc n))

-- The lines of the object.
unfoldable pub object_text : (ℕ → List ℕ) → ObjectData → List ℕ
unfolding line print_time padded hex print_clock
object_text ctime o =
    line (codes "String ID: ") o.id_string
    ++ (print_time ctime o.last_update_time
        ++ (line (codes " Object A: ") (padded o.a ++ (codes " 0x" ++ hex 8 o.a))
            ++ (line (codes " Object B: ") (padded o.b ++ (codes " 0x" ++ hex 8 o.b))
                ++ print_clock o.vector_clock)))

unfoldable pub dump_object : (ℕ → List ℕ) → Option ObjectFile → Dump
unfolding dump_file object_text
dump_object ctime none = returned 0 []
dump_object ctime (some file) =
    dump_file file.size
      (λ n. if n == object_size then [] else codes "The object data file has an invalid size\n")
      (λ n. returned 0 (object_text ctime file.obj))

-- A record of zeros.
abbrev pub no_record : Record
no_record = record {
  msg_id = 0;
  tid = 0;
  old_value = 0;
  old_id = [];
  vector_clock = replicate 10 empty;
  last_update_time = 0;
}

abbrev pub no_coord_record : CoordRecord
no_coord_record = record { msg_id = 0; tid = 0; node_id = 0 }

-- Both logs are compared with the size of the worker's CrashInfo.
unfoldable pub complain_log : ℕ → List ℕ
complain_log n =
    if ltb n crash_info_size then codes "The crash info file has an invalid size\n" else []

unfoldable pub dump_worker_log : (ℕ → List ℕ) → ℕ → Option WorkerLog → Dump
unfolding dump_file put line decimal print_clock print_records printed num_rec print_record
    complain_log
dump_worker_log ctime mapped none = returned 0 []
dump_worker_log ctime mapped (some file) = dump_file file.size complain_log (λ n.
    put (line (codes "System Port: ") (decimal file.sys_port) ++ print_clock file.vector_clock) (
      printed (
        print_records (print_record ctime) no_record record_size mapped crash_info_size
          (num_rec crash_info_size record_size n) file.records)))

unfoldable pub dump_manager_log : ℕ → Option ManagerLog → Dump
unfolding dump_file print_records printed num_rec print_coord_record complain_log
dump_manager_log mapped none = returned 0 []
dump_manager_log mapped (some file) = dump_file file.size complain_log (λ n. printed (
    print_records print_coord_record no_coord_record coord_record_size mapped coord_crash_info_size
      (num_rec coord_crash_info_size coord_record_size n) file.records))

-- The usage line of the program of a name.
unfoldable pub usage : List ℕ → List ℕ
usage cmd = codes "usage: " ++ (cmd ++ codes "  portNum\n")

unfoldable pub main : (ℕ → List ℕ) → List ℕ → Disk → Dump
unfolding usage and_then dump_object dump_worker_log dump_manager_log
main ctime cmd d =
    if d.argc == 2
    then elim d.number [
      | none ↦ returned 1 (codes "Port conversion error\n")
      | some port ↦ and_then (dump_object ctime d.object) (
          and_then (dump_worker_log ctime d.mapped d.worker_log)
            (dump_manager_log d.mapped d.manager_log))
    ]
    else returned 1 (usage cmd)
