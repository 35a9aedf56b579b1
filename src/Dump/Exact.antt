-- ===== src/Dump/Exact.antt =====
-- What dumpObject.c prints of complete files, and of logs that do not fit their mapping.
use distributed_system.Base.{
  ℕ, ◌+◌, ◌*◌, ◌^◌, ◌≤◌, ◌<◌, ◌≡◌, refl, ◌∙◌, Option, none, some, List, [], ◌++◌, arith, length,
}
use distributed_system.Trace.Events.{codes}
use distributed_system.Trace.Write.{decimal}
use distributed_system.Dump.Files.{
  Disk, ManagerLog, ObjectFile, WorkerLog, and_then, dump_file, dump_manager_log, dump_object,
  dump_worker_log, main, no_coord_record, no_record, object_text, printed, put, returned, undefined,
}
use distributed_system.Dump.Print.{line, print_clock, print_coord_record, print_record}
use distributed_system.Dump.Records.{
  print_all, print_records-all, print_records-none, num_rec-worker, num_rec-manager, dump_file-log,
}

-- Files of the right size, if they are there, whose records fit the page that is mapped.
unfoldable pub IsWholeObject : Option ObjectFile → Type 0
IsWholeObject none = Unit
IsWholeObject (some file) = file.size ≡ some 168

unfoldable pub IsWholeWorker : ℕ → Option WorkerLog → Type 0
IsWholeWorker mapped none = Unit
IsWholeWorker mapped (some file) =
    (file.size ≡ some (104 + length file.records * 176))
    × (104 + length file.records * 176 ≤ mapped)
    × (length file.records < 2 ^ 31)

unfoldable pub IsWholeManager : ℕ → Option ManagerLog → Type 0
IsWholeManager mapped none = Unit
IsWholeManager mapped (some file) =
    (file.size ≡ some (1520 + length file.records * 12))
    × (1520 + length file.records * 12 ≤ mapped)
    × (length file.records < 2 ^ 31)

-- The text of each file.
unfoldable pub object_part : (ℕ → List ℕ) → Option ObjectFile → List ℕ
object_part ctime none = []
object_part ctime (some file) = object_text ctime file.obj

unfoldable pub worker_part : (ℕ → List ℕ) → Option WorkerLog → List ℕ
worker_part ctime none = []
worker_part ctime (some file) =
    (line (codes "System Port: ") (decimal file.sys_port) ++ print_clock file.vector_clock)
    ++ print_all (print_record ctime) file.records

unfoldable pub manager_part : Option ManagerLog → List ℕ
manager_part none = []
manager_part (some file) = print_all print_coord_record file.records

dump_object-whole :
    (ctime : ℕ → List ℕ) (o : Option ObjectFile)
    → IsWholeObject o
    → dump_object ctime o ≡ returned 0 (object_part ctime o)
unfolding dump_object dump_file put IsWholeObject object_part
dump_object-whole ctime none h = refl
dump_object-whole ctime (some file) h = rw h refl

dump_worker_log-whole :
    (ctime : ℕ → List ℕ) (mapped : ℕ) (o : Option WorkerLog)
    → IsWholeWorker mapped o
    → dump_worker_log ctime mapped o ≡ returned 0 (worker_part ctime o)
unfolding dump_worker_log put printed IsWholeWorker worker_part
dump_worker_log-whole ctime mapped none h = refl
dump_worker_log-whole ctime mapped (some file) (size, room, few) =
    dump_file-log (104 + length file.records * 176) file.size _ size (omega arith)
    ∙ rw
        (
          num_rec-worker (length file.records) few,
          print_records-all (print_record ctime) no_record 176 mapped 104 file.records room,
        )
        refl

dump_manager_log-whole :
    (mapped : ℕ) (o : Option ManagerLog)
    → IsWholeManager mapped o
    → dump_manager_log mapped o ≡ returned 0 (manager_part o)
unfolding dump_manager_log printed IsWholeManager manager_part
dump_manager_log-whole mapped none h = refl
dump_manager_log-whole mapped (some file) (size, room, few) =
    dump_file-log (1520 + length file.records * 12) file.size _ size (omega arith)
    ∙ rw
        (
          num_rec-manager (length file.records) few,
          print_records-all print_coord_record no_coord_record 12 mapped 1520 file.records room,
        )
        refl

dump_worker_log-undefined :
    (ctime : ℕ → List ℕ) (mapped : ℕ) (file : WorkerLog)
    → file.size ≡ some (104 + length file.records * 176)
    → 104 ≤ mapped
    → mapped < 104 + length file.records * 176
    → length file.records < 2 ^ 31
    → dump_worker_log ctime mapped (some file) ≡ undefined
unfolding dump_worker_log put printed
dump_worker_log-undefined ctime mapped file size start big few =
    dump_file-log (104 + length file.records * 176) file.size _ size (omega arith)
    ∙ rw
        (
          num_rec-worker (length file.records) few,
          print_records-none (print_record ctime) no_record 176 mapped 104 (length file.records)
              file.records start big,
        )
        refl

-- With one argument that is a number, and files that are missing or have the size of their records and
-- fit the page that is mapped, dumpObject prints the object, the port and the clock of the worker's
-- log and its records, and then the records of the manager's log, each once and in the order of the
-- file, and returns 0.
pub main-whole :
    (ctime : ℕ → List ℕ) (cmd : List ℕ) (d : Disk) (port : ℕ)
    → d.argc ≡ 2
    → d.number ≡ some port
    → IsWholeObject d.object
    → IsWholeWorker d.mapped d.worker_log
    → IsWholeManager d.mapped d.manager_log
    → main ctime cmd d
      ≡ returned 0 (
          object_part ctime d.object
          ++ (worker_part ctime d.worker_log ++ manager_part d.manager_log))
unfolding main and_then
main-whole ctime cmd d port one number o w m =
    rw
      (
        one,
        number,
        dump_object-whole ctime d.object o,
        dump_worker_log-whole ctime d.mapped d.worker_log w,
        dump_manager_log-whole d.mapped d.manager_log m,
      )
      refl

-- With one argument that is a number, and an object file that is missing or complete: a log of a worker
-- that has the size of its records, fewer than 2^31, of which the page that is mapped holds the header
-- but not all, ends dumpObject in a read of memory that is not mapped.
pub main-undefined :
    (ctime : ℕ → List ℕ) (cmd : List ℕ) (d : Disk) (port : ℕ) (file : WorkerLog)
    → d.argc ≡ 2
    → d.number ≡ some port
    → IsWholeObject d.object
    → d.worker_log ≡ some file
    → file.size ≡ some (104 + length file.records * 176)
    → 104 ≤ d.mapped
    → d.mapped < 104 + length file.records * 176
    → length file.records < 2 ^ 31
    → main ctime cmd d ≡ undefined
unfolding main and_then
main-undefined ctime cmd d port file one number o log size start big few =
    rw
      (
        one,
        number,
        dump_object-whole ctime d.object o,
        log,
        dump_worker_log-undefined ctime d.mapped file size start big few,
      )
      refl
