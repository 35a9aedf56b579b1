-- ===== src/Dump/Tests.antt =====
-- Runs of dumpObject.c, and instances of the theorems.
use distributed_system.Base.{
  ℕ, ◌+◌, ◌*◌, ◌≡◌, refl, none, some, List, [], ◌∷◌, ◌++◌, arith, replicate,
}
use distributed_system.Clock.{empty}
use distributed_system.Trace.Events.{codes}
use distributed_system.Dump.Print.{print_coord_record, hex, padded}
use distributed_system.Dump.Files.{Disk, WorkerLog, returned, undefined, main, no_record}
use distributed_system.Dump.Records.{print_all}
use distributed_system.Dump.Exact.{
  main-whole, main-undefined, worker_part, manager_part, object_part, IsWholeObject, IsWholeWorker,
  IsWholeManager,
}

abbrev ctime : ℕ → List ℕ
ctime t = codes "Thu Jan  1 00:00:00 1970"

-- A worker's log with a number of records.
abbrev log_of : ℕ → WorkerLog
log_of n = record {
  size = some (104 + n * 176);
  sys_port = 40001;
  vector_clock = record { node_id = 5000; time = 3 } ∷ replicate 9 empty;
  records = replicate n no_record;
}

abbrev disk : Disk
disk = record {
  argc = 2;
  number = some 5000;
  mapped = 4096;
  object = none;
  worker_log = some (log_of 2);
  manager_log = some (record {
    size = some 1544;
    records =
        record { msg_id = 2001; tid = 7; node_id = 5000 }
        ∷ record { msg_id = 1006; tid = 7; node_id = 6000 }
        ∷ [];
  });
}

main-whole_example :
    main ctime (codes "dumpObject") disk
    ≡ returned 0 ([] ++ (worker_part ctime disk.worker_log ++ manager_part disk.manager_log))
unfolding object_part IsWholeObject IsWholeWorker IsWholeManager
main-whole_example =
    main-whole ctime (codes "dumpObject") disk 5000 refl refl tt (refl, omega arith, omega arith)
      (refl, omega arith, omega arith)

-- A page of 4096 bytes holds 22 records.
main-undefined_example :
    main ctime (codes "dumpObject") (record disk { worker_log = some (log_of 23) }) ≡ undefined
unfolding IsWholeObject
main-undefined_example =
    main-undefined ctime (codes "dumpObject") (record disk { worker_log = some (log_of 23) }) 5000
      (log_of 23) refl refl tt refl refl (omega arith) (omega arith) (omega arith)

manager_run :
    manager_part disk.manager_log
    ≡ codes "msgType: 2001"
      ++ 10 ∷ codes "tid: 7"
      ++ 10 ∷ codes "nodeId: 5000"
      ++ 10 ∷ codes "msgType: 1006"
      ++ 10 ∷ codes "tid: 7"
      ++ 10 ∷ codes "nodeId: 6000"
      ++ 10 ∷ []
unfolding manager_part print_coord_record print_all
manager_run = refl

hex_run : hex 8 3735928559 ≡ codes "deadbeef"
unfolding hex
hex_run = refl

padded_run : padded 4294967254 ≡ codes "            -42"
unfolding padded
padded_run = refl

usage_run :
    main ctime (codes "dumpObject") (record disk { argc = 1 })
    ≡ returned 1 (codes "usage: dumpObject  portNum" ++ 10 ∷ [])
unfolding main
usage_run = refl
