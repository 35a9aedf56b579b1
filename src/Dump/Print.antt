-- ===== src/Dump/Print.antt =====
-- printMsg, printWorkerMsg, printRecord and printCoordRecord of helper.c: the bytes that they print.
use distributed_system.Base.{
  ℕ, zero, suc, ◌+◌, ◌-◌, ◌/◌, ◌%◌, List, [], ◌∷◌, ◌++◌, ltb, if◌then◌else◌, length, replicate,
}
use distributed_system.Clock.{Clock}
use distributed_system.Msg.{CmdMessage, TxMessage}
use distributed_system.Manager.State.{CoordRecord}
use distributed_system.Worker.State.{Record}
use distributed_system.Trace.Write.{decimal}
use distributed_system.Trace.Events.{codes, signed_decimal}

-- "label" in front of a text and a line end behind it.
unfoldable pub line : List ℕ → List ℕ → List ℕ
line label text = label ++ (text ++ 10 ∷ [])

-- The bytes of a fixed array up to the null byte.
unfoldable pub text_of : List ℕ → List ℕ
text_of [] = []
text_of (zero ∷ bytes) = []
text_of (suc c ∷ bytes) = suc c ∷ text_of bytes

-- printMsg; newID and hostName are the same bytes.
unfoldable pub print_msg : CmdMessage → List ℕ
unfolding line decimal signed_decimal text_of
print_msg m =
    line (codes "msgType: ") (decimal m.msg_id)
    ++ (line (codes "tid: ") (decimal m.tid)
        ++ (line (codes "port: ") (decimal m.port)
            ++ (line (codes "newValue: ") (signed_decimal m.new_value)
                ++ (line (codes "delay: ") (signed_decimal m.delay)
                    ++ (line (codes "newID: ") (text_of m.str_data)
                        ++ line (codes "hostName: ") (text_of m.str_data))))))

-- The loop of printWorkerMsg, from slot i.
unfoldable pub print_slots : ℕ → List Clock → List ℕ
unfolding line decimal
print_slots i [] = []
print_slots i (c ∷ vc) =
    line (codes "vectorClock[" ++ (decimal i ++ codes "].nodeId: ")) (decimal c.node_id)
    ++ (line (codes "vectorClock[" ++ (decimal i ++ codes "].time: ")) (decimal c.time)
        ++ print_slots (suc i) vc)

unfoldable pub print_worker_msg : TxMessage → List ℕ
unfolding line decimal signed_decimal print_slots
print_worker_msg m =
    line (codes "msgType: ") (decimal m.msg_id)
    ++ (line (codes "tid: ") (decimal m.tid)
        ++ (line (codes "isCrash: ") (signed_decimal m.is_crash) ++ print_slots 0 m.vector_clock))

-- The loop over a vector clock in printRecord and in main of dumpObject.c.
unfoldable pub print_clock : List Clock → List ℕ
unfolding line decimal signed_decimal
print_clock [] = []
print_clock (c ∷ vc) =
    line (codes "    node[" ++ (signed_decimal c.node_id ++ codes "] = ")) (decimal c.time)
    ++ print_clock vc

-- The line of a time, a number of microseconds; `ctime` gives the text of its seconds, without the
-- line end that the code removes.
unfoldable pub print_time : (ℕ → List ℕ) → ℕ → List ℕ
unfolding line decimal
print_time ctime t = line (32 ∷ ctime (t / 1000000) ++ codes "  usec ") (decimal (t % 1000000))

unfoldable pub print_record : (ℕ → List ℕ) → Record → List ℕ
unfolding line decimal signed_decimal print_time print_clock
print_record ctime r =
    line (codes "msgType: ") (decimal r.msg_id)
    ++ (line (codes "tid: ") (decimal r.tid)
        ++ (line (codes "oldValue: ") (signed_decimal r.old_value)
            ++ (line (codes "oldID: ") r.old_id
                ++ (print_time ctime r.last_update_time ++ print_clock r.vector_clock))))

unfoldable pub print_coord_record : CoordRecord → List ℕ
unfolding line decimal
print_coord_record r =
    line (codes "msgType: ") (decimal r.msg_id)
    ++ (line (codes "tid: ") (decimal r.tid) ++ line (codes "nodeId: ") (decimal r.node_id))

-- `%08x` of 32 bits.
unfoldable pub hex : ℕ → ℕ → List ℕ
hex zero n = []
hex (suc k) n = hex k (n / 16) ++ (if ltb (n % 16) 10 then 48 + n % 16 else 87 + n % 16) ∷ []

-- `%15d`
unfoldable pub padded : ℕ → List ℕ
unfolding signed_decimal
padded n = replicate (15 - length (signed_decimal n)) 32 ++ signed_decimal n
