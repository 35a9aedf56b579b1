-- ===== src/Lib.antt =====
-- Verification of the programs of this repository: the two-phase commit of transaction_management
-- (a transaction manager, tmanager.c, and its workers, tworker.c), the clocks and message formats
-- that they share (helper.c, msg.h), with the program that gives them commands (cmd.c), the elections of
-- bully_algorithm (node.c) and of bully_algorithm_fg_mpi (bully.c, on FG-MPI), and the threaded server
-- of client_server (mtserver.c).
--
-- The parts and how they interact. A command program sends commands to a worker; a worker joins a
-- transaction at the manager, writes old values into its log before it changes its object, votes
-- when the manager asks, and undoes its changes when the transaction aborts. The manager keeps the
-- table of transactions and workers, collects votes, writes its decision into its log and sends it.
-- Every message carries a vector clock, which the receiver merges into its own.
--
--   Base          helpers: Boolean tests, arrays as lists
--   Outcome       what a handler leads to: it goes on, the process leaves, or C does not define it
--   Clock         struct clock of tworker.h, updateMyVectorClock, mergeVectorClock; child modules
--                 for the shape of a clock (Packed), single merges (Merge) and maxima (Join)
--   Msg           the enums and message structs of transaction_management/msg.h
--   Wire          serialize and deserialize functions of helper.c, over bytes 0 to 255
--   Startup       what both main functions find when they start, and createSocket of helper.c
--   Manager       tmanager.c. State: the globals, the log file and the locals of handleWorkerMsg.
--                 Table: saveWorkerInfo, cleanWorkerInfo, the crash flags. Votes: collectVote,
--                 isCommit, waitingForVotes, findStateFromRecord. Handle: sendToAllWorkers and
--                 handleWorkerMsg. Restart: the two branches of main. Boot: main up to
--                 its loop. Reach: rounds, exits, crashes and restarts as a relation, and Starts:
--                 main in place of its restarts. Closed, Keeps and Runs carry a property through them;
--                 WriteAhead, Safety, Recovery, Decision, Broadcast and Slots are about commits, the
--                 saved state, the restart, the count of votes, the sends and the table; Ballot,
--                 Count and Progress about runs of votes, Disagreement and Conflict about votes after a
--                 restart.
--   Worker        tworker.c. State: the globals, the object file and the log file. Record:
--                 findStateFromRecord, isLocalAbort, readValFromRecord. Send: constructMessage,
--                 constructTxMessage, sendMsg. Coordinator: handleManagerMsg and
--                 waitingForCoordResponse. Command: handleCmdMsg. Restart: the branches of main.
--                 Boot: main up to its loop, savePort and getPortfromLogFile. Ports and Life: the saved
--                 port over the starts. Commits and Decisions: who writes commit records. Undo,
--                 Rollback and Abort are about undoing a transaction, Recovery about restarts, Persist
--                 about the saved clock, Slots about the slots of the own node.
--   Cmd           transaction_management/cmd.c. Program: strToUInt and main. Delivery, Joined and
--                 Heard: what a worker reads from the packet and does with it. Refusal: which arguments are refused.
--                 The functions strtoul and gethostbyname are arguments.
--   Bully         bully_algorithm/node.c and msg.h. State: the globals, sendMsg, mergeVectorClock.
--                 Elect: the loops over the group. Handle: handleMsg, the timeouts of sendUDPMsg,
--                 ThreadMain and the main loop. Start: foundInGroup and the end of
--                 main. Group: readGroupListFile, with what scanf takes off a text. Boot: main; Reading
--                 and Joining: a group file read back, and where main leads to. Wire: the message
--                 format. Order, Directed and Safety: whom the messages go to. Loops, Election and
--                 Launch: what the states lead to. Merge, Roundtrip: clocks, bytes. The function
--                 gethostbyname is an argument, random() a sequence.
--                 A round of the AYA thread falls between two events of the main thread.
--   FgMpi         bully_algorithm_fg_mpi/bully.c. State: the tags, the locals of handleNode and
--                 eventPrinting. Send: the sends and the loops over the ranks. Handle: the loop of
--                 handleNode. Start: its start, and handleClock. Program: the function bully. Closed,
--                 Rounds and Runs carry a property through them; Stamps, Direction, Silence, Liveness
--                 and Highest are about the times, the receivers, and what silence leads to. The
--                 functions random, MPI_Wtime and MPI_Test are sequences.
--   Server        client_server/mtserver.c. Client: the locals of HandleTCPClient, manageBuffer and
--                 the sends. Parse: HandleTCPClient. Threads: main and ThreadMain as steps on
--                 numThread. Turns, Total, Numbers, Commands and Bound: the end of the loops, the
--                 answers, the count of threads.
--   Trace         the ShiViz logs. Write: writeVectorTime of transaction_management/helper.c and of
--                 bully_algorithm/node.c. Events: writeEventToLog and writeLocalEventToLog of
--                 tmanager.c, tworker.c and node.c, writeStartToLog and writeToFile. Decimal and
--                 Entries: lengths and commas; Exact and Lines: the texts and their buffers.
--   System        manager and workers together: the handlers, and a network that loses, repeats and
--                 reorders datagrams (Run), what the logs agree on (Agreement),
--                 and a ballot of workers that all vote to commit (Ballot).
--   Dump          transaction_management/dumpObject.c. Print: the printing functions of helper.c as the
--                 bytes that they print. Files: main, with ctime, the files and the size of a page as
--                 arguments. Records and Exact: what it prints of complete files, and of logs
--                 beyond a page.
--
-- Conventions. A number of C is a natural number; a counter that may wrap is taken `% 2 ^ 32`.
-- Fixed arrays are lists of their length. A state has the list of what left the process, the last
-- first: messages handed to sendto, records written, events logged. A local that is not initialised
-- and an address are arguments or fields with any value; what C leaves undefined (a `commit` or an
-- `index` that was never set, a datagram that is too short) is the outcome `undefined`, and a
-- theorem about what a handler leaves says nothing of it. Every loop is over an array, over a log
-- or over the inputs given, except for the for loop of mtserver.c, which sets its counter back. That
-- loop has a fuel of 1024: with n bytes in the buffer and the counter at k, the number 33 * n + 1 - k
-- falls at every turn, and the buffer holds at most 31 bytes.
--
-- Not modelled: sockets, host names and files as such (a datagram is an input, a send an effect, the
-- calls of a start are fields of Startup.World). The states of manager and worker hold events, not
-- the texts of them; these, and the buffers of writeVectorTime and writeEventToLog that they may
-- overflow, are in Trace alone, and no outcome of a handler says that one did. A log is the list of its records, however many: that only a
-- page of it is mapped is modelled for dumpObject.c alone. Printing is modelled for eventPrinting of
-- bully_algorithm_fg_mpi/bully.c, dumpObject.c and the functions that helper.c has for it. Arguments
-- of bully that are negative ints, and client_server/Thread.c, which passes on calls of pthreads and
-- is not used by mtserver.c, are not modelled. A failing sendto or msync is not modelled: the code
-- prints it and goes on. The threads of mtserver.c share only numThread, which a client thread reads
-- as a sequence gives it.
mod Base
pub mod Clock
pub mod Outcome
pub mod Msg
pub mod Wire
pub mod Startup
pub mod Manager
pub mod Worker
pub mod Bully
pub mod FgMpi
pub mod Server
pub mod Cmd
pub mod Trace
pub mod System
pub mod Dump
