-- ===== src/Lib.antt =====
-- The process planner of PROCER: PP, a server that runs scripts of the language AnSISOP for its
-- clients PI (PROCER/PP/src and PROCER/PI/src, in C). PP has five kinds of threads, which share
-- queues of processes, each with a lock and a counting semaphore. LTSconex admits scripts and
-- resumes processes, LTSnew admits those that were delayed, STS moves the processes of four
-- incoming queues to the ready queue LPL in the order that the algorithm wants, PROCER takes a
-- ready process and interprets it, and the I/O threads serve its requests.
--
-- Files and what they model:
--   Shared: C strings as lists of bytes, signed integers, atoi and %d, and the outcome of a
--   piece of code (a value, a fault that C leaves undefined, a hang, an exit, or a wait).
--   Commons, Doubles: the calls of PROCER/commons and the type double, as parameters with laws.
--   Process, System: the records of PROCER/PP/src/procer_defs.h, LTS.h, io.h and stsConfig.h,
--   the queues with their semaphores, and the state that main.c shares among the threads.
--   Sts: PROCER/PP/src/STS.c. Sts.antt has strSwitch, the loops that empty a queue, and
--   ordenarFIFO, ordenarPRI and ordenarSPN; Sts/Order.antt the two ordering routines, which are
--   one text over two comparisons.
--   Lts: PROCER/PP/src/LTS.c, an event of epoll_wait at a time, with what the network gives as
--   part of the event and the sends and closes as a list.
--   Procer: PROCER/PP/src/PROCER.c, one round of the dispatcher.
--   Execution, Machine: processExecution and functionExecution of PROCER/PP/src/procer_defs.c;
--   Machine has one function for each instruction, Execution the loops.
--   Script, Memory, Message: codeSegmentCreator and the searches, the data segment, and the
--   report, of the same file.
--   Wire, Server: the two defSerialization.c, and the reads and handshakes of
--   PROCER/PP/src/server_defs.c and PROCER/PI/src/client_defs.c.
--   Io, Config: PROCER/PP/src/io.c and PROCER/PP/src/configure.c. Config.antt has
--   configurationReader, Config/Events.antt the thread that watches pp.config, over the bytes of
--   the kernel's events.
--   Log: the two logs_def.c.
--   Client: the client PI. Client.antt has the loop of the session of PROCER/PI/src/main.c and
--   obtenerPathDelScript of PROCER/PI/src/PI_defs.c, Client/Main.antt the rest of main;
--   Client/Session.antt what the session should be, over notices in place of bytes.
--   Threads: the start and the signal handler of PROCER/PP/src/main.c, the steps of all threads
--   in any order, and the life of PP, which has the readings of pp.config too; System/Consistent
--   and the files named Accounting have what these steps keep, the files named Preserve what a
--   step keeps if its parts do, and those named Ready what it does to LPL, those named Pool what
--   it does to the I/O threads, and those named Progress what always comes to an end.
--   Examples: the theorems at concrete values.
--
-- A lock is held from the start to the end of a step, so it shows only where the code takes it
-- twice. Counters that are uint16_t wrap in the model as in the code, and a search that passes the
-- last of them hangs. The sorts run on fuel above the number of pairs of their list, of which each
-- pass but the last puts one in order at least. A script need not end, so the interpreter runs on
-- fuel that is a parameter, and theorems on it hold for every fuel (Execution/Fuel has what more
-- of it does); where the quantum stops a script that makes no calls, Execution/Bound has how much
-- is enough. Signals arrive at the tests of the loops; other threads do not run inside one round.
--
-- The loops of the client and of the watch run on fuel above the bytes that they go through, of
-- which each round takes one at least. What the client writes is a list of effects; what the
-- terminal gives it is not looked at.
--
-- Not modelled: the creation of sockets and threads, the log entries of the threads of PP, memory
-- that is freed, PROCER/commons, and SHIELD.
pub mod Shared
pub mod Commons
pub mod Doubles
pub mod Process
pub mod System
pub mod Sts
pub mod Wire
pub mod Io
pub mod Server
pub mod Lts
pub mod Memory
pub mod Script
pub mod Machine
pub mod Execution
pub mod Message
pub mod Procer
pub mod Config
pub mod Log
pub mod Client
pub mod Threads
pub mod Examples
