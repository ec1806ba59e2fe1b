-- ===== src/Lib.antt =====
-- Verification of the exercises of the course "Sistemi di Calcolo 2": concurrent programs on
-- threads, semaphores, shared memory, files, FIFOs and sockets, in C.
--
-- ProdCons models Lab03/code/es1/producer_consumer_n_m.c. Every access to a shared variable and
-- every call on a semaphore of `performTransactions` and `processTransactions` is one step of
-- `producer_at` and `consumer_at`; a schedule is any list of turns, so each interleaving of the
-- 20 producers and 20 consumers is a run. A turn also says whether a semaphore call succeeds:
-- where it fails the process exits. `init` is what `main` sets up, `final_deposit` what it prints
-- after its joins. ProdCons/Counts, Buffer, Inv, History, Fifo and Work hold the invariants.
--
-- Posix models what the programs rely on of `read`, `write`, `recv` and `send`: each call transfers
-- some bytes, is interrupted, or fails, as the list of events decides, which is any list. It has
-- the loops over partial transfers that the programs share.
--
-- Copy models `performCopyBetweenDescriptors` of Lab06/src/01 copy/copy.c. EchoFifo models
-- `readOneByOne` and `writeMsg` of Lab06/src/03 EchoFIFO/rw.c and the loops of echo.c and
-- client.c. The rounds of the `while (1)` loops are bounded by fuel; at 0 the result counts as waiting. A byte
-- or a terminator that does not fit the buffer ends a run as `overflowed`.
-- One round for each byte of the source, and one more, is enough for the copy. The loop of client.c
-- ends with the lines of its user.
--
-- ReqWrk models the handshake of Lab05/src/01/req_wrk.c: two processes over a shared array, the
-- steps of `request` and `work` under every schedule.
--
-- FifoValues models Lab07/src/01 prod_cons: `writeValue`, `readValue`, `produce` and `consume`, an
-- `int` as a word of 32 bits and its four bytes, the lowest first.
--
-- Pipe models `write_to_pipe`, `read_from_pipe`, `create_msg` and `is_msg_ok` of
-- Lab06/src/02 Pipe/main.c, with the pointers scaled as the casts to `int *` scale them.
-- Pipe/Processes has the processes of `reader` and `writer` by steps, for arrays of any size and any numbers
-- of processes; Moves, Takes, Inv and Runs have what a step does, what always holds, and runs. A `read`
-- that stores behind the array leaves the reader at `overrun`, where it has no step; Parts is about reads
-- of parts of a message.
--
-- LocalSums models Lab01/code/concurrent_threads.c: the threads, each with a cell of its own, and the
-- sum that `main` forms after the joins.
--
-- MutexSum models Lab02/code/concurrent_threads.c: the threads add to one shared variable, inside a
-- semaphore, by a load and a store.
--
-- Scheduler models Lab02/code/scheduler.c by a step relation: `main` with the keys it reads, the bursts
-- of threads and a semaphore call that fails. A call on a semaphore behind its destruction has no
-- defined behaviour, and is no step. Scheduler/Clients has what a thread knows, Reached the
-- invariant, by induction on the steps.
--
-- SharedRing models Lab05/src/02, producer.c and consumer.c, for any numbers of processes: `produce`
-- and `consume` by steps over the shared memory and the four semaphores. SharedRing/Counts has what the
-- semaphores count, Cells what stands in the buffer, Inv and Runs the invariant over runs.
--
-- NamedPool models Lab03/code/es2, server.c and client.c: a server that may stop and start again, the
-- semaphores that it has created, and any clients with their threads. NamedPool/Inv and Runs have what the
-- semaphores count.
--
-- BusyRing models Lab05/src/03, producer.c and consumer.c: one producer and one consumer over a buffer
-- without semaphores, by steps.
--
-- EchoTcp models Lab08/src/01: `connection_handler` of server.c and the main loop of client.c. The
-- socket is two lists of bytes, and a list of events says what each `send` and `recv` does. The fuel of
-- `server_loop` bounds the rounds of `while (1)`.
--
-- Accesses models Lab05/src/00/riepilogo.c, and Lab07/src/02 riepilogo/riepilogo.c in Accesses/Again:
-- the main process, `n` children and the threads of their rounds, by one step for each call on a
-- semaphore, each access to the flag and the file, and each join. Accesses/Effects and Moves say what
-- the steps of threads and children do, Inv what always holds, Progress and Ends how the program ends.
--
-- Polling models Lab04/code/riepilogo.c: the main process, which polls a named semaphore, the children and
-- the threads of their rounds, with any values in the variables `check` that the program reads before it
-- sets them. Polling/Effects and Moves say what a step does, Inv and Runs what always holds. It uses the
-- threads and the report of Accesses. `parse_output` is `none` when it would write behind its array; its counts, each an `int`, are exact up to
-- 2^31 - 1 accesses.
--
-- TimeServer models Lab07/src/03 time_server: `connection_handler` of server.c and the exchange of client.c,
-- with the counts as the 64-bit words that their tests compare; TimeServer/Exchange joins the two.
--
-- Dekker models Esercizi_Personali/dekker.c: two processes, each access to `flag` and `turn` a step.
--
-- SingleMutex models Lab03/code/es1/producer_consumer_1_m.c and producer_consumer_n_1.c: the threads of
-- ProdCons with one mutex for all, for any numbers of threads. SingleMutex/Simulation shows its steps as
-- steps of ProdCons, Runs and Reached lift the invariant to runs, and Shares counts what each producer puts.
--
-- RingFile models Lab03/code/es3/common.c: a ring buffer in a file of integers, as a refinement of
-- a queue.
--
-- Base has the lists, tests and integers over the native numbers that the others share.
--
-- Not modelled: output to the terminal, pauses, the parsing of options, the opening and closing of
-- resources, the calls whose failure ends the process at once in ReqWrk, LocalSums and MutexSum,
-- those of the device in RingFile; the programs of Lab01 and Lab02 that measure time; the exercises left
-- as skeletons (Lab03/code/es3/producer.c and consumer.c, Lab08/src/02, Lab09/src); those that have no
-- defined behaviour (Lab03/code/es1/producer_consumer_1_1.c waits on a null semaphore,
-- Esercizi_Personali/dijkstra.c does not compile); and Lab03/code/es1/producer_consumer.c, which has no
-- synchronisation at all.
pub mod Accesses
pub mod Base
pub mod BusyRing
pub mod Copy
pub mod Dekker
pub mod EchoFifo
pub mod EchoTcp
pub mod FifoValues
pub mod LocalSums
pub mod MutexSum
pub mod NamedPool
pub mod Pipe
pub mod Polling
pub mod Posix
pub mod ProdCons
pub mod ReqWrk
pub mod RingFile
pub mod Scheduler
pub mod SharedRing
pub mod SingleMutex
pub mod TimeServer
