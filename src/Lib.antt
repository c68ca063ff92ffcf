-- ===== src/Lib.antt =====
-- Verification of the C laboratory programs of this repository, over the native natural numbers.
--
-- The programs are separate; each has a module tree here.
-- - ShmQueue models lab4/src: producer and consumer processes over a queue in shared memory.
--   Message is message.c, Ring is ring_buffer.c (queue_init, enqueue, dequeue; a message pointer
--   is the index of a slot), System is producer_process and consumer_process with their semaphores
--   as a step relation over any number of processes, with SIGUSR1 also in a blocked semop (its
--   children are the laws without such an interruption, those with it, and what it breaks), and
--   Processes is the parent's process table and its commands.
-- - ThreadQueue models lab5/5.1/src: Queue and Message are queue.c, a message queue whose ring
--   can grow and shrink (an access outside the array is the fault `none`), Pool is main.c (the
--   producer and consumer threads' arrays, creating and closing threads, the commands that change
--   the size together with the semaphore of free slots), and Threads is main.c while it runs: the
--   bodies of the threads and the commands as a step relation, with pthread_cancel.
-- - MonitorQueue models lab5/5.2/src: the bodies of the threads with their loops on condition
--   variables, and the commands, as a step relation over the queue of ThreadQueue; a wait on a
--   condition variable may return at any time; Pool is closing the threads at the end, as the main
--   thread does it.
-- - IndexSort models lab6/src/sort_index.c and index.h: Merge is merge_blocks, Workers the
--   threads that take blocks under a mutex as a step relation, Portion is process_portion, Runs is
--   external_merge, Program is main, and Generate is generation.c and view.c. The passes of the
--   threads stand in block order in Portion, and in any order in Workers.
-- - RecordEditor models lab7/src/editor.c and record.h: Get is do_get on the characters of the
--   input, Put is do_put with its conflict check, where the writes of other processes before each
--   lock are a parameter, Loop is main, Locks has several editors on one file with their record
--   locks, and Generate is generation.c.
-- - FileServer models lab8/src/server.c: Path is trim, build_path and the directory changes,
--   Sending is sendall, Listing is handle_list over a file system that is a parameter, Client the
--   loop body of client_thread on the bytes of one recv.
-- - FileClient models read_line, is_prompt and handle_server of lab8/src/client.c over the
--   pieces that recv returns.
-- - FileSession puts the client's main and the server's thread on the two ends of one
--   connection: FileSession itself runs them one command at a time, Network is a step relation
--   with the bytes on their way in both directions.
-- - Environ models lab2/src: read_env_file and the two modes of spawn_child in parent.c, and
--   what child.c prints of the environment that it gets; Parent is the rest of spawn_child and the
--   command loop of main.
-- - SignalStats models lab3/src/parent.c: SignalStats itself is the loop of a child and the
--   handler of its timer's signal as a step relation, Table the parent's table of children and its
--   commands.
-- - DirWalk models lab1/src/lab1.c over a file system that is a parameter; Listing is the
--   unbounded reference listing.
-- - AccessManager models Access_manager: Arguments is the argument loop of main.c, Copies the
--   loop over files and programs with the functions of access_manager.c, on one store of files that
--   a program may change as it likes, Main the whole of main with the copy directory and the results.
--
-- Fifo is the abstract bounded queue that the two message queues are compared with. Prelude holds
-- arrays as lists, Boolean tests, decimal numbers, sums over families of processes and the
-- arithmetic of ring indices.
--
-- Conventions: an int counter of the C code is a natural number, since the guards of the code keep
-- it from going below 0; uint8_t, uint16_t and the conversion to int are written with their
-- moduli. Parameters: rand is a stream of values, fork, pthread_create and pthread_join answer, or do
-- not, as an argument says, the connection of lab8 cuts what is sent into the pieces that recv
-- returns, a program's environment and files are lists, double is an order without NaN, qsort a function that sorts and
-- permutes, and the system calls of the index sort succeed or fail as a record says. Printing and
-- delays are left out.
--
-- Fuel: close_all_threads of both programs of lab5 has fuel above the number of threads, kill_loop
-- of the lab3 parent one more than the number of children, the merge loop of process_portion has
-- the number of blocks, which is above its logarithm, external_merge one more than the number of
-- runs, the portion loop one more than the size of the data, sendall of the lab8 server one more
-- than the number of bytes, and handle_server of the lab8 client one more than the number of lines
-- of a reply.
--
-- Not modelled: the SIGTERM that ends the processes of lab4, the commands' input but in lab2, lab7 and
-- lab8, printing but of messages, listings and results, the size limits of int in
-- the index sort, which thread a signal on a condition variable wakes (lab5/5.2), the setting up
-- of connections in lab8, and the older copy Accessmanager of Access_manager.
pub mod AccessManager
pub mod DirWalk
pub mod Environ
pub mod Fifo
pub mod FileClient
pub mod FileServer
pub mod FileSession
pub mod IndexSort
pub mod MonitorQueue
pub mod Prelude
pub mod RecordEditor
pub mod ShmQueue
pub mod SignalStats
pub mod ThreadQueue
