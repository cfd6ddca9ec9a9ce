-- ===== src/Lib.antt =====
-- A verification library for programs of this repository, a collection of exercises and examples on Linux
-- system programming, each program on its own in a chapter directory. The programs share no code but the
-- library in lib/. Each module below models one program, or two that talk to each other.
--
-- What the parts are, and how the model corresponds to the code:
--
-- Prelude: names of the libraries passed on, lists, byte strings, integers and sums over the native
-- numbers, chains of options, runs of a step relation, atoi and the tests of <ctype.h> as the C library
-- documents them.
--
-- Environment (chapter6/exercise_3.c): my_setenv works on the list of the entries of environ, and
-- my_unsetenv on the array, a slot a string or NULL. The loop `compact` has fuel, which is enough when it
-- is above the number of entries, since each round steps env_ptr. getenv and putenv are written from their
-- manual pages.
--
-- Multijoin (chapter30/thread_multijoin.c): a step relation with a constructor for each access to shared
-- memory and each call of pthreads by threadFunc (`WorkerPc`) and main (`MainPc`). A worker reads its
-- index through the pointer to idx, as the code does; the theorems that need each worker to have read its
-- own index say so in a hypothesis, and Race is about the runs without it.
--
-- Sigchld (chapter26/multi_SIGCHLD.c): a step relation of main, sigchldHandler and the ends of the
-- children, with the pending signal as a flag. A measure that each step lowers takes the place of fuel.
--
-- ThreadIncr (chapter30/thread_incr.c and thread_incr_mutex.c): two step relations on the same states, one
-- for threadFunc of each program, with a step for each access to glob and each call on the mutex. The
-- steps set no bound to glob; the theorem on its value has the bound of int as a hypothesis.
--
-- Tsd (chapter31/tsd.c): strerror_tsd in any number of threads, a step relation over the heap and the
-- specific data of each thread; a buffer that is being written can hold any bytes.
--
-- Cancel (chapter32/thread_cancel.c): a step relation of one thread, for each of the three thread
-- functions, with a cancellation that is asked for at any time. A point of cancellation that the standard
-- leaves open, as printf, can act on it or not, also the printf of a cleanup handler that
-- pthread_cleanup_pop runs, which has then been taken off the stack.
--
-- Critical (chapter32/pthread_testcancel.c): criticalSectionThread, a step relation of the same kind.
-- `old_state` has any value at the start.
--
-- TestCancel (chapter32/pthread_testcancel.c): testCancelThread and noTestCancelThread, one step relation
-- with a parameter for the calls of pthread_testcancel.
--
-- Tls (chapter31/tls.c): main and three threads, a step relation over the variables of each thread, the
-- global variable, the mutex and the lines that are printed.
--
-- Cleanup (chapter32/pthread_cleanup.c): the three thread functions, one step relation over the stack of
-- handlers.
--
-- SigSync (chapter24/fork_sig_sync.c): a step relation over the mask of the parent, the action of the
-- signal, and whether it is pending.
--
-- LsWc (chapter44/ls_ws.c): the descriptors of the parent and of both children, as functions from numbers
-- to what they are open on.
--
-- Inotify (chapter19/demo_inotify.c and exercise_1.c): displayInotifyEvent and the loop over the buffer,
-- on bytes; the layout of struct inotify_event is a parameter. The loop has fuel, which is enough above
-- the number of events of a read.
--
-- PipeSync and SimplePipe (chapter44/pipe_sync.c and simple_pipe.c) and PipeExchange
-- (chapter35/pipe_cpu_affinity.c): processes that share pipes, as step relations. A pipe is the bytes in
-- it or their number, with a capacity where the program can fill it, and the write ends that are open
-- where the program waits for the end of file. That the write of simple_pipe.c and those of transfer_data
-- put their bytes into the pipe in parts is a step for each part.
--
-- ProcessTree (chapter12/exercise_2.c): the records of processes[], a pointer to one being its index. The
-- recursion of print_process_tree has fuel, which is enough above the rank of the start: a rank is a
-- number on processes that is lower for each child. scan_proc is none where the code writes past the end
-- of the array.
--
-- OpenFile (chapter12/exercise_3.c) and UserProcesses (chapter12/exercise_1.c): the walks over /proc, with
-- the files as a parameter. In UserProcesses a pointer that is moved past the end of a text is an outcome
-- of its own.
--
-- SparseCopy (chapter4/cp.c), Tee (chapter4/tee.c) and SeekIo (chapter4/seek_io.c): main, with the output
-- file as its bytes and its offset, or as a log of the calls. teee.c is the same text as tee.c.
--
-- Daemon (chapter37/become_daemon.c): becomeDaemon on the attributes of a process.
--
-- System (chapter27/system.c): system on the signal actions, the mask and errno, in the parent and the
-- child. A wait that has not ended is none.
--
-- Seqnum (chapter44/fifo_seqnum_server.c and fifo_seqnum_client.c): the loop of the server over the rounds
-- so far, and a client from its start to its exit. The two meet in the requests and the replies: the
-- rounds of the server carry what clients have sent. Seqnum.Network puts them together: the server, any
-- number of clients and the FIFOs between them as a step relation, in which clients fail or are killed at
-- any time and the read and the open of the server can fail; its runs refine the loop over the rounds. An
-- open of the server that has found the FIFO of a client goes on waiting when the FIFO is removed. The
-- steps set no bound to seqNum; the theorem on the ranges of the clients has that of int as a hypothesis.
--
-- SigWait (chapter32/pthread_signal.c): a step relation over the signals that are pending for a thread or
-- for the process, and the masks of the threads.
--
-- Rlimit (chapter36/rlimit.c): main, as the lines that it prints, the arguments of close and the limit that
-- is left.
--
-- Acct (chapter28/acct_view.c and acct_v3_view.c): comptToLL, and main over the bytes of
-- the file; a flag tells the two programs apart, and the loop has fuel, which is enough above the number
-- of records.
--
-- FreeSbrk (chapter7/free_and_sbrk.c): main, with the blocks as their indices; the loop of free has
-- fuel, which is enough above the last index.
--
-- Getlogin (chapter40/getlogin.c): every report and main, as the lines that they print; it takes the
-- records of Utmp.
--
-- Utmp (chapter40/utmpx.c): the reports as the records that they show, with the file that the C library
-- has open as state.
--
-- What system calls and library calls return is a parameter of each model, a record named `Kernel` or
-- `Calls`, so a definition covers every branch that a failure takes. Numbers that the code keeps in int
-- are numbers without a bound in Seqnum, ProcessTree, Utmp, ThreadIncr and Tls; FreeSbrk writes the bound of
-- int out, SeekIo and UserProcesses the width of size_t and uid_t, and Acct that of long long.
--
-- Not modelled: tlpi-book/ and tlpi-dist/, which are copies of another project, and lib/, which is a copy
-- of the library of the book; the programs that call one system call and print what it returns; the layout
-- of printed lines; error exits of the programs that are step relations, where a failing call ends the
-- program.
pub mod Prelude
pub mod Acct
pub mod Environment
pub mod LsWc
pub mod Multijoin
pub mod ProcessTree
pub mod SparseCopy
pub mod Cancel
pub mod Cleanup
pub mod Critical
pub mod Daemon
pub mod Tee
pub mod TestCancel
pub mod Tls
pub mod System
pub mod Seqnum
pub mod SigSync
pub mod SigWait
pub mod SimplePipe
pub mod PipeSync
pub mod Getlogin
pub mod Inotify
pub mod PipeExchange
pub mod ThreadIncr
pub mod SeekIo
pub mod Tsd
pub mod UserProcesses
pub mod Sigchld
pub mod FreeSbrk
pub mod OpenFile
pub mod Rlimit
pub mod Utmp
