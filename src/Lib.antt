-- ===== src/Lib.antt =====
-- A model of the C programs of this repository: thread pools, producers and consumers, an `ls`
-- command, a shell, and a client with its server, each a program of its own.
--
-- Common: Boolean tests on the native numbers, conditionals, measured lists. Store: the heap of
-- list nodes that the programs under Pthread/ link, and chains in it.
--
-- PhreadPool: Pthread/phread_pool.c. The record Pool is `struct threadpool`; a function per
-- critical section of `threadpool_add_job`, `threadpool_function` and `threadpool_destroy` takes
-- the pool to the next one. PhreadPool.System interleaves the sections of any number of threads,
-- each with a program counter; condition variables are the threads that sleep on them, and
-- wake-ups may be spurious. PhreadPool.Queue relates the linked list to the list of its jobs,
-- PhreadPool.Views says how each section ends, PhreadPool.Returns that the threads go on from there,
-- PhreadPool.Invariant holds what every step keeps, and PhreadPool.Safety what follows from it.
-- PhreadPool.Executed counts the jobs that have been run, and PhreadPool.Refinement has the pool as
-- a bounded queue.
--
-- ThreadPool2: Pthread/pthread_pool2.0.c and its header. The record ThreadPool is `struct
-- ThreadPool`. ThreadPool2.System runs the sections of clients and workers in any order, with the
-- manager's local variables; that includes every run of the program's threads up to the frees of
-- `threadPoolDestroy`, which end it, and more.
-- ThreadPool2.Queue is the task list, ThreadPool2.Slots the array `threadIDs`,
-- ThreadPool2.Invariant what every step keeps, and ThreadPool2.Starved what follows.
--
-- PhreadPool1: Pthread/phread_pool1.0.c, an earlier pool without a bound; PhreadPool1.Queue holds
-- what every step keeps, and PhreadPool1.Safety what follows. The flag `is_shutdown`, which is set
-- without the lock, is read by a worker as it was when the worker read it. PhreadPool1.Threads counts the
-- workers at each place, with the shutdown.
--
-- Semaphore: Pthread/信号量.c. The state counts the threads at each place of `producer` and
-- `consumer`, with the semaphores and the list; a step is a `sem_wait`, a `sem_post`, or a
-- critical section. Semaphore.Balance is about what the semaphores count, and Semaphore.Progress
-- about deadlocks.
--
-- ProducerConsumer: Pthread/生产与消费.c, with a condition variable in place of the semaphores, and
-- CondLock: Pthread/condlock.c, where a signal wakes one thread. Both count the threads at each
-- place; their Invariant modules hold what every step keeps, and their Safety modules what
-- follows. Steps is the result of a step, which they share.
--
-- HashLock: Pthread/hashlock.c, the table `fh` and its objects; HashLock.Table relates it to
-- lists, and HashLock.Counter is the variable `number`.
--
-- LsCommand: ls_command/ls.3.c and ls.h. The State is the global variables `ls`, `count` and
-- `cnd`; the file system is a parameter, what `opendir` with `readdir` and `lstat` answer.
-- LsCommand.Listing and LsCommand.Recursion are about `do_ls`, LsCommand.Sort about `sort`,
-- LsCommand.Mode about `mode_to_letters`, LsCommand.Depth about the recursion, and
-- LsCommand.Records about the array. LsCommand.Output is `dostat`, `show_file_info` and `main`,
-- and LsCommand.Printed what the program prints.
--
-- MyShell: myShell/myshell3.c and myshell2.h. A line goes through `command_split`, whose entries
-- of `L` are the records Vertex, to `execute`, which names the function that runs it
-- (MyShell.Execute). MyShell.Lines reads a line word by word, MyShell.Words takes the words of a line
-- to entries, MyShell.Ends bounds the loops, and MyShell.Run is about what is run. Processes has the
-- trees that `fork` makes; MyShell.Perform is `execute_exe` and the redirections, MyShell.Pipe
-- `execute_pipe`, MyShell.Directory `execute_cddir`, and MyShell.Main the loop of `main` with `fgets`.
-- MyShell.Pipe.Stages, MyShell.Directory.Dash, MyShell.Shells, MyShell.Rounds and MyShell.Session
-- are about what they do.
--
-- Network: network/客户端.cpp (Network.Client) and network/服务端.cpp (Network.Server). A conversation
-- is a list of rounds, with what the kernel answers in each. Network.Descriptors is about the
-- sockets that are left open, Network.Lines about the server's buffer, Network.Talk about the two
-- programs together, Network.Repeats about the end of the input, and Network.Addresses about their
-- `main`.
--
-- Conventions. A read or a write through NULL, through a freed node or out of an array's bounds is
-- a fault, a result of its own. `malloc` returns NULL or an address that is not allocated. A
-- section under a mutex is one step, since no other thread reads or writes what it guards
-- meanwhile. Sizes and counts are taken to be non-negative, and far from the limits of `int`.
--
-- What `argbuf` holds behind a line counts only by whether there is a `|` in it, which the loop over a
-- quoted word looks for. A pool that is freed has no further step.
--
-- Fuel. The loops that free a list take one more round than it has nodes. `do_ls` takes 2: the
-- recursion through `ls_R` is not entered twice (LsCommand.Depth). `turn_round` takes the number
-- of records, and `tokens` the length of the line (MyShell.Ends). The loop of `execute_pipe` takes
-- 8 rounds, the entries of `L` (MyShell.Pipe.Stages). `connect_loop` takes 9, since the seconds
-- double from 1 to 128 (Network.Descriptors).
--
-- Not modelled: the messages on the standard error; `pthread_create` and `pthread_join` beyond
-- when a join returns; the `main` functions under Pthread/ but for the initial values that they
-- set; what `thread_pool_destroy` of phread_pool1.0.c frees; the prompt of the shell;
-- network/服务端.c, where each way through the first round is undefined behaviour.
pub mod Common
pub mod Store
pub mod PhreadPool
pub mod LsCommand
pub mod Semaphore
pub mod ThreadPool2
pub mod MyShell
pub mod Processes
pub mod Steps
pub mod ProducerConsumer
pub mod CondLock
pub mod HashLock
pub mod PhreadPool1
pub mod Network
