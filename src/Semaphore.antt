-- ===== src/Semaphore.antt =====
-- Pthread/信号量.c: producers put numbers in front of a linked list and consumers take them off,
-- held back by the semaphores `psem` and `csem`.
--
-- The threads of one kind run the same code, and have no live local variable where they can be
-- interrupted, so the state counts how many stand at each place. A step is a call of `sem_wait` or
-- `sem_post`, or what a thread does between `pthread_mutex_lock` and `pthread_mutex_unlock`. The
-- output and the pauses are left out.
mod Defs
pub mod Balance
pub mod Progress
mod Tests
unfoldable pub use Defs.*
