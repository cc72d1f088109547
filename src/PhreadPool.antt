-- ===== src/PhreadPool.antt =====
-- Pthread/phread_pool.c: a thread pool with a bounded queue of jobs, a linked list between `head`
-- and `tail`.
--
-- Every field but `thread_num` and `queue_max_num` is read and written under `mutex` alone, so the
-- functions here are the code's critical sections: what one thread does from the moment it has the
-- mutex (`pthread_mutex_lock`, or the return of `pthread_cond_wait`) to the moment it lets it go
-- (`pthread_mutex_unlock`, or the next `pthread_cond_wait`). The loop round `pthread_cond_wait`
-- tests its condition again after each return, so both entries lead to the same section. A section
-- returns what the thread does next and the new pool; `none` is a fault. `System` interleaves the
-- sections of any number of threads.
--
-- `thread_num` and `queue_max_num` are taken to be non-negative.
pub mod Queue
pub mod Views
pub mod System
pub mod Invariant
pub mod Returns
pub mod Safety
pub mod Executed
pub mod Refinement
mod Tests
use linux_system_code.Common.{
  ℕ, zero, suc, ◌+◌, ◌-◌, Bool, true, false, not, ◌&&◌, ◌||◌, Option, none, some, ◌==◌,
  if◌then◌else◌, ◌>>=◌,
}
use linux_system_code.Store.{Node, Store, null, node, write, load}

-- The callback and its argument, as addresses; `next` is that of the store's node.
pub record Job : Type 0 where
  pub callback_function : ℕ
  pub arg : ℕ

-- The mutex, the condition variables and the thread ids are part of `System`; `jobs` is the store of
-- the `malloc`ed jobs.
pub record Pool : Type 0 where
  pub thread_num : ℕ
  pub queue_max_num : ℕ
  pub head : ℕ
  pub tail : ℕ
  pub queue_cur_num : ℕ
  pub queue_close : Bool
  pub pool_close : Bool
  pub jobs : Store Job

-- What the calls of `threadpool_init` return: addresses (NULL on failure) and error numbers.
pub record InitCalls : Type 0 where
  pub pool : ℕ
  pub mutex : ℕ
  pub queue_empty : ℕ
  pub queue_not_empty : ℕ
  pub queue_not_full : ℕ
  pub pthreads : ℕ

-- A call that returns an error number failed if that is not 0.
abbrev pub failed : ℕ → Bool
failed code = not (code == 0)

-- `threadpool_init`; `none` is the returned NULL. The threads that it creates are those of
-- `System.init`.
unfoldable pub threadpool_init : InitCalls → ℕ → ℕ → Option Pool
threadpool_init c thread_num queue_max_num =
    if c.pool == null
    then none
    else if failed c.mutex
    then none
    else if failed c.queue_empty
    then none
    else if failed c.queue_not_empty
    then none
    else if failed c.queue_not_full
    then none
    else if c.pthreads == null
    then none
    else some (record {
      thread_num = thread_num;
      queue_max_num = queue_max_num;
      head = null;
      tail = null;
      queue_cur_num = 0;
      queue_close = false;
      pool_close = false;
      jobs = λ _. none;
    })

-- How a section of `threadpool_add_job` ends.
pub data AddOutcome : Type 0 where
  wait_not_full : AddOutcome  -- pthread_cond_wait on queue_not_full
  add_refused : AddOutcome  -- return -1
  added : (broadcast_not_empty : Bool) → AddOutcome  -- return 0

-- Linking the new job behind the others, from the test of `head` on.
unfoldable pub link_job : Pool → ℕ → Job → Option (AddOutcome × Pool)
link_job p pjob job =
    let jobs = write p.jobs pjob (some (node job null)) in
    if p.head == null
    then some (
      added true,
      record p { head = pjob; tail = pjob; queue_cur_num = p.queue_cur_num + 1; jobs = jobs },
    )
    else do
      last ← load jobs p.tail
      some (
        added false,
        record p {
          tail = pjob;
          queue_cur_num = p.queue_cur_num + 1;
          jobs = write jobs p.tail (some (node last.value pjob));
        },
      )

-- `threadpool_add_job` from line 98 on; `pjob` is what `malloc` returns.
unfoldable pub threadpool_add_job : Pool → ℕ → Job → Option (AddOutcome × Pool)
threadpool_add_job p pjob job =
    if (p.queue_cur_num == p.queue_max_num) && not (p.queue_close || p.pool_close)
    then some (wait_not_full, p)
    else if p.queue_close || p.pool_close
    then some (add_refused, p)
    else if pjob == null
    then some (add_refused, p)
    else link_job p pjob job

-- How a section of `threadpool_function` ends: in a wait, in `pthread_exit`, or with the job `pjob`
-- to run and the condition variables that were signalled.
pub data WorkOutcome : Type 0 where
  wait_not_empty : WorkOutcome
  exit_thread : WorkOutcome
  took : (pjob : ℕ) (signal_empty broadcast_not_full : Bool) → WorkOutcome

-- The removal of the first job, from line 147 on. The count is not 0 there. On the numbers, which
-- stop at 0, the test `queue_cur_num == queue_max_num - 1` is written with `+ 1`.
unfoldable pub take_job : Pool → Option (WorkOutcome × Pool)
take_job p =
    let n = p.queue_cur_num - 1 in
    let out = took p.head (n == 0) (n + 1 == p.queue_max_num) in
    if n == 0
    then some (out, record p { head = null; tail = null; queue_cur_num = n })
    else do pjob ← load p.jobs p.head; some (out, record p { head = pjob.next; queue_cur_num = n })

-- One round of `threadpool_function` up to the unlock.
unfoldable pub threadpool_function : Pool → Option (WorkOutcome × Pool)
threadpool_function p =
    if (p.queue_cur_num == 0) && not p.pool_close
    then some (wait_not_empty, p)
    else if p.pool_close
    then some (exit_thread, p)
    else take_job p

-- The rest of the round, outside the mutex: the callback runs, then its job is freed. The job that
-- was run is returned.
unfoldable pub run_job : Store Job → ℕ → Option (Job × Store Job)
run_job jobs pjob = do n ← load jobs pjob; some (n.value, write jobs pjob none)

-- How a section of `threadpool_destroy` ends.
pub data DestroyOutcome : Type 0 where
  destroy_refused : DestroyOutcome  -- return -1
  wait_empty : DestroyOutcome  -- pthread_cond_wait on queue_empty
  closed : DestroyOutcome  -- the mutex is unlocked, the broadcasts and the joins follow

-- The wait for an empty queue, lines 183 to 189.
unfoldable pub destroy_wait : Pool → DestroyOutcome × Pool
destroy_wait p =
    if p.queue_cur_num == 0 then (closed, record p { pool_close = true }) else (wait_empty, p)

-- `threadpool_destroy`, lines 176 to 189.
unfoldable pub threadpool_destroy : Pool → DestroyOutcome × Pool
threadpool_destroy p =
    if p.queue_close || p.pool_close
    then (destroy_refused, p)
    else destroy_wait (record p { queue_close = true })

-- The loop of `threadpool_destroy` that frees the jobs left, lines 204 to 209.
unfoldable pub free_jobs : ℕ → Store Job → ℕ → Option (Store Job)
free_jobs zero jobs head = none
free_jobs (suc fuel) jobs head =
    if head == null
    then some jobs
    else do p ← load jobs head; free_jobs fuel (write jobs head none) p.next
