-- ===== src/PhreadPool1.antt =====
-- Pthread/phread_pool1.0.c: a thread pool whose queue of jobs has no bound.
--
-- A step is a section under `queue_lock`, or the write of `is_shutdown`, which `thread_pool_destroy`
-- makes without the lock: a worker that has read the flag before the write goes on with its section
-- after it, and takes a job from the pool that is shut down. Any section may run at any time, so the sequences of steps include those of any
-- number of threads. A job that is taken is the worker's own until it has run and is freed, so it is
-- no longer in the store of the jobs that are queued, and its run is left out.
pub mod Queue
pub mod Safety
pub mod Threads
mod Tests
use linux_system_code.Common.{
  ℕ, ◌≡◌, Bool, true, false, not, ◌&&◌, Option, none, some, List, [], ◌∷◌, ◌++◌, ◌==◌,
  if◌then◌else◌, ◌>>=◌,
}
use linux_system_code.Store.{Node, Store, null, node, write, load, malloc_can_return}
use linux_system_code.Steps.{Result, ok, blocked, fault}

pub record Job : Type 0 where
  pub function : ℕ
  pub arg : ℕ

-- With histories: the jobs enqueued, and taken by workers.
pub record Pool : Type 0 where
  pub queue_head : ℕ
  pub queue_tail : ℕ
  pub is_shutdown : Bool
  pub jobs : Store Job
  pub enqueued : List Job
  pub taken : List Job

-- `thread_pool_init`
abbrev pub thread_pool_init : Pool
thread_pool_init = record {
  queue_head = null;
  queue_tail = null;
  is_shutdown = false;
  jobs = λ _. none;
  enqueued = [];
  taken = [];
}

-- Behind the last job, lines 84 and 85.
abbrev pub link_last : Pool → (new_job : ℕ) → Job → Store Job → Option (Node Job) → Result Pool
link_last p new_job job jobs none = fault
link_last p new_job job jobs (some last) = ok (record p {
  queue_tail = new_job;
  jobs = write jobs p.queue_tail (some (node last.value new_job));
  enqueued = p.enqueued ++ job ∷ [];
})

-- `new_job` is what `malloc` returns, whose failure is not tested for.
unfoldable pub thread_pool_enqueue : Pool → (new_job : ℕ) → Job → Result Pool
thread_pool_enqueue p new_job job =
    let jobs = write p.jobs new_job (some (node job null)) in
    if new_job == null
    then fault
    else if p.queue_tail == null
    then ok (record p {
      queue_head = new_job;
      queue_tail = new_job;
      jobs = jobs;
      enqueued = p.enqueued ++ job ∷ [];
    })
    else link_last p new_job job jobs (load jobs p.queue_tail)

-- Lines 119 to 125.
abbrev pub take_job : Pool → Option (Node Job) → Result Pool
take_job p none = fault
take_job p (some next_job) = ok (record p {
  queue_head = next_job.next;
  queue_tail = if next_job.next == null then null else p.queue_tail;
  jobs = write p.jobs p.queue_head none;
  taken = p.taken ++ next_job.value ∷ [];
})

-- A round of `thread_function` up to the unlock, for a worker that has read `is_shutdown` as `seen`; one
-- that waits or exits leaves the pool alone.
unfoldable pub thread_function : Pool → (seen : Bool) → Result Pool
thread_function p seen =
    if (p.queue_head == null) && not seen
    then ok p
    else if seen
    then ok p
    else take_job p (load p.jobs p.queue_head)

pub data Event : Type 0 where
  enqueue : (new_job : ℕ) → Job → Event
  work : (seen : Bool) → Event
  shut_down : Event

unfoldable pub step : Pool → Event → Result Pool
step p (enqueue new_job job) =
    if malloc_can_return p.jobs new_job then thread_pool_enqueue p new_job job else blocked
step p (work seen) = if seen && not p.is_shutdown then blocked else thread_function p seen
step p shut_down = ok (record p { is_shutdown = true })

pub data Reach : Pool → Type 0 where
  start : Reach thread_pool_init
  later : {p q : Pool} (e : Event) → Reach p → step p e ≡ ok q → Reach q
