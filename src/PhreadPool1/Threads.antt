-- ===== src/PhreadPool1/Threads.antt =====
-- The threads of Pthread/phread_pool1.0.c: workers, counted by the place where they stand, the thread that calls
-- `thread_pool_destroy`, and any number of others that call `thread_pool_enqueue`.
--
-- `thread_pool_destroy` writes the flag and broadcasts without `queue_lock`. So the test of a worker and
-- its wait are two steps, between which the worker has the lock. A signal wakes one worker that sleeps,
-- and a worker may wake for no reason.
pub mod Histories
pub mod Invariant
pub mod Safety
use linux_system_code.Common.{
  ℕ, ◌+◌, ◌-◌, ◌≡◌, Bool, true, false, not, ◌&&◌, ltb, ◌==◌, if◌then◌else◌,
}
use linux_system_code.Store.{null, load, malloc_can_return}
use linux_system_code.Steps.{Result, ok, blocked, fault}
use linux_system_code.PhreadPool1.{Job, Pool, thread_pool_init, thread_pool_enqueue, take_job}

-- Where the thread stands that calls `thread_pool_destroy`.
pub data Destroyer : Type 0 where
  outside : Destroyer
  flagged : Destroyer  -- before the broadcast
  joining : Destroyer
  destroyed : Destroyer

pub record Threads : Type 0 where
  pub pool : Pool
  pub num_threads : ℕ
  pub ready : ℕ  -- before the lock
  pub deciding : ℕ  -- between the test on line 105 and the wait
  pub sleeping : ℕ
  pub running : ℕ  -- run a job
  pub exited : ℕ
  pub destroyer : Destroyer

-- After `thread_pool_enqueue`, whose signal wakes one worker.
unfoldable pub signalled : Threads → Result Pool → Result Threads
signalled s fault = fault
signalled s blocked = blocked
signalled s (ok p) =
    if s.sleeping == 0
    then ok (record s { pool = p })
    else ok (record s { pool = p; sleeping = s.sleeping - 1; ready = s.ready + 1 })

-- A worker that has taken a job.
unfoldable pub took : Threads → Result Pool → Result Threads
took s fault = fault
took s blocked = blocked
took s (ok p) = ok (record s { pool = p; ready = s.ready - 1; running = s.running + 1 })

-- A worker with the lock, lines 105 to 128.
unfoldable pub tested : Threads → Result Threads
tested s =
    if (s.pool.queue_head == null) && not s.pool.is_shutdown
    then ok (record s { ready = s.ready - 1; deciding = s.deciding + 1 })
    else if s.pool.is_shutdown
    then ok (record s { ready = s.ready - 1; exited = s.exited + 1 })
    else took s (take_job s.pool (load s.pool.jobs s.pool.queue_head))

-- The steps of `thread_pool_destroy`.
unfoldable pub set_shutdown : Threads → Destroyer → Result Threads
set_shutdown s outside =
    ok (record s { pool = record (s.pool) { is_shutdown = true }; destroyer = flagged })
set_shutdown s _ = blocked

unfoldable pub broadcast : Threads → Destroyer → Result Threads
broadcast s flagged =
    ok (record s { ready = s.ready + s.sleeping; sleeping = 0; destroyer = joining })
broadcast s _ = blocked

unfoldable pub join : Threads → Destroyer → Result Threads
join s joining =
    if s.exited == s.num_threads then ok (record s { destroyer = destroyed }) else blocked
join s _ = blocked

pub data Event : Type 0 where
  enqueue : (new_job : ℕ) → Job → Event
  test : Event
  wait : Event
  wake : Event
  run : Event
  shut_down : Event
  wake_all : Event
  join_all : Event

unfoldable pub step : Threads → Event → Result Threads
step s (enqueue new_job job) =
    if (s.deciding == 0) && malloc_can_return s.pool.jobs new_job
    then signalled s (thread_pool_enqueue s.pool new_job job)
    else blocked
step s test = if ltb 0 s.ready && (s.deciding == 0) then tested s else blocked
step s wait =
    if ltb 0 s.deciding
    then ok (record s { deciding = s.deciding - 1; sleeping = s.sleeping + 1 })
    else blocked
step s wake =
    if ltb 0 s.sleeping
    then ok (record s { sleeping = s.sleeping - 1; ready = s.ready + 1 })
    else blocked
step s run =
    if ltb 0 s.running
    then ok (record s { running = s.running - 1; ready = s.ready + 1 })
    else blocked
step s shut_down = set_shutdown s s.destroyer
step s wake_all = broadcast s s.destroyer
step s join_all = join s s.destroyer

-- After `thread_pool_init` of so many threads.
abbrev pub init : ℕ → Threads
init num_threads = record {
  pool = thread_pool_init;
  num_threads = num_threads;
  ready = num_threads;
  deciding = 0;
  sleeping = 0;
  running = 0;
  exited = 0;
  destroyer = outside;
}

pub data Reaches (num_threads : ℕ) : Threads → Type 0 where
  start : Reaches num_threads (init num_threads)
  later :
      {s t : Threads} (e : Event) → Reaches num_threads s → step s e ≡ ok t → Reaches num_threads t
