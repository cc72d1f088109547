-- ===== src/PhreadPool/Tests.antt =====
-- Runs of Pthread/phread_pool.c on schedules, and the theorems at states that they reach.
use linux_system_code.Common.{
  Bool, ◌+◌, ℕ, ◌≡◌, ◌≢◌, ◌<◌, ◌⊎◌, refl, true, false, none, some, List, [], ◌∷◌, ◌++◌,
  Option-cases, inl, inr, arith, length, is_none,
}
use mathlib.Core.List.{foldl}
use linux_system_code.Store.{null, write, malloc_can_return}
use linux_system_code.PhreadPool.{
  Job, Pool, InitCalls, threadpool_init, link_job, threadpool_add_job, take_job,
  threadpool_function, run_job, destroy_wait, threadpool_destroy, free_jobs,
}
use linux_system_code.PhreadPool.System.{
  adding, add_waiting, work_waiting, busy, exited, all_exited, System, Event, call_add,
  call_destroy, section, run_callback, broadcast_closed, join_all, step, init, Reach, start, later,
}
use linux_system_code.PhreadPool.Invariant.{Reach-Inv}
use linux_system_code.PhreadPool.Invariant.Defs.{Inv}
use linux_system_code.PhreadPool.Executed.{count, running}
use linux_system_code.PhreadPool.Executed.Once.{accepted_once, all_executed}
use linux_system_code.PhreadPool.Refinement.{Operation, Does, in_of, out_of}
use linux_system_code.PhreadPool.Refinement.Refines.{refines}
use linux_system_code.PhreadPool.Returns.{in_section}
use linux_system_code.PhreadPool.Safety.{no_lost_wakeup, no_fault, workers_run, freed_when_drained}

-- Every call of `threadpool_init` succeeds.
abbrev calls : InitCalls
calls = record {
  pool = 1;
  mutex = 0;
  queue_empty = 0;
  queue_not_empty = 0;
  queue_not_full = 0;
  pthreads = 2;
}

record Run (n m : ℕ) : Type 0 where
  last : System
  reach : Reach calls n m last

-- An event that is not enabled is passed over.
turn : {n m : ℕ} → Run n m → Event → Run n m
turn r e = elim (Option-cases (step r.last e)) [
  | inl _ ↦ r
  | inr (t, eq) ↦ record { last = t; reach = later e r.reach eq }
]

abbrev fresh_pool : ℕ → ℕ → Pool
fresh_pool n m = record {
  thread_num = n;
  queue_max_num = m;
  head = null;
  tail = null;
  queue_cur_num = 0;
  queue_close = false;
  pool_close = false;
  jobs = λ _. none;
}

begin : (n m : ℕ) → Reach calls n m (init (fresh_pool n m))
unfolding threadpool_init
begin n m = start refl

run : (n m : ℕ) → List Event → Run n m
unfolding turn step write threadpool_add_job link_job threadpool_function take_job run_job
    threadpool_destroy destroy_wait begin all_exited
run n m = foldl turn (record { last = init (fresh_pool n m); reach = begin n m })

abbrev job : ℕ → Job
job k = record { callback_function = 7; arg = k }

-- Clients 1 and 2 add the jobs 11 and 12, with one worker that has not started.
abbrev two_jobs : Run 1 3
two_jobs = run 1 3 (call_add 1 (job 11) ∷ section 1 100 ∷ call_add 2 (job 12) ∷ section 2 101 ∷ [])

two_jobs_queued :
    (two_jobs.last.pool.queue_cur_num ≡ 2) × (two_jobs.last.accepted ≡ job 11 ∷ job 12 ∷ [])
unfolding run
two_jobs_queued = (refl, refl)

-- The worker runs job 11 while 12 is queued, and client 3 has called threadpool_destroy.
abbrev closing_queue : Run 1 3
closing_queue = run 1 3 (
    call_add 1 (job 11)
    ∷ section 1 100
    ∷ call_add 2 (job 12)
    ∷ section 2 101
    ∷ section 0 0
    ∷ call_destroy 3
    ∷ section 3 0
    ∷ [])

-- One job was added and run, and the pool was destroyed.
abbrev destroyed : Run 1 3
destroyed = run 1 3 (
    call_add 1 (job 11)
    ∷ section 1 100
    ∷ section 0 0
    ∷ run_callback 0
    ∷ call_destroy 3
    ∷ section 3 0
    ∷ broadcast_closed 3
    ∷ section 0 0
    ∷ join_all 3
    ∷ [])

destroyed_result : (destroyed.last.freed ≡ true) × (destroyed.last.executed ≡ job 11 ∷ [])
unfolding run
destroyed_result = (refl, refl)

-- A client that was woken from its wait for room has not run again when the pool is freed: it goes on
-- with a mutex in freed memory.
abbrev adder_left_behind : Run 1 1
adder_left_behind = run 1 1 (
    call_add 1 (job 11)
    ∷ section 1 100
    ∷ call_add 2 (job 12)
    ∷ section 2 101
    ∷ call_destroy 3
    ∷ section 3 0
    ∷ section 0 0
    ∷ run_callback 0
    ∷ section 3 0
    ∷ broadcast_closed 3
    ∷ section 0 0
    ∷ join_all 3
    ∷ [])

adder_uses_freed_pool :
    (adder_left_behind.last.freed ≡ true)
    × (adder_left_behind.last.pc 2 ≡ adding (job 12))
    × (step adder_left_behind.last (section 2 102) ≡ none)
unfolding run step
adder_uses_freed_pool = (refl, refl, refl)

Reach-Inv_example : Inv two_jobs.last
Reach-Inv_example = Reach-Inv calls 1 3 two_jobs.reach

no_lost_wakeup_example :
    (two_jobs.last.pool.queue_cur_num ≢ 0 → two_jobs.last.pc 0 ≢ work_waiting)
    × ((j : Job)
        → two_jobs.last.pool.queue_cur_num ≢ two_jobs.last.pool.queue_max_num
        → two_jobs.last.pc 0 ≢ add_waiting j)
no_lost_wakeup_example = no_lost_wakeup calls 1 3 two_jobs.reach 0

no_fault_example :
    (in_section (two_jobs.last.pc 0) ≡ true
      → ((j : Job)
          → two_jobs.last.pc 0 ≡ adding j
          → malloc_can_return two_jobs.last.pool.jobs 102 ≡ true)
      → is_none (step two_jobs.last (section 0 102)) ≡ false)
    × ((a : ℕ)
        → two_jobs.last.pc 0 ≡ busy a
        → is_none (step two_jobs.last (run_callback 0)) ≡ false)
unfolding run
no_fault_example = no_fault calls 1 3 two_jobs.reach refl 0 102

workers_run_example :
    (is_none (step two_jobs.last (section 0 null)) ≡ false)
    ⊎ (is_none (step two_jobs.last (run_callback 0)) ≡ false)
unfolding run
workers_run_example = workers_run calls 1 3 two_jobs.reach (omega arith) 0 (omega arith)

freed_when_drained_example :
    (destroyed.last.accepted ≡ destroyed.last.taken)
    × ((i : ℕ) → i < destroyed.last.pool.thread_num → destroyed.last.pc i ≡ exited)
    × (free_jobs 1 destroyed.last.pool.jobs destroyed.last.pool.head
        ≡ some destroyed.last.pool.jobs)
unfolding run
freed_when_drained_example = freed_when_drained calls 1 3 destroyed.reach refl (omega arith)

accepted_once_example :
    (rest : List Job) × (length rest ≡ closing_queue.last.pool.queue_cur_num)
    × ((t : Job → Bool)
        → count t closing_queue.last.accepted
          ≡ count t closing_queue.last.executed
            + running t closing_queue.last.pool.jobs closing_queue.last.pc
                closing_queue.last.pool.thread_num
            + count t rest)
accepted_once_example = accepted_once calls 1 3 closing_queue.reach

all_executed_example :
    count (λ job. true) destroyed.last.accepted ≡ count (λ job. true) destroyed.last.executed
unfolding run
all_executed_example = all_executed calls 1 3 destroyed.reach refl (omega arith) (λ job. true)

-- After both jobs are added the worker takes the first one.
abbrev first_taken : Run 1 3
first_taken =
    run 1 3
      (call_add 1 (job 11) ∷ section 1 100 ∷ call_add 2 (job 12) ∷ section 2 101 ∷ section 0 0 ∷ [])

refines_example :
    (q : List Job) × (q' : List Job) × (o : Operation) × (two_jobs.last.accepted
      ≡ two_jobs.last.taken ++ q)
    × (first_taken.last.accepted ≡ first_taken.last.taken ++ q')
    × Does 3 q o q'
    × (first_taken.last.accepted ≡ two_jobs.last.accepted ++ in_of o)
    × (first_taken.last.taken ≡ two_jobs.last.taken ++ out_of o)
unfolding run step write threadpool_function take_job
refines_example = refines calls 1 3 (section 0 0) two_jobs.reach refl
