-- ===== src/ThreadPool2/Tests.antt =====
-- Runs of Pthread/pthread_pool2.0.c: a pool with one worker, whose thread id is 7, two slots and a
-- capacity of 3.
use linux_system_code.Common.{ℕ, ◌≡◌, refl, arith, true, false, none, some, [], ◌∷◌}
use linux_system_code.Store.{Store, Cells, null, node, write, first, values, Chain}
use linux_system_code.ThreadPool2.{
  Task, ThreadPool, InitCalls, thread_pool_init, thread_pool_add, link_task, worker, worker_woken,
  adds_threads, manager_adds, manager_removes,
}
use linux_system_code.ThreadPool2.System.{
  System, Result, ok, Event, add, wake, manage, returned, manager_next, step, init, Reach, start,
  later,
}
use linux_system_code.ThreadPool2.Starved.{nothing_runs, capacity_ignored}

abbrev calls : InitCalls
calls = record {
  pool = 1;
  thread_ids = 2;
  mutexpool = 0;
  mutex_busy = 0;
  not_empty = 0;
  not_full = 0;
}

abbrev new_pool : ThreadPool
new_pool = record {
  queue_capacity = 3;
  queue_size = 0;
  head = null;
  tail = null;
  thread_ids = 7 ∷ 0 ∷ [];
  maxnum = 2;
  minnum = 1;
  busynum = 0;
  livenum = 1;
  exitnum = 0;
  shutdown = false;
  tasks = λ _. none;
}

abbrev task : Task
task = record { function = 20; arg = 21 }

abbrev one_added : System
one_added = record (init new_pool) {
  pool = record new_pool {
    head = 10;
    tail = 10;
    livenum = 2;
    tasks = write (λ _. none) 10 (some (node task null));
  };
  accepted = task ∷ [];
}

new-Reach : Reach 1 2 3 (7 ∷ []) (init new_pool)
unfolding thread_pool_init
new-Reach = start calls new_pool refl

one_added-Reach : Reach 1 2 3 (7 ∷ []) one_added
unfolding step thread_pool_add link_task
one_added-Reach = later (add 10 task) new-Reach refl

-- The only worker is told to leave once a task is queued, and leaves: no thread is left to run it.
abbrev then_step : Result → Event → Result
then_step (ok s) e = step s e
then_step r e = r

abbrev retired_in : Result → ℕ
retired_in (ok s) = s.retired
retired_in _ = 0

last_worker_leaves :
    retired_in (then_step (then_step (then_step (step one_added manage) manage) manage) wake) ≡ 1
unfolding step manager_next manager_adds manager_removes worker_woken worker
last_worker_leaves = refl

nothing_runs_example :
    (one_added.taken ≡ [])
    × (cells : Cells Task) × Chain one_added.pool.tasks cells
    × (one_added.pool.head ≡ first cells)
    × (values cells ≡ one_added.accepted)
nothing_runs_example = nothing_runs one_added-Reach

eleven_free : one_added.pool.tasks 11 ≡ none
unfolding write
eleven_free = refl

capacity_ignored_example :
    (t : System) × (step one_added (add 11 task) ≡ ok t) × (t.accepted ≡ task ∷ task ∷ [])
capacity_ignored_example =
    capacity_ignored one_added-Reach 11 task (λ e. omega arith) refl (λ e. omega arith) eleven_free

-- The pool is shut down and the manager returns, with a task queued.
abbrev shut : System
shut = record one_added { pool = record (one_added.pool) { shutdown = true }; manager = returned }

-- With 5 tasks queued and 1 thread alive, both slots taken, the manager does nothing.
abbrev full_pool : ThreadPool
full_pool = record new_pool { thread_ids = 7 ∷ 8 ∷ [] }

manager_runs : manager_adds 5 1 full_pool ≡ some full_pool
unfolding manager_adds adds_threads
manager_runs = refl
