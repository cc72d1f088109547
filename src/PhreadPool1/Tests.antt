-- ===== src/PhreadPool1/Tests.antt =====
-- Runs of Pthread/phread_pool1.0.c: a job is enqueued, then the pool is shut down before it is taken.
use linux_system_code.Common.{
  ◌+◌, ◌<◌, List, arith, ◌≡◌, refl, true, false, none, some, [], ◌∷◌, ◌++◌,
}
use linux_system_code.Store.{Cells, null, node, write, first, last, values, Chain}
use linux_system_code.Steps.{ok}
use linux_system_code.PhreadPool1.{
  Job, Pool, thread_pool_init, thread_pool_enqueue, thread_function, enqueue, work, shut_down, step,
  Reach, start, later,
}
use linux_system_code.PhreadPool1.Threads.{
  joining, Threads, signalled, tested, Event, init, Reaches,
}
use linux_system_code.PhreadPool1.Threads
use linux_system_code.PhreadPool1.Threads.Safety.{wakes_none, runs, worker_awake, missed_broadcast}
use linux_system_code.PhreadPool1.Safety.{fifo}

abbrev hello : Job
hello = record { function = 20; arg = 21 }

abbrev one_job : Pool
one_job = record thread_pool_init {
  queue_head = 10;
  queue_tail = 10;
  jobs = write (λ _. none) 10 (some (node hello null));
  enqueued = hello ∷ [];
}

one_job-Reach : Reach one_job
unfolding step thread_pool_enqueue
one_job-Reach = later (enqueue 10 hello) start refl

abbrev shut : Pool
shut = record one_job { is_shutdown = true }

shut-Reach : Reach shut
unfolding step
shut-Reach = later shut_down one_job-Reach refl

fifo_example :
    (cells : Cells Job) × Chain one_job.jobs cells
    × (one_job.queue_head ≡ first cells)
    × (one_job.queue_tail ≡ last cells)
    × (one_job.enqueued ≡ one_job.taken ++ values cells)
fifo_example = fifo one_job-Reach

-- A worker that has read the flag before it was set takes the job afterwards.
taken_after_shutdown :
    step shut (work false)
    ≡ ok (record shut {
      queue_head = null;
      queue_tail = null;
      jobs = write shut.jobs 10 none;
      taken = hello ∷ [];
    })
unfolding step thread_function write
taken_after_shutdown = refl

-- One worker, before the lock, with a job in the queue; and one between its test and its wait.
abbrev with_job : Threads
with_job = record (init 1) { pool = one_job }

with_job-Reaches : Reaches 1 with_job
unfolding Threads.step signalled thread_pool_enqueue
with_job-Reaches = Reaches.later (Event.enqueue 10 hello) Reaches.start refl

worker_awake_example : 0 < with_job.ready + with_job.running
worker_awake_example = worker_awake 1 with_job-Reaches (omega arith) refl (λ q. cc)

abbrev about_to_wait : Threads
about_to_wait = record (init 1) { ready = 0; deciding = 1 }

about_to_wait-Reaches : Reaches 1 about_to_wait
unfolding Threads.step tested
about_to_wait-Reaches = Reaches.later Event.test Reaches.start refl

missed_broadcast_example :
    (u : Threads) × (runs (Event.shut_down ∷ Event.wake_all ∷ Event.wait ∷ []) (ok about_to_wait)
      ≡ ok u)
    × ((es : List Event) (t : Threads)
        → wakes_none es ≡ true
        → runs es (ok u) ≡ ok t
        → (t.destroyer ≡ joining) × (0 < t.sleeping))
missed_broadcast_example = missed_broadcast 1 about_to_wait-Reaches refl (omega arith)
