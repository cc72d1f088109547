-- ===== src/ThreadPool2/Invariant/Sections.antt =====
-- The sections of `threadPoolAdd` and `worker` in Pthread/pthread_pool2.0.c keep the invariant.
use linux_system_code.Common.{
  ℕ, ◌+◌, ◌-◌, ◌≡◌, refl, sym, ap, ◌∙◌, Bool, true, false, not, ◌&&◌, Option, some, List, [], ◌∷◌,
  ◌++◌, arith, length-append, ◌==◌, ltb, if◌then◌else◌, if_elim,
}
use linux_system_code.Store.{null, malloc_can_return}
use linux_system_code.Store.Chains.{values-append}
use linux_system_code.ThreadPool2.{
  Task, ThreadPool, AddOutcome, wait_not_full, add_dropped, thread_pool_add, link_task, WorkOutcome,
  wait_not_empty, leaves, take_task, worker, worker_woken,
}
use linux_system_code.ThreadPool2.Queue.{Linked, link_task-append}
use linux_system_code.ThreadPool2.System.{System, add_next, work_next}
use linux_system_code.ThreadPool2.Invariant.Defs.{Inv, Good, same}

module _ (min : ℕ) (s : System) (inv : Inv min s) where
  open inv use {cells}

  linked :
      (job : ℕ) (task : Task)
      → Linked s.pool cells job task
      → Good min (add_next s task (link_task s.pool job task))
  linked job task l = rw l.runs (record {
    cells = cells ++ (job, task) ∷ [];
    queue = l.queue;
    log = ap (λ (t : List Task). t ++ task ∷ []) inv.log ∙ sym (values-append cells job task);
    idle = inv.idle;
    size = inv.size;
    minimum = inv.minimum;
    lives = omega (arith, inv.lives, length-append s.accepted (task ∷ []));
    none_read = inv.none_read;
    none_starts = inv.none_starts;
    none_ends = inv.none_ends;
    none_busy = inv.none_busy;
  })

  pub add-Good :
      (job : ℕ) (task : Task)
      → malloc_can_return s.pool.tasks job ≡ true
      → Good min (add_next s task (thread_pool_add s.pool job task))
  unfolding thread_pool_add
  add-Good job task may =
      let P : Option (AddOutcome × ThreadPool) → Type 0 = λ r. Good min (add_next s task r) in
      let link : Option (AddOutcome × ThreadPool) = link_task s.pool job task in
      let alone : Option (AddOutcome × ThreadPool) = some (add_dropped, s.pool) in
      let made : Option (AddOutcome × ThreadPool) = if job == null then alone else link in
      if_elim P (not s.pool.shutdown && (s.pool.queue_size == s.pool.queue_capacity))
        (some (wait_not_full, s.pool)) (if s.pool.shutdown then alone else made) (λ _. inv)
        (λ _.
          if_elim P s.pool.shutdown alone made (λ _. inv)
            (λ _.
              if_elim P (job == null) alone link (λ _. inv)
                (λ nz. linked job task (
                  link_task-append s.pool cells job task inv.queue (ground arith) (ground arith)))))

  -- No task is ever taken: `queueSize` is 0.
  pub worker-Good :
      (p : ThreadPool)
      → p.queue_size ≡ 0
      → Inv min (record s { pool = p })
      → Good min (work_next s (worker p))
  unfolding worker
  worker-Good p z i =
      let P : Option (WorkOutcome × ThreadPool) → Type 0 = λ r. Good min (work_next s r) in
      if_elim P ((p.queue_size == 0) && not p.shutdown) (some (wait_not_empty, p))
        (if p.shutdown then some (leaves false, p) else take_task p) (λ _. i)
        (λ w.
          if_elim P p.shutdown (some (leaves false, p)) (take_task p) (λ _. i)
            (λ d. absurd (ground (arith, z))))

  -- A worker leaves because of `exitnum` only if there are more than `minnum`.
  left :
      ltb s.pool.minnum s.pool.livenum ≡ true
      → Inv min (record s {
        pool = record (s.pool) { exitnum = s.pool.exitnum - 1; livenum = s.pool.livenum - 1 };
        retired = s.retired + 1;
      })
  left l = record {
    cells = cells;
    queue = record { chain = inv.queue.chain; head = inv.queue.head; tail = inv.queue.tail };
    log = inv.log;
    idle = inv.idle;
    size = inv.size;
    minimum = inv.minimum;
    lives = ground (arith, inv.lives);
    none_read = inv.none_read;
    none_starts = inv.none_starts;
    none_ends = inv.none_ends;
    none_busy = inv.none_busy;
  }

  pub woken-Good : Good min (work_next s (worker_woken s.pool))
  unfolding worker_woken
  woken-Good =
      let P : Option (WorkOutcome × ThreadPool) → Type 0 = λ r. Good min (work_next s r) in
      let fewer : ThreadPool = record (s.pool) { exitnum = s.pool.exitnum - 1 } in
      let leaving : Option (WorkOutcome × ThreadPool) =
        some (leaves true, record fewer { livenum = s.pool.livenum - 1 }) in
      let more : Bool = ltb s.pool.minnum s.pool.livenum in
      if_elim P (ltb 0 s.pool.exitnum) (if more then leaving else worker fewer) (worker s.pool)
        (λ _. if_elim P more leaving (worker fewer) left (λ _. worker-Good fewer inv.size (
          same min s inv fewer
            (record { chain = inv.queue.chain; head = inv.queue.head; tail = inv.queue.tail }) refl
            refl refl refl)))
        (λ _. worker-Good s.pool inv.size inv)
