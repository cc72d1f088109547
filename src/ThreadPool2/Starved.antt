-- ===== src/ThreadPool2/Starved.antt =====
-- What the invariant of Pthread/pthread_pool2.0.c means for its users.
use mathlib.Core.Path.{subst}
use linux_system_code.Common.{
  ℕ, ◌+◌, ◌≡◌, ◌≢◌, refl, sym, ap, true, false, none, List, [], ◌∷◌, ◌++◌, arith, length, ◌==◌,
}
use linux_system_code.Store.{malloc_can_return, Store, Cells, null, first, values, Chain}
use linux_system_code.ThreadPool2.{Task, link_task, thread_pool_add}
use linux_system_code.ThreadPool2.Queue.{Linked, link_task-append}
use linux_system_code.ThreadPool2.System.{
  System, Result, ok, fault, Event, add, add_next, step, Reach,
}
use linux_system_code.ThreadPool2.Invariant.{Reach-Inv, step-Good}
use linux_system_code.ThreadPool2.Invariant.Defs.{Inv, Good}

module _ {min max queue_size : ℕ} {ids : List ℕ} {s : System}
    (r : Reach min max queue_size ids s) where
  inv : Inv min s
  inv = Reach-Inv r

  -- No worker ever takes a task: those that threadPoolAdd has accepted are all linked from head, in
  -- the order in which they were accepted.
  pub nothing_runs :
      (s.taken ≡ [])
      × (cells : Cells Task) × Chain s.pool.tasks cells
      × (s.pool.head ≡ first cells)
      × (values cells ≡ s.accepted)
  nothing_runs = (inv.idle, inv.cells, inv.queue.chain, inv.queue.head, sym inv.log)

  fault-Good : (x : Result) → Good min x → x ≢ fault
  fault-Good _ g e = subst (Good min) e g

  -- Until threadPoolDestroy frees the pool, no section of a client, a worker or the manager reads or
  -- writes through NULL or a task that is not allocated, and the frees themselves do not either.
  pub sections_run : (e : Event) → step s e ≢ fault
  sections_run e = fault-Good _ (step-Good min s inv e)

  -- livenum is the number of threads at the start, and one more for each task accepted, less the
  -- workers that have left because of exitnum.
  pub livenum_counts : s.pool.livenum + s.retired ≡ min + length s.accepted
  livenum_counts = inv.lives

  accepts :
      (job : ℕ) (task : Task)
      → Linked s.pool inv.cells job task
      → (t : System) × (add_next s task (link_task s.pool job task) ≡ ok t)
        × (t.accepted ≡ s.accepted ++ task ∷ [])
  accepts job task l = (_, ap (add_next s task) l.runs, refl)

  -- queueCapacity does not bound the queue: unless it is 0, threadPoolAdd on a pool that is not shut
  -- down links its task, however many are queued, when malloc returns a new address.
  pub capacity_ignored :
      (job : ℕ) (task : Task)
      → s.pool.queue_capacity ≢ 0
      → s.pool.shutdown ≡ false
      → job ≢ null
      → s.pool.tasks job ≡ none
      → (t : System) × (step s (add job task) ≡ ok t) × (t.accepted ≡ s.accepted ++ task ∷ [])
  unfolding step thread_pool_add
  capacity_ignored job task c d nonnull fresh =
      let l =
        accepts job task (link_task-append s.pool inv.cells job task inv.queue nonnull fresh) in
      let may : malloc_can_return s.pool.tasks job ≡ true = ground arith in
      let room : (s.pool.queue_size == s.pool.queue_capacity) ≡ false = ground (arith, inv.size) in
      let new : (job == null) ≡ false = ground arith in
      let links : thread_pool_add s.pool job task ≡ link_task s.pool job task =
        rw (room, d, new) refl in
      (l.0, rw (may, links) l.1, l.2)
