-- ===== src/ThreadPool2/Invariant.antt =====
-- What holds in every state of Pthread/pthread_pool2.0.c, whose `threadPoolAdd` counts `livenum` up
-- where it is to count `queueSize`.
pub mod Defs
pub mod Sections
use mathlib.Core.Path.{subst}
use mathlib.Core.Option.{some-injective}
use linux_system_code.Common.{
  ℕ, ◌+◌, ◌-◌, ◌*◌, ◌≡◌, refl, sym, ap, ◌∙◌, Bool, true, false, not, ◌&&◌, Option, none, some, List,
  [], ◌∷◌, ◌++◌, arith, length, length-append, ◌==◌, ltb, if◌then◌else◌, if_elim, Bool-cases, inl,
  inr,
}
use linux_system_code.Store.{Cells, null, values, malloc_can_return}
use linux_system_code.Store.Chains.{values-append, length-values}
use linux_system_code.ThreadPool2.{
  free_tasks, Task, ThreadPool, InitCalls, init_failed, thread_pool_init, AddOutcome, wait_not_full,
  add_dropped, thread_pool_add, link_task, WorkOutcome, wait_not_empty, leaves, take_task, worker,
  worker_woken, starts_working, ends_working, manager_adds, manager_removes, thread_exit, shut_down,
}
use linux_system_code.ThreadPool2.Queue.{IsQueue, Linked, link_task-append, free_tasks_lem}
use linux_system_code.ThreadPool2.System.{
  Manager, reads, adds, removes, returned, System, Result, ok, blocked, fault, gone, free_pool,
  is_returned, freed, add_next, work_next, manager_next, Event, add, work, wake, start_working,
  end_working, exit, manage, destroy, step, init, Reach, start, later,
}
use Defs.{Inv, Good, same, queue_read, if-Good}
use Sections.{add-Good, worker-Good, woken-Good}

module _ (min : ℕ) (s : System) (inv : Inv min s) where
  open inv use {cells}

  managed : (m : Manager) → queue_read m ≡ 0 → Inv min (record s { manager = m })
  managed m z = record {
    cells = cells;
    queue = inv.queue;
    log = inv.log;
    idle = inv.idle;
    size = inv.size;
    minimum = inv.minimum;
    lives = inv.lives;
    none_read = z;
    none_starts = inv.none_starts;
    none_ends = inv.none_ends;
    none_busy = inv.none_busy;
  }

  manager-Good : (m : Manager) → queue_read m ≡ 0 → Good min (manager_next s m)
  unfolding manager_next manager_adds manager_removes
  manager-Good reads z =
      if_elim (Good min) (s.pool.shutdown) (ok (record s { manager = returned }))
        (ok (record s { manager = adds (s.pool.queue_size) (s.pool.livenum) }))
        (λ _. managed returned refl)
        (λ _. managed (adds (s.pool.queue_size) (s.pool.livenum)) inv.size)
  manager-Good (adds q l) z =
      let few : ltb l q ≡ false = ground (arith, z) in rw few (managed (removes q l) z)
  manager-Good (removes q l) z =
      if_elim (λ p. Inv min (record s { pool = p; manager = reads }))
        (ltb (q * 2) l && ltb s.pool.minnum l) (record (s.pool) { exitnum = 2 }) s.pool
        (λ _. record {
          cells = cells;
          queue = record { chain = inv.queue.chain; head = inv.queue.head; tail = inv.queue.tail };
          log = inv.log;
          idle = inv.idle;
          size = inv.size;
          minimum = inv.minimum;
          lives = inv.lives;
          none_read = refl;
          none_starts = inv.none_starts;
          none_ends = inv.none_ends;
          none_busy = inv.none_busy;
        })
        (λ _. managed reads refl)
  manager-Good returned z = tt

  pub step-Good : (e : Event) → Good min (step s e)
  unfolding step starts_working ends_working thread_exit shut_down
  step-Good (add job task) = if-Good min s inv _ _ (λ may. add-Good min s inv job task may)
  step-Good work = worker-Good min s inv s.pool inv.size inv
  step-Good wake = woken-Good min s inv
  step-Good start_working = rw inv.none_starts tt
  step-Good end_working = rw inv.none_ends tt
  step-Good (exit tid) =
      same min s inv _
        (record { chain = inv.queue.chain; head = inv.queue.head; tail = inv.queue.tail }) refl refl
        refl refl
  step-Good manage = manager-Good s.manager inv.none_read
  step-Good destroy =
      same min s inv _
        (record { chain = inv.queue.chain; head = inv.queue.head; tail = inv.queue.tail }) refl refl
        refl refl
  step-Good free_pool = if-Good min s inv (s.pool.shutdown && is_returned s.manager) _ (λ _.
      let (left, runs, same) =
        free_tasks_lem (length s.accepted + 1) s.pool.tasks inv.cells
          (omega (arith, length-values inv.cells, ap length inv.log)) inv.queue.chain in
      let frees : free_tasks (length s.accepted + 1) s.pool.tasks s.pool.head ≡ some left =
        rw inv.queue.head runs in
      subst (λ o. Good min (freed o)) (sym frees) tt)

abbrev state_of : System → Result → System
state_of s (ok t) = t
state_of s _ = s

Good-ok : (min : ℕ) (r : Result) (t : System) → Good min r → r ≡ ok t → Inv min t
Good-ok min (ok u) t g e = subst (Inv min) (ap (state_of u) e) g
Good-ok min blocked t g e = cc
Good-ok min fault t g e = cc
Good-ok min (gone left) t g e = cc

init-Inv :
    (c : InitCalls) (min max queue_size : ℕ) (ids : List ℕ) (p : ThreadPool)
    → thread_pool_init c min max queue_size ids ≡ some p
    → Inv min (init p)
unfolding thread_pool_init
init-Inv c min max queue_size ids p e = elim (Bool-cases (init_failed c)) [
  | inl f ↦ let n : none ≡ some p = rw f at e in cc
  | inr f ↦
      subst (λ p. Inv min (init p)) (some-injective _ p (rw f at e))
        (record {
          cells = [];
          queue = record { chain = tt; head = refl; tail = refl };
          log = refl;
          idle = refl;
          size = refl;
          minimum = refl;
          lives = omega arith;
          none_read = refl;
          none_starts = refl;
          none_ends = refl;
          none_busy = refl;
        })
]

pub Reach-Inv :
    {min max queue_size : ℕ} {ids : List ℕ} {s : System}
    → Reach min max queue_size ids s
    → Inv min s
Reach-Inv (start c p e) = init-Inv c _ _ _ _ p e
Reach-Inv (later e r q) = Good-ok _ _ _ (step-Good _ _ (Reach-Inv r) e) q
