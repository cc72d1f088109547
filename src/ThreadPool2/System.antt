-- ===== src/ThreadPool2/System.antt =====
-- Pthread/pthread_pool2.0.c: the sections of its clients, workers and manager, in any order.
--
-- Any section of a client or a worker may run at any time, so the sequences of steps here include
-- those that any number of threads run; the manager is one thread, with its local variables. `shutdown` is
-- written without the mutex: a section that reads it twice does what it does with the write before it or
-- after it. `threadPoolDestroy` joins the manager, then frees the tasks and the pool; the joins of the
-- workers on line 233 are given addresses for ids, so nothing is taken from them. There a run ends:
-- another thread that goes on has no pool.
use linux_system_code.Common.{
  ℕ, ◌+◌, ◌-◌, ◌≡◌, Bool, true, false, Option, none, some, List, [], ◌∷◌, ◌++◌, ltb, ◌&&◌, length,
  if◌then◌else◌,
}
use linux_system_code.Store.{malloc_can_return, Store}
use linux_system_code.ThreadPool2.{
  Task, ThreadPool, InitCalls, thread_pool_init, AddOutcome, wait_not_full, add_dropped, added,
  thread_pool_add, WorkOutcome, wait_not_empty, leaves, took, worker, worker_woken, starts_working,
  ends_working, manager_adds, manager_removes, thread_exit, shut_down, free_tasks,
}

-- Where `manager` stands: before the loop's condition, before line 187 and before line 203 with the
-- numbers that it read, or returned.
pub data Manager : Type 0 where
  reads : Manager
  adds : (queuenum livenum : ℕ) → Manager
  removes : (queuenum livenum : ℕ) → Manager
  returned : Manager

-- With histories: the tasks accepted, and taken, and how many workers left because of `exitnum`.
-- `to_start` tasks are taken and not yet run, `to_end` are running.
pub record System : Type 0 where
  pub pool : ThreadPool
  pub manager : Manager
  pub to_start : ℕ
  pub to_end : ℕ
  pub accepted : List Task
  pub taken : List Task
  pub retired : ℕ

pub data Result : Type 0 where
  ok : System → Result
  blocked : Result
  fault : Result
  gone : (left : Store Task) → Result  -- the pool is freed, with what is left of the tasks' memory

abbrev pub add_next : System → Task → Option (AddOutcome × ThreadPool) → Result
add_next s task none = fault
add_next s task (some (wait_not_full, p)) = ok (record s { pool = p })
add_next s task (some (add_dropped, p)) = ok (record s { pool = p })
add_next s task (some (added _, p)) = ok (record s { pool = p; accepted = s.accepted ++ task ∷ [] })

abbrev pub count_if : Bool → ℕ → ℕ
count_if true n = n + 1
count_if false n = n

abbrev pub work_next : System → Option (WorkOutcome × ThreadPool) → Result
work_next s none = fault
work_next s (some (wait_not_empty, p)) = ok (record s { pool = p })
work_next s (some (leaves retired, p)) =
    ok (record s { pool = p; retired = count_if retired s.retired })
work_next s (some (took task, p)) =
    ok (record s { pool = p; taken = s.taken ++ task ∷ []; to_start = s.to_start + 1 })

abbrev pub adds_next : System → (queuenum livenum : ℕ) → Option ThreadPool → Result
adds_next s q l none = fault
adds_next s q l (some p) = ok (record s { pool = p; manager = removes q l })

unfoldable pub manager_next : System → Manager → Result
manager_next s reads =
    if s.pool.shutdown
    then ok (record s { manager = returned })
    else ok (record s { manager = adds (s.pool.queue_size) (s.pool.livenum) })
manager_next s (adds q l) = adds_next s q l (manager_adds q l s.pool)
manager_next s (removes q l) = ok (record s { pool = manager_removes q l s.pool; manager = reads })
manager_next s returned = blocked

pub data Event : Type 0 where
  add : (job : ℕ) → Task → Event
  work : Event
  wake : Event
  start_working : Event
  end_working : Event
  exit : (tid : ℕ) → Event
  manage : Event
  destroy : Event  -- line 224
  free_pool : Event  -- lines 236 to 256

abbrev pub is_returned : Manager → Bool
is_returned returned = true
is_returned _ = false

abbrev pub freed : Option (Store Task) → Result
freed none = fault
freed (some left) = gone left

unfoldable pub step : System → Event → Result
step s (add job task) =
    if malloc_can_return s.pool.tasks job
    then add_next s task (thread_pool_add s.pool job task)
    else blocked
step s work = work_next s (worker s.pool)
step s wake = work_next s (worker_woken s.pool)
step s start_working =
    if ltb 0 s.to_start
    then ok (record s {
      pool = starts_working s.pool;
      to_start = s.to_start - 1;
      to_end = s.to_end + 1;
    })
    else blocked
step s end_working =
    if ltb 0 s.to_end
    then ok (record s { pool = ends_working s.pool; to_end = s.to_end - 1 })
    else blocked
step s (exit tid) = ok (record s { pool = thread_exit s.pool tid })
step s manage = manager_next s s.manager
step s destroy = ok (record s { pool = shut_down s.pool })
step s free_pool =
    if s.pool.shutdown && is_returned s.manager
    then freed (free_tasks (length s.accepted + 1) s.pool.tasks s.pool.head)
    else blocked

abbrev pub init : ThreadPool → System
init p = record {
  pool = p;
  manager = reads;
  to_start = 0;
  to_end = 0;
  accepted = [];
  taken = [];
  retired = 0;
}

-- What `threadPoolInit` sets up with the sizes given, and what runs from there.
pub data Reach (min max queue_size : ℕ) (ids : List ℕ) : System → Type 0 where
  start :
      (c : InitCalls) (p : ThreadPool)
      → thread_pool_init c min max queue_size ids ≡ some p
      → Reach min max queue_size ids (init p)
  later :
      {s t : System} (e : Event)
      → Reach min max queue_size ids s
      → step s e ≡ ok t
      → Reach min max queue_size ids t
