-- ===== src/PhreadPool/System.antt =====
-- The threads of Pthread/phread_pool.c, interleaved: the workers that `threadpool_init` creates, and
-- any number of clients that call `threadpool_add_job` and `threadpool_destroy`.
--
-- A thread stands before a section, asleep on a condition variable, or between two sections. A step
-- is one section of one thread, or what a thread does between sections. `pthread_cond_broadcast`
-- wakes all that sleep on the condition variable, `pthread_cond_signal` on `queue_empty` too: at
-- most one thread sleeps there, see `Safety`. Any thread may also wake for no reason (`spurious`).
use linux_system_code.Common.{
  ℕ, zero, suc, ◌≡◌, refl, Bool, true, false, not, ◌&&◌, Option, none, some, List, [], ◌∷◌, ◌++◌,
  ltb, ◌==◌, if◌then◌else◌,
}
use linux_system_code.Store.{Store, malloc_can_return, null}
use linux_system_code.PhreadPool.{
  Job, Pool, InitCalls, threadpool_init, AddOutcome, wait_not_full, add_refused, added,
  threadpool_add_job, WorkOutcome, wait_not_empty, exit_thread, took, threadpool_function, run_job,
  DestroyOutcome, destroy_refused, wait_empty, closed, threadpool_destroy, destroy_wait,
}

-- Where a thread stands.
pub data Pc : Type 0 where
  client : Pc  -- outside the pool's functions
  adding : Job → Pc  -- threadpool_add_job, before its section
  add_waiting : Job → Pc  -- asleep on queue_not_full
  working : Pc  -- threadpool_function, before its section
  work_waiting : Pc  -- asleep on queue_not_empty
  busy : (pjob : ℕ) → Pc  -- runs the callback of `pjob`
  exited : Pc  -- after pthread_exit
  destroying : Pc  -- threadpool_destroy, before its section
  destroy_waiting : Pc  -- asleep on queue_empty
  destroy_resuming : Pc  -- awake again, before the rest of the section
  closing : Pc  -- before the broadcasts of threadpool_destroy
  joining : Pc  -- in the joins of threadpool_destroy

-- `accepted`, `taken`, `executed` and `owner` are no part of the program: the jobs for which
-- `threadpool_add_job` returned 0, those that workers have taken, those whose callback has run, in
-- order, and the thread whose `threadpool_destroy` closed the queue. `freed` says that
-- `threadpool_destroy` has freed the pool.
pub record System : Type 0 where
  pub pool : Pool
  pub pc : ℕ → Pc
  pub freed : Bool
  pub accepted : List Job
  pub taken : List Job
  pub executed : List Job
  pub owner : ℕ

abbrev pub set_pc : (ℕ → Pc) → ℕ → Pc → ℕ → Pc
set_pc f i p j = if i == j then p else f j

abbrev pub wake_not_empty : Bool → Pc → Pc
wake_not_empty b work_waiting = if b then working else work_waiting
wake_not_empty b p = p

abbrev pub wake_not_full : Bool → Pc → Pc
wake_not_full b (add_waiting job) = if b then adding job else add_waiting job
wake_not_full b p = p

abbrev pub wake_empty : Bool → Pc → Pc
wake_empty b destroy_waiting = if b then destroy_resuming else destroy_waiting
wake_empty b p = p

-- The threads after a thread's section: the signals wake the sleepers, then it stands at `p`.
abbrev pub after_add : System → ℕ → Pc → Bool → ℕ → Pc
after_add s i p b = set_pc (λ j. wake_not_empty b (s.pc j)) i p

abbrev pub after_work : System → ℕ → Pc → (empty not_full : Bool) → ℕ → Pc
after_work s i p e f = set_pc (λ j. wake_empty e (wake_not_full f (s.pc j))) i p

unfoldable pub add_next : System → ℕ → Job → Option (AddOutcome × Pool) → Option System
add_next s i job none = none
add_next s i job (some (wait_not_full, p)) =
    some (record s { pool = p; pc = set_pc s.pc i (add_waiting job) })
add_next s i job (some (add_refused, p)) = some (record s { pool = p; pc = set_pc s.pc i client })
add_next s i job (some (added b, p)) =
    some (record s { pool = p; pc = after_add s i client b; accepted = s.accepted ++ job ∷ [] })

-- The value of the job at `p` in the store, for the history.
abbrev pub job_at : Pool → ℕ → List Job
job_at p a = elim (p.jobs a) [ none ↦ [] | some n ↦ n.value ∷ [] ]

unfoldable pub work_next : System → ℕ → Option (WorkOutcome × Pool) → Option System
work_next s i none = none
work_next s i (some (wait_not_empty, p)) =
    some (record s { pool = p; pc = set_pc s.pc i work_waiting })
work_next s i (some (exit_thread, p)) = some (record s { pool = p; pc = set_pc s.pc i exited })
work_next s i (some (took a e f, p)) =
    some
      (record s { pool = p; pc = after_work s i (busy a) e f; taken = s.taken ++ job_at s.pool a })

unfoldable pub run_next : System → ℕ → Option (Job × Store Job) → Option System
run_next s i none = none
run_next s i (some (job, jobs)) = some (record s {
  pool = record (s.pool) { jobs = jobs };
  pc = set_pc s.pc i working;
  executed = s.executed ++ job ∷ [];
})

unfoldable pub destroy_next : System → ℕ → DestroyOutcome × Pool → System
destroy_next s i (destroy_refused, p) = record s { pool = p; pc = set_pc s.pc i client }
destroy_next s i (wait_empty, p) = record s {
  pool = p;
  pc = set_pc s.pc i destroy_waiting;
  owner = i;
}
destroy_next s i (closed, p) = record s { pool = p; pc = set_pc s.pc i closing; owner = i }

abbrev pub is_exited : Pc → Bool
is_exited exited = true
is_exited _ = false

-- The joins return when each of the first `n` threads has exited.
unfoldable pub all_exited : ℕ → (ℕ → Pc) → Bool
all_exited zero f = true
all_exited (suc n) f = is_exited (f n) && all_exited n f

-- What happens next, and to which thread. `section` carries what `malloc` returns.
pub data Event : Type 0 where
  call_add : (i : ℕ) → Job → Event
  call_destroy : (i : ℕ) → Event
  section : (i fresh : ℕ) → Event
  run_callback : (i : ℕ) → Event
  broadcast_closed : (i : ℕ) → Event
  join_all : (i : ℕ) → Event
  spurious : (i : ℕ) → Event

-- The asserts at the head of `threadpool_add_job`.
abbrev pub asserts_hold : Job → Bool
asserts_hold job = not (job.callback_function == null) && not (job.arg == null)

unfoldable pub enter : System → ℕ → Pc → Pc → Option System
enter s i client p = some (record s { pc = set_pc s.pc i p })
enter s i _ p = none

unfoldable pub run_section : System → ℕ → ℕ → Pc → Option System
unfolding add_next work_next destroy_next
run_section s i fresh (adding job) =
    if malloc_can_return s.pool.jobs fresh
    then add_next s i job (threadpool_add_job s.pool fresh job)
    else none
run_section s i fresh working = work_next s i (threadpool_function s.pool)
run_section s i fresh destroying = some (destroy_next s i (threadpool_destroy s.pool))
run_section s i fresh destroy_resuming = some (destroy_next s i (destroy_wait s.pool))
run_section s i fresh _ = none

unfoldable pub run_busy : System → ℕ → Pc → Option System
unfolding run_next
run_busy s i (busy a) = run_next s i (run_job s.pool.jobs a)
run_busy s i _ = none

-- Lines 190 and 191.
unfoldable pub run_broadcast : System → ℕ → Pc → Option System
run_broadcast s i closing =
    some
      (record s { pc = set_pc (λ j. wake_not_full true (wake_not_empty true (s.pc j))) i joining })
run_broadcast s i _ = none

-- Lines 192 to 211. The loop of lines 204 to 209 finds no job, see `Safety`.
unfoldable pub run_join : System → ℕ → Pc → Option System
unfolding all_exited
run_join s i joining =
    if all_exited s.pool.thread_num s.pc
    then some (record s { pc = set_pc s.pc i client; freed = true })
    else none
run_join s i _ = none

-- A sleeping thread wakes with no signal.
unfoldable pub run_spurious : System → ℕ → Pc → Option System
run_spurious s i work_waiting = some (record s { pc = set_pc s.pc i working })
run_spurious s i (add_waiting job) = some (record s { pc = set_pc s.pc i (adding job) })
run_spurious s i destroy_waiting = some (record s { pc = set_pc s.pc i destroy_resuming })
run_spurious s i _ = none

-- The mutex of a pool that is freed cannot be locked.
abbrev pub unless_freed : Bool → Option System → Option System
unless_freed true r = none
unless_freed false r = r

pub unless_freed-some :
    (freed : Bool) (r : Option System) {t : System} → unless_freed freed r ≡ some t → r ≡ some t
unless_freed-some true r e = cc
unless_freed-some false r e = e

pub unless_freed-held :
    (freed : Bool) (r : Option System) → freed ≡ false → unless_freed freed r ≡ r
unless_freed-held true r e = cc
unless_freed-held false r e = refl

-- One step; `none` means that the thread does not stand there, or a fault. So a
-- section of a pool that is freed is a fault.
unfoldable pub step : System → Event → Option System
unfolding enter run_section run_busy run_broadcast run_join run_spurious
step s (call_add i job) = if asserts_hold job then enter s i (s.pc i) (adding job) else none
step s (call_destroy i) = enter s i (s.pc i) destroying
step s (section i fresh) = unless_freed s.freed (run_section s i fresh (s.pc i))
step s (run_callback i) = run_busy s i (s.pc i)
step s (broadcast_closed i) = run_broadcast s i (s.pc i)
step s (join_all i) = run_join s i (s.pc i)
step s (spurious i) = run_spurious s i (s.pc i)

-- The threads below `thread_num` are the workers, all others clients.
abbrev pub init : Pool → System
init p = record {
  pool = p;
  pc = λ i. if ltb i p.thread_num then working else client;
  freed = false;
  accepted = [];
  taken = [];
  executed = [];
  owner = 0;
}

pub data Reach (c : InitCalls) (thread_num queue_max_num : ℕ) : System → Type 0 where
  start :
      {p : Pool}
      → threadpool_init c thread_num queue_max_num ≡ some p
      → Reach c thread_num queue_max_num (init p)
  later :
      {s t : System} (e : Event)
      → Reach c thread_num queue_max_num s
      → step s e ≡ some t
      → Reach c thread_num queue_max_num t
