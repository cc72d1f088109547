-- ===== src/ThreadPool2.antt =====
-- Pthread/pthread_pool2.0.c and pthread_pool2.0.h: a thread pool whose manager thread is to adjust
-- the number of workers.
--
-- The functions are the code's sections under `mutexpool` and `mutexBusy`, and `System` runs them in
-- any order. `phread_mutex_lock` in `worker` is read as `pthread_mutex_lock`, and the `return -1`
-- and `return 0` of `threadPoolAdd`, whose type is void, as `return`. `none` is a fault: a read
-- or a write through NULL or a freed node. The numbers are taken to be non-negative.
pub mod System
pub mod Queue
pub mod Invariant
pub mod Starved
pub mod Slots
mod Tests
use linux_system_code.Common.{
  ℕ, zero, suc, ◌+◌, ◌-◌, ◌*◌, Bool, true, false, not, ◌&&◌, ◌||◌, Option, none, some, List, [],
  ◌∷◌, ◌==◌, ltb, if◌then◌else◌, ◌>>=◌,
}
use linux_system_code.Store.{Node, Store, null, node, write, load}

-- `next` is that of the store's node.
pub record Task : Type 0 where
  pub function : ℕ
  pub arg : ℕ

-- Without the mutexes, the condition variables and `managerID`. `tasks` is the store of the `malloc`ed
-- tasks.
pub record ThreadPool : Type 0 where
  pub queue_capacity : ℕ
  pub queue_size : ℕ
  pub head : ℕ
  pub tail : ℕ
  pub thread_ids : List ℕ
  pub maxnum : ℕ
  pub minnum : ℕ
  pub busynum : ℕ
  pub livenum : ℕ
  pub exitnum : ℕ
  pub shutdown : Bool
  pub tasks : Store Task

-- What the calls of `threadPoolInit` return: addresses and error numbers.
pub record InitCalls : Type 0 where
  pub pool : ℕ
  pub thread_ids : ℕ
  pub mutexpool : ℕ
  pub mutex_busy : ℕ
  pub not_empty : ℕ
  pub not_full : ℕ

abbrev pub init_failed : InitCalls → Bool
init_failed c =
    (c.pool == null)
    || (c.thread_ids == null)
    || not (c.mutexpool == 0)
    || not (c.mutex_busy == 0)
    || not (c.not_empty == 0)
    || not (c.not_full == 0)

-- `memset` and the threads created: `ids` are theirs, in the slots from 0 on.
abbrev pub slots : (max : ℕ) → (ids : List ℕ) → List ℕ
slots zero ids = []
slots (suc max) [] = 0 ∷ slots max []
slots (suc max) (tid ∷ ids) = tid ∷ slots max ids

-- `threadPoolInit`; `none` is the returned NULL. `min` threads are created, no more than `max`, whose
-- ids are `ids`.
unfoldable pub thread_pool_init :
    InitCalls → (min max queue_size : ℕ) → (ids : List ℕ) → Option ThreadPool
thread_pool_init c min max queue_size ids =
    if init_failed c
    then none
    else some (record {
      queue_capacity = queue_size;
      queue_size = 0;
      head = null;
      tail = null;
      thread_ids = slots max ids;
      maxnum = max;
      minnum = min;
      busynum = 0;
      livenum = min;
      exitnum = 0;
      shutdown = false;
      tasks = λ _. none;
    })

-- How a section of `threadPoolAdd` ends.
pub data AddOutcome : Type 0 where
  wait_not_full : AddOutcome
  add_dropped : AddOutcome
  added : (signal_not_empty : Bool) → AddOutcome

-- `threadPoolAdd` from the test of `head` on: `livenum` is counted up, `queueSize` is not.
unfoldable pub link_task : ThreadPool → (job : ℕ) → Task → Option (AddOutcome × ThreadPool)
link_task p job task =
    let tasks = write p.tasks job (some (node task null)) in
    if p.head == null
    then some
        (added true, record p { head = job; tail = job; livenum = p.livenum + 1; tasks = tasks })
    else do
      last ← load tasks p.tail
      some (
        added false,
        record p {
          tail = job;
          livenum = p.livenum + 1;
          tasks = write tasks p.tail (some (node last.value job));
        },
      )

-- `job` is what `malloc` returns.
unfoldable pub thread_pool_add : ThreadPool → (job : ℕ) → Task → Option (AddOutcome × ThreadPool)
thread_pool_add p job task =
    if not p.shutdown && (p.queue_size == p.queue_capacity)
    then some (wait_not_full, p)
    else if p.shutdown
    then some (add_dropped, p)
    else if job == null
    then some (add_dropped, p)
    else link_task p job task

-- How a section of `worker` ends: in a wait, before `threadExit`, or with a task to run.
pub data WorkOutcome : Type 0 where
  wait_not_empty : WorkOutcome
  leaves : (retired : Bool) → WorkOutcome
  took : Task → WorkOutcome

-- Lines 138 to 147; `tail` is left alone, and the task is not freed.
unfoldable pub take_task : ThreadPool → Option (WorkOutcome × ThreadPool)
take_task p = do
  first ← load p.tasks p.head
  some (took first.value, record p { head = first.next; queue_size = p.queue_size - 1 })

-- `worker` from the loop's condition on, line 115.
unfoldable pub worker : ThreadPool → Option (WorkOutcome × ThreadPool)
worker p =
    if (p.queue_size == 0) && not p.shutdown
    then some (wait_not_empty, p)
    else if p.shutdown
    then some (leaves false, p)
    else take_task p

-- `worker` from the return of `pthread_cond_wait` on, line 120. A worker that was told to exit while
-- there are more than `minnum` leaves.
unfoldable pub worker_woken : ThreadPool → Option (WorkOutcome × ThreadPool)
worker_woken p =
    if ltb 0 p.exitnum
    then if ltb p.minnum p.livenum
      then some (leaves true, record p { exitnum = p.exitnum - 1; livenum = p.livenum - 1 })
      else worker (record p { exitnum = p.exitnum - 1 })
    else worker p

-- The sections round the task's run.
unfoldable pub starts_working : ThreadPool → ThreadPool
starts_working p = record p { busynum = p.busynum + 1 }

unfoldable pub ends_working : ThreadPool → ThreadPool
ends_working p = record p { busynum = p.busynum - 1 }

-- The loop of `manager` that adds threads, lines 190 to 197, from the slots at `i` on. The slot's
-- value, 0, is handed to `pthread_create` as the address to store the id at: a write through NULL.
unfoldable pub adds_threads :
    List ℕ → (i queuenum livenum maxnum : ℕ) → ThreadPool → Option ThreadPool
adds_threads [] i queuenum livenum maxnum p =
    if ltb (i + livenum) queuenum && ltb (i + livenum) maxnum then none else some p
adds_threads (tid ∷ ids) i queuenum livenum maxnum p =
    let rest = adds_threads ids (i + 1) queuenum livenum maxnum p in
    if ltb (i + livenum) queuenum && ltb (i + livenum) maxnum
    then if tid == 0 then none else rest
    else some p

-- `manager`, lines 187 to 199, with the numbers it read.
unfoldable pub manager_adds : (queuenum livenum : ℕ) → ThreadPool → Option ThreadPool
manager_adds queuenum livenum p =
    if ltb livenum queuenum && ltb livenum p.maxnum
    then adds_threads p.thread_ids 0 queuenum livenum p.maxnum p
    else some p

-- `manager`, lines 203 to 213: the signals are left to `System`.
unfoldable pub manager_removes : (queuenum livenum : ℕ) → ThreadPool → ThreadPool
manager_removes queuenum livenum p =
    if ltb (queuenum * 2) livenum && ltb p.minnum livenum then record p { exitnum = 2 } else p

-- The first slot that holds `tid` is emptied.
abbrev pub empty_slot : ℕ → List ℕ → List ℕ
empty_slot tid [] = []
empty_slot tid (x ∷ ids) = if x == tid then 0 ∷ ids else x ∷ empty_slot tid ids

-- `threadExit`, for the thread `tid`. `threadIDs` has `maxnum` slots.
unfoldable pub thread_exit : ThreadPool → ℕ → ThreadPool
thread_exit p tid = record p { thread_ids = empty_slot tid p.thread_ids }

-- `threadPoolDestroy` first sets `shutdown`, without the mutex.
unfoldable pub shut_down : ThreadPool → ThreadPool
shut_down p = record p { shutdown = true }

-- The loop of `threadPoolDestroy` that joins: the ids of the slots that are not empty, in order.
abbrev pub joined : List ℕ → List ℕ
joined [] = []
joined (tid ∷ ids) = if tid == 0 then joined ids else tid ∷ joined ids

-- The loop of `threadPoolDestroy` that frees the tasks, lines 238 to 243. Without fuel: `none`.
unfoldable pub free_tasks : ℕ → Store Task → (head : ℕ) → Option (Store Task)
free_tasks zero tasks head = none
free_tasks (suc fuel) tasks head =
    if head == null
    then some tasks
    else do temp ← load tasks head; free_tasks fuel (write tasks head none) temp.next
