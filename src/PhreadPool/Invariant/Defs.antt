-- ===== src/PhreadPool/Invariant/Defs.antt =====
-- The invariant of the threads of Pthread/phread_pool.c.
use linux_system_code.Common.{ℕ, ◌≡◌, ◌≢◌, ◌≤◌, ◌<◌, Bool, true, false, ◌++◌, ltb, is_none}
use linux_system_code.Store.{Cells, null, has, values}
use linux_system_code.PhreadPool.{Job, Pool}
use linux_system_code.PhreadPool.Queue.{IsQueue}
use linux_system_code.PhreadPool.System.{
  Pc, client, adding, add_waiting, working, work_waiting, busy, exited, destroying, destroy_waiting,
  destroy_resuming, closing, joining, System,
}

-- What the place of thread `i` says of the pool. `q` is where the thread `o` stands that closed the
-- queue.
abbrev pub Fits : Pool → Cells Job → (o : ℕ) → (q : Pc) → (i : ℕ) → Pc → Type 0
Fits p cells o q i client = Unit
Fits p cells o q i (adding job) = Unit
-- A thread sleeps on queue_not_full only while the queue is full, and on queue_not_empty only while
-- it is empty, unless the broadcasts of threadpool_destroy are still to come.
Fits p cells o q i (add_waiting job) =
    (p.queue_cur_num ≡ p.queue_max_num) × (p.pool_close ≡ true → q ≡ closing)
Fits p cells o q i working = Unit
Fits p cells o q i work_waiting = (p.queue_cur_num ≡ 0) × (p.pool_close ≡ true → q ≡ closing)
-- A job that runs is allocated and not in the queue.
Fits p cells o q i (busy a) = (a ≢ null) × (is_none (p.jobs a) ≡ false) × (has a cells ≡ false)
Fits p cells o q i exited = p.pool_close ≡ true
Fits p cells o q i destroying = Unit
Fits p cells o q i destroy_waiting =
    (i ≡ o) × (p.queue_close ≡ true) × (p.pool_close ≡ false) × (p.queue_cur_num ≢ 0)
Fits p cells o q i destroy_resuming = (i ≡ o) × (p.queue_close ≡ true) × (p.pool_close ≡ false)
Fits p cells o q i closing = (i ≡ o) × (p.queue_close ≡ true) × (p.pool_close ≡ true)
Fits p cells o q i joining = (i ≡ o) × (p.queue_close ≡ true) × (p.pool_close ≡ true)

abbrev pub is_worker : Pc → Bool
is_worker working = true
is_worker work_waiting = true
is_worker (busy _) = true
is_worker exited = true
is_worker _ = false

pub record Inv (s : System) : Type 0 where
  pub cells : Cells Job
  pub queue : IsQueue s.pool cells
  pub bound : s.pool.queue_cur_num ≤ s.pool.queue_max_num
  -- Nothing is lost, made up or reordered.
  pub log : s.accepted ≡ s.taken ++ values cells
  pub closed : s.pool.pool_close ≡ true → (s.pool.queue_close ≡ true) × (s.pool.queue_cur_num ≡ 0)
  pub fits : (i : ℕ) → Fits s.pool cells s.owner (s.pc s.owner) i (s.pc i)
  -- No two threads run one job.
  pub unique : (i j a : ℕ) → s.pc i ≡ busy a → s.pc j ≡ busy a → i ≡ j
  -- The workers are the first `thread_num` threads.
  pub role : (i : ℕ) → is_worker (s.pc i) ≡ ltb i s.pool.thread_num
  pub gone : s.freed ≡ true → (i : ℕ) → i < s.pool.thread_num → s.pc i ≡ exited
