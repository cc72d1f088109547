-- ===== src/CondLock.antt =====
-- Pthread/condlock.c: threads that put messages in front of `workq` and signal `qready`, and threads that
-- take them off and wait on it while there are none.
--
-- The state counts the threads at each place, since those at one place go on in the same way. A step is
-- what a thread does while it holds `qlock`, a signal, or a wake-up without one. The store holds the
-- messages in the queue: those outside are their threads' own.
pub mod Invariant
pub mod Safety
mod Tests
use linux_system_code.Common.{
  ℕ, ◌+◌, ◌-◌, ◌≡◌, Option, none, some, Bool, not, ltb, ◌==◌, ◌&&◌, is_none, if◌then◌else◌,
}
use linux_system_code.Store.{Node, Store, null, node, write, load}
use linux_system_code.Steps.{Result, ok, blocked, fault}

-- `struct msg` has no field but `m_next`.
pub data Msg : Type 0 where
  msg : Msg

pub record State : Type 0 where
  pub workq : ℕ
  pub msgs : Store Msg
  -- callers of `enqueue_msg` between the unlock and the signal
  pub signalling : ℕ
  -- threads in `proccess_msg` that are to get the mutex, from the call of `pthread_mutex_lock` or back
  -- from `pthread_cond_wait`, and those that sleep there
  pub ready : ℕ
  pub sleeping : ℕ

-- `enqueue_msg` up to the unlock.
unfoldable pub enqueue_msg : State → (mp : ℕ) → Result State
enqueue_msg s mp =
    if mp == null
    then fault
    else ok (record s {
      msgs = write s.msgs mp (some (node msg s.workq));
      workq = mp;
      signalling = s.signalling + 1;
    })

-- The first message becomes the thread's own.
abbrev pub take_msg : State → Option (Node Msg) → Result State
take_msg s none = fault
take_msg s (some mp) = ok (record s { msgs = write s.msgs s.workq none; workq = mp.next })

-- A round of `proccess_msg`: the wait's loop tests its condition again after each return.
unfoldable pub proccess_msg : State → Result State
proccess_msg s =
    if s.workq == null
    then ok (record s { ready = s.ready - 1; sleeping = s.sleeping + 1 })
    else take_msg s (load s.msgs s.workq)

-- `pthread_cond_signal`, which wakes one thread if one sleeps.
unfoldable pub signal : State → State
signal s =
    if s.sleeping == 0
    then record s { signalling = s.signalling - 1 }
    else record s { signalling = s.signalling - 1; sleeping = s.sleeping - 1; ready = s.ready + 1 }

pub data Event : Type 0 where
  enqueue : (mp : ℕ) → Event
  signals : Event
  process : Event
  spurious : Event

-- A message that is enqueued is not in the queue.
unfoldable pub step : State → Event → Result State
step s (enqueue mp) = if is_none (s.msgs mp) then enqueue_msg s mp else blocked
step s signals = if ltb 0 s.signalling then ok (signal s) else blocked
step s process = if ltb 0 s.ready then proccess_msg s else blocked
step s spurious =
    if ltb 0 s.sleeping
    then ok (record s { sleeping = s.sleeping - 1; ready = s.ready + 1 })
    else blocked

-- `n` threads in `proccess_msg`.
abbrev pub init : ℕ → State
init n = record { workq = null; msgs = λ _. none; signalling = 0; ready = n; sleeping = 0 }

pub data Reach (n : ℕ) : State → Type 0 where
  start : Reach n (init n)
  later : {s t : State} (e : Event) → Reach n s → step s e ≡ ok t → Reach n t
