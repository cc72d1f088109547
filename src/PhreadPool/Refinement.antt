-- ===== src/PhreadPool/Refinement.antt =====
-- Pthread/phread_pool.c as a bounded queue: what each step of its threads does to the queue.
pub mod Histories
pub mod Refines
use mathlib.Core.List.{append_assoc, append_cancel_left}
use mathlib.Core.Path.{subst}
use mathlib.Core.Option.{some-injective}
use linux_system_code.Common.{
  ℕ, ◌≡◌, ◌≤◌, ◌<◌, refl, sym, ap, ◌∙◌, true, Option, none, some, List, [], ◌∷◌, ◌++◌, ◌==◌, ◌||◌,
  if_elim, length, length-append, arith, Bool-cases, inl, inr,
}
use linux_system_code.Store.{malloc_can_return}
use linux_system_code.PhreadPool.{
  Job, Pool, InitCalls, AddOutcome, WorkOutcome, DestroyOutcome, run_job, destroy_wait,
  threadpool_destroy,
}
use linux_system_code.PhreadPool.Queue.{IsQueue}
use linux_system_code.PhreadPool.Views.{
  AddView, asleep, refused, linked, threadpool_add_job-view, WorkView, sleeps, exits, takes,
  threadpool_function-view, run_job-frees, threadpool_destroy-refused, threadpool_destroy-closes,
}
use linux_system_code.PhreadPool.System.{
  Pc, client, adding, add_waiting, working, work_waiting, busy, destroying, destroy_waiting,
  destroy_resuming, closing, joining, System, Event, call_add, call_destroy, section, run_callback,
  broadcast_closed, join_all, spurious, asserts_hold, enter, add_next, work_next, run_next,
  destroy_next, run_section, run_busy, run_broadcast, run_join, run_spurious, all_exited, step,
  Reach, start, later,
}
use linux_system_code.PhreadPool.Invariant.{Reach-Inv, init_pool}
use linux_system_code.PhreadPool.Safety.{jobs_in_order}
use linux_system_code.PhreadPool.Invariant.Defs.{Inv}
use linux_system_code.PhreadPool.Invariant.Moves.{Fits-at}
use linux_system_code.PhreadPool.Invariant.Work.{job_at_lem}

-- The operations of a queue of at most `bound` jobs.
pub data Operation : Type 0 where
  put : Job → Operation
  take : Job → Operation
  nothing : Operation

pub data Does (bound : ℕ) : List Job → Operation → List Job → Type 0 where
  puts : {q : List Job} {job : Job} → length q < bound → Does bound q (put job) (q ++ job ∷ [])
  takes_first : {q : List Job} {job : Job} → Does bound (job ∷ q) (take job) q
  stays : {q : List Job} → Does bound q nothing q

-- The jobs that an operation puts into the queue, and takes out of it.
abbrev pub in_of : Operation → List Job
in_of (put job) = job ∷ []
in_of _ = []

abbrev pub out_of : Operation → List Job
out_of (take job) = job ∷ []
out_of _ = []
