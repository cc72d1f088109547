-- ===== src/PhreadPool/Views.antt =====
-- The sections of Pthread/phread_pool.c by their outcome: what the thread does next, when, and what
-- it leaves behind.
use linux_system_code.Common.{
  ℕ, ◌≡◌, ◌≢◌, refl, ◌⊎◌, inl, inr, Bool, true, false, not, ◌&&◌, ◌||◌, Option, none, some, [], ◌∷◌,
  is_none, Option-cases, arith, ◌==◌, if◌then◌else◌,
}
use linux_system_code.Store.{Node, Store, write, Cells, malloc_can_return, null}
use linux_system_code.PhreadPool.{
  Job, Pool, AddOutcome, wait_not_full, add_refused, added, link_job, threadpool_add_job,
  WorkOutcome, wait_not_empty, exit_thread, took, take_job, threadpool_function, run_job,
  destroy_refused, destroy_wait, threadpool_destroy,
}
use linux_system_code.PhreadPool.Queue.{
  IsQueue, is_nil, Linked, link_job-append, Taken, take_job-tail,
}

-- The ways through `threadpool_add_job`, with what each leaves.
pub data AddView (p : Pool) (cells : Cells Job) (pjob : ℕ) (job : Job)
    : Option (AddOutcome × Pool) → Type 0 where
  asleep :
      (p.queue_cur_num == p.queue_max_num) ≡ true
      → p.queue_close ≡ false
      → p.pool_close ≡ false
      → AddView p cells pjob job (some (wait_not_full, p))
  refused :
      (p.queue_close ≡ true) ⊎ ((p.pool_close ≡ true) ⊎ (pjob ≡ null))
      → AddView p cells pjob job (some (add_refused, p))
  linked :
      (p.queue_cur_num == p.queue_max_num) ≡ false
      → p.queue_close ≡ false
      → p.pool_close ≡ false
      → pjob ≢ null
      → p.jobs pjob ≡ none
      → (l : Linked p cells pjob job)
      → AddView p cells pjob job (some (added (is_nil cells), l.result))

module _ (p : Pool) (cells : Cells Job) (pjob : ℕ) (job : Job) (q : IsQueue p cells)
    (may : malloc_can_return p.jobs pjob ≡ true) where
  -- By the outcomes of the four tests, in the order in which the code makes them.
  add_tests :
      (full c d n : Bool)
      → (p.queue_cur_num == p.queue_max_num) ≡ full
      → p.queue_close ≡ c
      → p.pool_close ≡ d
      → (pjob == null) ≡ n
      → AddView p cells pjob job (
          if full && not (c || d)
          then some (wait_not_full, p)
          else if c || d
          then some (add_refused, p)
          else if n
          then some (add_refused, p)
          else link_job p pjob job)
  add_tests true true d n ef ec ed en = refused (inl ec)
  add_tests false true d n ef ec ed en = refused (inl ec)
  add_tests true false true n ef ec ed en = refused (inr (inl ed))
  add_tests false false true n ef ec ed en = refused (inr (inl ed))
  add_tests true false false n ef ec ed en = asleep ef ec ed
  add_tests false false false true ef ec ed en = refused (inr (inr (ground arith)))
  add_tests false false false false ef ec ed en =
      let ne : pjob ≢ null = ground arith in
      let unused : p.jobs pjob ≡ none = ground arith in
      let l = link_job-append p cells pjob job q ne unused in
      rw l.runs (linked ef ec ed ne unused l)

  pub threadpool_add_job-view : AddView p cells pjob job (threadpool_add_job p pjob job)
  unfolding threadpool_add_job
  threadpool_add_job-view = add_tests _ _ _ _ refl refl refl refl

-- The ways through `threadpool_function` up to the unlock.
pub data WorkView (p : Pool) (cells : Cells Job) : Option (WorkOutcome × Pool) → Type 0 where
  sleeps : p.queue_cur_num ≡ 0 → p.pool_close ≡ false → WorkView p cells (some (wait_not_empty, p))
  exits : p.pool_close ≡ true → WorkView p cells (some (exit_thread, p))
  takes :
      (x : ℕ × Job) (xs : Cells Job)
      → cells ≡ x ∷ xs
      → p.pool_close ≡ false
      → (t : Taken p x xs)
      → WorkView p cells
          (some (took (x.0) (is_nil xs) (p.queue_cur_num == p.queue_max_num), t.result))

work_tests :
    (p : Pool) (cells : Cells Job) (empty d : Bool)
    → IsQueue p cells
    → (p.queue_cur_num == 0) ≡ empty
    → p.pool_close ≡ d
    → WorkView p cells (
        if empty && not d
        then some (wait_not_empty, p)
        else if d
        then some (exit_thread, p)
        else take_job p)
work_tests p cells true false q ee ed = sleeps (ground arith) ed
work_tests p cells true true q ee ed = exits ed
work_tests p cells false true q ee ed = exits ed
work_tests p [] false false q ee ed = absurd (ground (arith, q.count))
work_tests p (x ∷ xs) false false q ee ed =
    let t = take_job-tail p x xs q in rw t.runs (takes x xs refl ed t)

pub threadpool_function-view :
    (p : Pool) (cells : Cells Job) → IsQueue p cells → WorkView p cells (threadpool_function p)
unfolding threadpool_function
threadpool_function-view p cells q = work_tests p cells _ _ q refl refl

-- The callback of an allocated job runs without a fault, and the job is freed.
pub run_job-frees :
    (jobs : Store Job) (a : ℕ)
    → a ≢ null
    → is_none (jobs a) ≡ false
    → (n : Node Job) × (jobs a ≡ some n) × (run_job jobs a ≡ some (n.value, write jobs a none))
unfolding run_job
run_job-frees jobs a ne used = elim (Option-cases (jobs a)) [
  | inl e ↦ absurd (cc)
  | inr (n, e) ↦ let nonnull : (a == null) ≡ false = ground arith in (n, e, rw (nonnull, e))
]

-- A second `threadpool_destroy` returns -1 and changes nothing; the first one closes the queue, and
-- waits for it to be empty.
module _ (p : Pool) where
  pub threadpool_destroy-refused :
      (p.queue_close || p.pool_close) ≡ true → threadpool_destroy p ≡ (destroy_refused, p)
  unfolding threadpool_destroy
  threadpool_destroy-refused c = rw c

  pub threadpool_destroy-closes :
      (p.queue_close || p.pool_close) ≡ false
      → threadpool_destroy p ≡ destroy_wait (record p { queue_close = true })
  unfolding threadpool_destroy
  threadpool_destroy-closes c = rw c
