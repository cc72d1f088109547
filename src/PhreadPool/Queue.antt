-- ===== src/PhreadPool/Queue.antt =====
-- The job queue of Pthread/phread_pool.c as a list: the sections that link a job and take one off
-- refine `++` and the tail of a list, without a fault.
use linux_system_code.Common.{
  ℕ, zero, suc, if◌then◌else◌, ◌+◌, ◌-◌, ◌<◌, if◌then◌else◌, ◌≡◌, ◌≢◌, refl, sym, ◌∙◌, Bool, true,
  false, none, some, [], ◌∷◌, ◌++◌, arith, length, length-append, ◌==◌,
}
use linux_system_code.Store.{Store, Cells, null, node, write, load, first, last, has, Chain}
use linux_system_code.Store.Chains.{
  last-append, Chain-write, not-has_of_none, load-last, Chain-snoc, last-ne, write_ne, write_self,
}
use linux_system_code.PhreadPool.{Job, Pool, added, link_job, took, take_job, free_jobs}

-- The nodes from `head` to `tail` are `cells`, and `queue_cur_num` counts them.
pub record IsQueue (p : Pool) (cells : Cells Job) : Type 0 where
  pub chain : Chain p.jobs cells
  pub head : p.head ≡ first cells
  pub tail : p.tail ≡ last cells
  pub count : p.queue_cur_num ≡ length cells

-- The flags are no part of the queue.
pub IsQueue-flags :
    {p : Pool} {cells : Cells Job}
    → IsQueue p cells
    → (c d : Bool) → IsQueue (record p { queue_close = c; pool_close = d }) cells
IsQueue-flags q c d = record { chain = q.chain; head = q.head; tail = q.tail; count = q.count }

-- The fields that a section of a client or a worker leaves alone.
pub record SameConfig (p q : Pool) : Type 0 where
  pub thread_num : q.thread_num ≡ p.thread_num
  pub queue_max_num : q.queue_max_num ≡ p.queue_max_num
  pub queue_close : q.queue_close ≡ p.queue_close
  pub pool_close : q.pool_close ≡ p.pool_close

abbrev pub is_nil : Cells Job → Bool
is_nil [] = true
is_nil (_ ∷ _) = false

pub is_nil_of_empty : (cells : Cells Job) → length cells ≡ 0 → is_nil cells ≡ true
is_nil_of_empty [] e = refl
is_nil_of_empty (x ∷ xs) e = absurd (omega arith)

pub length_of_cons : (cells : Cells Job) → is_nil cells ≡ false → length cells ≢ 0
length_of_cons [] e = absurd (cc)
length_of_cons (x ∷ xs) e = omega arith

-- What linking `job` at `pjob` behind `cells` leads to.
pub record Linked (p : Pool) (cells : Cells Job) (pjob : ℕ) (job : Job) : Type 0 where
  pub result : Pool
  pub runs : link_job p pjob job ≡ some (added (is_nil cells), result)
  pub queue : IsQueue result (cells ++ (pjob, job) ∷ [])
  pub config : SameConfig p result
  pub others : (a : ℕ) → has a cells ≡ false → pjob ≢ a → result.jobs a ≡ p.jobs a

module _ (p : Pool) (pjob : ℕ) (job : Job) where
  abbrev filled : Store Job
  filled = write p.jobs pjob (some (node job null))

  link_job-nil : IsQueue p [] → pjob ≢ null → Linked p [] pjob job
  unfolding link_job
  link_job-nil q ne = record {
    result = record p {
      head = pjob;
      tail = pjob;
      queue_cur_num = p.queue_cur_num + 1;
      jobs = filled;
    };
    runs = rw q.head refl;
    queue = record {
      chain = (ne, write_self p.jobs pjob _, refl, tt);
      head = refl;
      tail = refl;
      count = omega (arith, q.count);
    };
    config = record {
      thread_num = refl;
      queue_max_num = refl;
      queue_close = refl;
      pool_close = refl;
    };
    others = λ a out apart. write_ne p.jobs pjob a _ apart;
  }

  -- `w` is the job of the last node.
  link_job-cons :
      (x : ℕ × Job) (xs : Cells Job) (w : Job)
      → IsQueue p (x ∷ xs)
      → pjob ≢ null
      → has pjob (x ∷ xs) ≡ false
      → load filled (last (x ∷ xs)) ≡ some (node w null)
      → Chain filled (x ∷ xs)
      → Linked p (x ∷ xs) pjob job
  unfolding link_job
  link_job-cons x xs w q ne out last_node old =
      let nonempty : (p.head == null) ≡ false = ground arith in
      record {
        result = record p {
          tail = pjob;
          queue_cur_num = p.queue_cur_num + 1;
          jobs = write filled (last (x ∷ xs)) (some (node w pjob));
        };
        runs = rw (nonempty, q.tail, last_node);
        queue = record {
          chain = Chain-snoc filled x xs pjob job w ne (write_self p.jobs pjob _) out last_node old;
          head = q.head;
          tail = sym (last-append (x ∷ xs) pjob job);
          count = omega (arith, q.count, length-append (x ∷ xs) ((pjob, job) ∷ []));
        };
        config = record {
          thread_num = refl;
          queue_max_num = refl;
          queue_close = refl;
          pool_close = refl;
        };
        others = λ a out' apart.
            write_ne filled (last (x ∷ xs)) a _ (last-ne a x xs out')
            ∙ write_ne p.jobs pjob a _ apart;
      }

-- Given an unused address, `threadpool_add_job` links the job behind all others.
pub link_job-append :
    (p : Pool) (cells : Cells Job) (pjob : ℕ) (job : Job)
    → IsQueue p cells
    → pjob ≢ null
    → p.jobs pjob ≡ none
    → Linked p cells pjob job
link_job-append p [] pjob job q ne unused = link_job-nil p pjob job q ne
link_job-append p (x ∷ xs) pjob job q ne unused =
    let out = not-has_of_none p.jobs (x ∷ xs) pjob unused q.chain in
    let old = Chain-write p.jobs (x ∷ xs) pjob (some (node job null)) out q.chain in
    let (w, last_node) = load-last (filled p pjob job) x xs old in
    link_job-cons p pjob job x xs w q ne out last_node old

-- What taking the first job off leads to.
pub record Taken (p : Pool) (x : ℕ × Job) (xs : Cells Job) : Type 0 where
  pub result : Pool
  pub runs : take_job p ≡ some (took (x.0) (is_nil xs) (p.queue_cur_num == p.queue_max_num), result)
  pub queue : IsQueue result xs
  pub config : SameConfig p result
  pub jobs : result.jobs ≡ p.jobs

-- A worker takes the first job off. It signals `queue_empty` exactly when no job is left, and
-- `queue_not_full` exactly when the queue was full.
pub take_job-tail : (p : Pool) (x : ℕ × Job) (xs : Cells Job) → IsQueue p (x ∷ xs) → Taken p x xs
unfolding take_job
take_job-tail p (a, v) [] q = record {
  result = record p { head = null; tail = null; queue_cur_num = p.queue_cur_num - 1 };
  runs = ground arith;
  queue = record { chain = tt; head = refl; tail = refl; count = omega (arith, q.count) };
  config = record {
    thread_num = refl;
    queue_max_num = refl;
    queue_close = refl;
    pool_close = refl;
  };
  jobs = refl;
}
take_job-tail p (a, v) (y ∷ xs) q = record {
  result = record p { head = y.0; queue_cur_num = p.queue_cur_num - 1 };
  runs = ground arith;
  queue = record { chain = q.chain.3; head = refl; tail = q.tail; count = omega (arith, q.count) };
  config = record {
    thread_num = refl;
    queue_max_num = refl;
    queue_close = refl;
    pool_close = refl;
  };
  jobs = refl;
}

-- Freeing a chain ends with enough fuel, without a fault, and frees its nodes and no other.
pub free_jobs_lem :
    (fuel : ℕ) (jobs : Store Job) (cells : Cells Job)
    → length cells < fuel
    → Chain jobs cells
    → (left : Store Job) × (free_jobs fuel jobs (first cells) ≡ some left)
      × ((a : ℕ) → left a ≡ (if has a cells then none else jobs a))
unfolding free_jobs write
free_jobs_lem zero jobs cells h k = absurd (omega arith)
free_jobs_lem (suc fuel) jobs [] h k = (jobs, refl, λ a. refl)
free_jobs_lem (suc fuel) jobs ((b, v) ∷ xs) h k =
    let (left, runs, same) =
      free_jobs_lem fuel (write jobs b none) xs (omega arith)
        (Chain-write jobs xs b none k.2 k.3) in
    let nonnull : (b == null) ≡ false = ground arith in
    (left, rw (nonnull, k.1) runs, λ a. ground (arith, same a))
