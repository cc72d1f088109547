-- ===== src/ThreadPool2/Queue.antt =====
-- The task list of Pthread/pthread_pool2.0.c: linking a task refines `++`, and freeing the list ends
-- without a fault.
use linux_system_code.Common.{
  ℕ, zero, suc, ◌+◌, ◌≡◌, ◌≢◌, refl, sym, Bool, true, false, none, some, [], ◌∷◌, ◌++◌, arith,
  length, ◌==◌, ◌<◌, if◌then◌else◌,
}
use linux_system_code.Store.{Store, Cells, null, node, write, load, first, last, has, Chain}
use linux_system_code.Store.Chains.{
  last-append, Chain-write, not-has_of_none, load-last, Chain-snoc, write_self,
}
use linux_system_code.ThreadPool2.{Task, ThreadPool, added, link_task, free_tasks}

-- The nodes from `head` to `tail` are `cells`.
pub record IsQueue (p : ThreadPool) (cells : Cells Task) : Type 0 where
  pub chain : Chain p.tasks cells
  pub head : p.head ≡ first cells
  pub tail : p.tail ≡ last cells

-- What linking `task` at `job` behind `cells` leads to; `first_task` tells if it is the only one.
pub record Linked (p : ThreadPool) (cells : Cells Task) (job : ℕ) (task : Task) : Type 0 where
  pub head : ℕ
  pub tasks : Store Task
  pub first_task : Bool
  pub runs :
      link_task p job task
      ≡ some (
        added first_task,
        record p { head = head; tail = job; livenum = p.livenum + 1; tasks = tasks },
      )
  pub queue :
      IsQueue
        (record p { head = head; tail = job; livenum = p.livenum + 1; tasks = tasks })
        (cells ++ (job, task) ∷ [])

module _ (p : ThreadPool) (job : ℕ) (task : Task) where
  abbrev filled : Store Task
  filled = write p.tasks job (some (node task null))

  link_task-nil : IsQueue p [] → job ≢ null → Linked p [] job task
  unfolding link_task
  link_task-nil q ne = record {
    head = job;
    tasks = filled;
    first_task = true;
    runs = rw q.head refl;
    queue = record { chain = (ne, write_self p.tasks job _, refl, tt); head = refl; tail = refl };
  }

  -- `w` is the task of the last node.
  link_task-cons :
      (x : ℕ × Task) (xs : Cells Task) (w : Task)
      → IsQueue p (x ∷ xs)
      → job ≢ null
      → has job (x ∷ xs) ≡ false
      → load filled (last (x ∷ xs)) ≡ some (node w null)
      → Chain filled (x ∷ xs)
      → Linked p (x ∷ xs) job task
  unfolding link_task
  link_task-cons x xs w q ne out last_node old =
      let nonempty : (p.head == null) ≡ false = ground arith in
      record {
        head = p.head;
        tasks = write filled (last (x ∷ xs)) (some (node w job));
        first_task = false;
        runs = rw (nonempty, q.tail, last_node);
        queue = record {
          chain = Chain-snoc filled x xs job task w ne (write_self p.tasks job _) out last_node old;
          head = q.head;
          tail = sym (last-append (x ∷ xs) job task);
        };
      }

-- Given an unused address, `threadPoolAdd` links the task behind all others.
pub link_task-append :
    (p : ThreadPool) (cells : Cells Task) (job : ℕ) (task : Task)
    → IsQueue p cells
    → job ≢ null
    → p.tasks job ≡ none
    → Linked p cells job task
link_task-append p [] job task q ne unused = link_task-nil p job task q ne
link_task-append p (x ∷ xs) job task q ne unused =
    let out = not-has_of_none p.tasks (x ∷ xs) job unused q.chain in
    let old = Chain-write p.tasks (x ∷ xs) job (some (node task null)) out q.chain in
    let (w, last_node) = load-last (filled p job task) x xs old in
    link_task-cons p job task x xs w q ne out last_node old

-- Freeing a chain ends with enough fuel, without a fault, and frees its nodes and no other.
pub free_tasks_lem :
    (fuel : ℕ) (tasks : Store Task) (cells : Cells Task)
    → length cells < fuel
    → Chain tasks cells
    → (left : Store Task) × (free_tasks fuel tasks (first cells) ≡ some left)
      × ((a : ℕ) → left a ≡ (if has a cells then none else tasks a))
unfolding free_tasks write
free_tasks_lem zero tasks cells h k = absurd (omega arith)
free_tasks_lem (suc fuel) tasks [] h k = (tasks, refl, λ a. refl)
free_tasks_lem (suc fuel) tasks ((b, v) ∷ xs) h k =
    let (left, runs, same) =
      free_tasks_lem fuel (write tasks b none) xs (omega arith)
        (Chain-write tasks xs b none k.2 k.3) in
    let nonnull : (b == null) ≡ false = ground arith in
    (left, rw (nonnull, k.1) runs, λ a. ground (arith, same a))
