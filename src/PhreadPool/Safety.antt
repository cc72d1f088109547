-- ===== src/PhreadPool/Safety.antt =====
-- What holds of Pthread/phread_pool.c in every state that its threads reach.
use mathlib.Core.Bool.{false≢true}
use mathlib.Core.List.{append-nil}
use linux_system_code.Common.{
  ℕ, ◌≡◌, ◌≢◌, ◌≤◌, ◌<◌, ◌⊎◌, inl, inr, refl, sym, ap, ◌∙◌, Bool, true, false, Option, none, some,
  List, [], ◌∷◌, ◌++◌, arith, length, is_none, Bool-cases, if_elim,
}
use linux_system_code.Store.{Store, Cells, first, null, malloc_can_return, has, values}
use linux_system_code.Store.Chains.{length-values}
use linux_system_code.PhreadPool.{Job, InitCalls, threadpool_function, run_job, free_jobs}
use linux_system_code.PhreadPool.Views.{
  threadpool_add_job-view, threadpool_function-view, run_job-frees,
}
use linux_system_code.PhreadPool.System.{
  unless_freed-held, Pc, adding, add_waiting, working, work_waiting, busy, exited, destroying,
  destroy_waiting, destroy_resuming, closing, joining, System, section, run_callback, step, Reach,
  run_section, run_busy, add_next, run_next,
}
use linux_system_code.PhreadPool.Returns.{
  add_returns, work_returns, work_next_returns, add_next_returns, in_section,
}
use linux_system_code.PhreadPool.Invariant.{Reach-Inv}
use linux_system_code.PhreadPool.Invariant.Defs.{is_worker, Inv}
use linux_system_code.PhreadPool.Invariant.Moves.{Fits-at}

values_of_empty : (cells : Cells Job) → length cells ≡ 0 → values cells ≡ []
values_of_empty [] e = refl
values_of_empty (x ∷ xs) e = absurd (omega arith)

first_of_empty : (cells : Cells Job) → length cells ≡ 0 → first cells ≡ null
first_of_empty [] e = refl
first_of_empty (x ∷ xs) e = absurd (omega arith)

has-first : (cells : Cells Job) → first cells ≢ null → has (first cells) cells ≡ true
has-first [] ne = absurd (ne refl)
has-first ((a, v) ∷ xs) ne = ground arith

module _ (c : InitCalls) (n m : ℕ) {s : System} (r : Reach c n m s) where
  abbrev inv : Inv s
  inv = Reach-Inv c n m r

  -- The jobs for which threadpool_add_job has returned 0 are, in the order in which they were
  -- accepted, those that workers have taken, followed by as many as queue_cur_num counts, which are
  -- no more than queue_max_num.
  pub jobs_in_order :
      (rest : List Job) × (s.accepted ≡ s.taken ++ rest)
      × (length rest ≡ s.pool.queue_cur_num)
      × (s.pool.queue_cur_num ≤ s.pool.queue_max_num)
  jobs_in_order =
      (values inv.cells, inv.log, length-values inv.cells ∙ sym inv.queue.count, inv.bound)

  -- No wake-up is lost: while a job is queued no worker sleeps on queue_not_empty, and while there
  -- is room in the queue no client sleeps on queue_not_full.
  pub no_lost_wakeup :
      (i : ℕ)
      → (s.pool.queue_cur_num ≢ 0 → s.pc i ≢ work_waiting)
        × ((job : Job) → s.pool.queue_cur_num ≢ s.pool.queue_max_num → s.pc i ≢ add_waiting job)
  no_lost_wakeup i = (λ jobs e. jobs ((Fits-at inv e).0), λ job room e. room ((Fits-at inv e).0))

  -- Once threadpool_destroy has set pool_close, every accepted job has been taken by a worker.
  pub closed_when_drained : s.pool.pool_close ≡ true → s.accepted ≡ s.taken
  closed_when_drained e =
      inv.log
      ∙ rw (values_of_empty inv.cells (sym inv.queue.count ∙ (inv.closed e).1)) (append-nil s.taken)

  abbrev pub in_destroy : Pc → Bool
  in_destroy destroy_waiting = true
  in_destroy destroy_resuming = true
  in_destroy closing = true
  in_destroy joining = true
  in_destroy _ = false

  destroyer : (i : ℕ) (x : Pc) → s.pc i ≡ x → in_destroy x ≡ true → i ≡ s.owner
  destroyer i destroy_waiting e d = (Fits-at inv e).0
  destroyer i destroy_resuming e d = (Fits-at inv e).0
  destroyer i closing e d = (Fits-at inv e).0
  destroyer i joining e d = (Fits-at inv e).0
  destroyer i _ e d = cc

  -- At most one thread is past the first test of threadpool_destroy.
  pub one_destroyer : (i j : ℕ) → in_destroy (s.pc i) ≡ true → in_destroy (s.pc j) ≡ true → i ≡ j
  one_destroyer i j d e = destroyer i (s.pc i) refl d ∙ sym (destroyer j (s.pc j) refl e)

  not_first :
      {a : ℕ}
      → a ≡ s.pool.head
      → (a ≢ null) × (is_none (s.pool.jobs a) ≡ false) × (has a inv.cells ≡ false)
      → ⊥
  not_first {a} d f =
      let e : a ≡ first inv.cells = d ∙ inv.queue.head in
      false≢true (sym f.2 ∙ ap (λ t. has t inv.cells) e ∙ has-first inv.cells (λ z. f.0 (e ∙ z)))

  -- A job that a worker runs is allocated, is not in the queue, and no other worker runs it.
  pub job_owned :
      (i a : ℕ)
      → s.pc i ≡ busy a
      → (is_none (s.pool.jobs a) ≡ false) × (a ≢ s.pool.head) × ((j : ℕ) → s.pc j ≡ busy a → i ≡ j)
  job_owned i a e =
      ((Fits-at inv e).1, λ d. not_first d (Fits-at inv e), λ j d. inv.unique i j a e d)

  work_runs : threadpool_function s.pool ≢ none
  work_runs = work_returns _ (threadpool_function-view s.pool inv.cells inv.queue)

  run_returns : (i a : ℕ) → s.pc i ≡ busy a → run_job s.pool.jobs a ≢ none
  run_returns i a e d =
      let f = Fits-at inv e in let (k, _, runs) = run_job-frees s.pool.jobs a f.0 f.1 in cc

  run_next_returns :
      (i : ℕ) (r : Option (Job × Store Job)) → r ≢ none → is_none (run_next s i r) ≡ false
  unfolding run_next
  run_next_returns i none ne = absurd (ne refl)
  run_next_returns i (some (job, jobs)) ne = refl

  section_returns :
      (i fresh : ℕ) (x : Pc)
      → s.pc i ≡ x
      → ((job : Job) → x ≡ adding job → malloc_can_return s.pool.jobs fresh ≡ true)
      → in_section x ≡ true
      → is_none (run_section s i fresh x) ≡ false
  unfolding run_section
  section_returns i fresh (adding job) e may h =
      let fine = may job refl in
      if_elim (λ (r : Option System). is_none r ≡ false) (malloc_can_return s.pool.jobs fresh)
        (add_next s i job _) none
        (λ _.
          add_next_returns s i job _
            (add_returns _ (threadpool_add_job-view s.pool inv.cells fresh job inv.queue fine)))
        (λ no. absurd (false≢true (sym no ∙ fine)))
  section_returns i fresh working e may h = work_next_returns s i _ work_runs
  section_returns i fresh destroying e may h = refl
  section_returns i fresh destroy_resuming e may h = refl
  section_returns i fresh _ e may h = cc

  busy_returns : (i a : ℕ) (x : Pc) → s.pc i ≡ x → x ≡ busy a → is_none (run_busy s i x) ≡ false
  unfolding run_busy
  busy_returns i a (busy b) e d = run_next_returns i _ (run_returns i b e)
  busy_returns i a _ e d = absurd (ground arith)

  -- As long as the pool is not freed, no section faults: not those of threadpool_add_job, for each
  -- pointer that malloc may return, not those of threadpool_function or threadpool_destroy, and not
  -- the callback of a job with the free after it. Each thread that stands before one can run it.
  pub no_fault :
      s.freed ≡ false
      → (i fresh : ℕ)
      → (in_section (s.pc i) ≡ true
          → ((job : Job) → s.pc i ≡ adding job → malloc_can_return s.pool.jobs fresh ≡ true)
          → is_none (step s (section i fresh)) ≡ false)
        × ((a : ℕ) → s.pc i ≡ busy a → is_none (step s (run_callback i)) ≡ false)
  unfolding step
  no_fault held i fresh = (
    λ h may.
        ap is_none (unless_freed-held s.freed _ held) ∙ section_returns i fresh (s.pc i) refl may h,
    λ a e. busy_returns i a (s.pc i) refl e,
  )

  worker_runs :
      s.pool.queue_cur_num ≢ 0
      → (i : ℕ) (x : Pc) → s.pc i ≡ x
      → is_worker x ≡ true
      → (is_none (run_section s i null x) ≡ false) ⊎ (is_none (run_busy s i x) ≡ false)
  unfolding run_section run_busy
  worker_runs jobs i working e w = inl (work_next_returns s i _ work_runs)
  worker_runs jobs i (busy a) e w = inr (run_next_returns i _ (run_returns i a e))
  worker_runs jobs i work_waiting e w = absurd (jobs ((Fits-at inv e).0))
  worker_runs jobs i exited e w = absurd (jobs ((inv.closed (Fits-at inv e)).1))
  worker_runs jobs i _ e w = cc

  -- No deadlock while jobs are queued: each worker can take a step.
  pub workers_run :
      s.pool.queue_cur_num ≢ 0
      → (i : ℕ) → i < s.pool.thread_num
      → (is_none (step s (section i null)) ≡ false) ⊎ (is_none (step s (run_callback i)) ≡ false)
  unfolding step
  workers_run jobs i h = elim (Bool-cases s.freed) [
    | inl freed ↦ absurd (jobs ((inv.closed (Fits-at inv (inv.gone freed i h))).1))
    | inr held ↦ elim (worker_runs jobs i (s.pc i) refl (inv.role i ∙ ground arith)) [
      | inl runs ↦ inl (ap is_none (unless_freed-held s.freed _ held) ∙ runs)
      | inr runs ↦ inr runs
    ]
  ]

  -- When threadpool_destroy has freed a pool with a worker, every accepted job has been taken, every
  -- worker has exited, and the loop that frees the jobs left finds none.
  pub freed_when_drained :
      s.freed ≡ true
      → 0 < s.pool.thread_num
      → (s.accepted ≡ s.taken)
        × ((i : ℕ) → i < s.pool.thread_num → s.pc i ≡ exited)
        × (free_jobs 1 s.pool.jobs s.pool.head ≡ some s.pool.jobs)
  unfolding free_jobs
  freed_when_drained f some_worker =
      let shut = Fits-at inv (inv.gone f 0 some_worker) in
      let empty = sym inv.queue.count ∙ (inv.closed shut).1 in
      (
        closed_when_drained shut,
        inv.gone f,
        rw (inv.queue.head ∙ first_of_empty inv.cells empty) refl,
      )
