-- ===== src/PhreadPool/Executed/Work.antt =====
-- The sections of `threadpool_add_job` and `threadpool_function` of Pthread/phread_pool.c, and the callback, keep the
-- balance of the jobs taken, run and running.
use mathlib.Core.Path.{subst}
use mathlib.Core.Option.{some-injective}
use linux_system_code.Common.{
  ℕ, ◌≡◌, ◌≢◌, ◌<◌, refl, sym, ap, ◌∙◌, Bool, true, Option, none, some, [], ◌∷◌, ◌++◌, ltb, arith,
}
use linux_system_code.Store.{Store, Node, Cells, write}
use linux_system_code.Store.Chains.{write_ne}
use linux_system_code.PhreadPool.{Job, Pool, AddOutcome, WorkOutcome, run_job}
use linux_system_code.PhreadPool.Queue.{is_nil, Linked, Taken}
use linux_system_code.PhreadPool.Views.{
  AddView, asleep, refused, linked, WorkView, sleeps, exits, takes, run_job-frees,
}
use linux_system_code.PhreadPool.System.{
  Pc, client, adding, add_waiting, working, work_waiting, busy, exited, System, set_pc,
  wake_not_empty, wake_not_full, wake_empty, after_work, add_next, work_next, run_next,
}
use linux_system_code.PhreadPool.Invariant.Defs.{is_worker, Inv}
use linux_system_code.PhreadPool.Invariant.Moves.{Fits-at}
use linux_system_code.PhreadPool.Executed.{
  count, count-append, job_in, set_pc-own, set_pc-other, one, running, running-moved, Balanced,
  IsBalanced, one-not_empty, one-not_full, one-empty, quiet, still,
}

module _ (t : Job → Bool) (s : System) (inv : Inv s) (done : IsBalanced t s) (i : ℕ) where
  open inv use {cells}

  pub idle : (x : Pc) → s.pc i ≡ x → one t s.pool.jobs x ≡ 0 → one t s.pool.jobs (s.pc i) ≡ 0
  idle x here z = ap (one t s.pool.jobs) here ∙ z

  -- A job that runs is neither the new one nor in the queue.
  kept_by_add :
      {pjob : ℕ} {job : Job} (l : Linked s.pool cells pjob job)
      → s.pool.jobs pjob ≡ none
      → (j : ℕ) (x : Pc) → s.pc j ≡ x
      → one t l.result.jobs x ≡ one t s.pool.jobs x
  kept_by_add l unused j (busy a) at_a =
      let f = Fits-at inv at_a in
      ap (λ (o : Option (Node Job)). count t (elim o [ none ↦ [] | some n ↦ n.value ∷ [] ]))
        (l.others a f.2 (ground (arith, f.1)))
  kept_by_add l unused j _ at_x = refl

  pub add-IsBalanced :
      (pjob : ℕ) (job : Job) {u : System} (r : Option (AddOutcome × Pool))
      → s.pc i ≡ adding job
      → AddView s.pool cells pjob job r
      → add_next s i job r ≡ some u
      → IsBalanced t u
  unfolding add_next
  add-IsBalanced pjob job {u} _ here (asleep full c d) e =
      subst (IsBalanced t) (some-injective _ u e)
        (still t s done i (add_waiting job) (idle (adding job) here refl) refl)
  add-IsBalanced pjob job {u} _ here (refused c) e =
      subst (IsBalanced t) (some-injective _ u e)
        (still t s done i client (idle (adding job) here refl) refl)
  add-IsBalanced pjob job {u} _ here (linked room c d ne unused l) e =
      subst (IsBalanced t) (some-injective _ u e) (
        quiet t s done l.result.jobs (wake_not_empty (is_nil cells)) i client l.result.thread_num
          l.config.thread_num
          (λ j.
            one-not_empty t l.result.jobs (is_nil cells) (s.pc j)
            ∙ kept_by_add l unused j (s.pc j) refl)
          (idle (adding job) here refl) refl)

  worker_bound : is_worker (s.pc i) ≡ true → i < s.pool.thread_num
  worker_bound w = let e : ltb i s.pool.thread_num ≡ true = sym (inv.role i) ∙ w in ground arith

  taken-IsBalanced :
      (x : ℕ × Job) (xs : Cells Job) (v : Taken s.pool x xs) (e f : Bool)
      → s.pc i ≡ working
      → Balanced t
          (s.taken ++ job_in s.pool.jobs (x.0))
          s.executed
          v.result.jobs
          (after_work s i (busy (x.0)) e f)
          v.result.thread_num
  taken-IsBalanced x xs v e f here =
      let h : Store Job = v.result.jobs in
      let n : ℕ = s.pool.thread_num in
      let pc' : ℕ → Pc = after_work s i (busy (x.0)) e f in
      let others : (j : ℕ) → i ≢ j → one t h (pc' j) ≡ one t s.pool.jobs (s.pc j) = λ j ne.
        ap (one t h)
          (set_pc-other (λ k. wake_empty e (wake_not_full f (s.pc k))) i j (busy (x.0)) ne)
        ∙ one-empty t h e (wake_not_full f (s.pc j))
        ∙ one-not_full t h f (s.pc j)
        ∙ ap (λ k. one t k (s.pc j)) v.jobs in
      let own : one t h (pc' i) ≡ count t (job_in s.pool.jobs (x.0)) =
        ap (one t h) (set_pc-own (λ k. wake_empty e (wake_not_full f (s.pc k))) i (busy (x.0)))
        ∙ ap (λ k. one t k (busy (x.0))) v.jobs in
      let bound : i < n = worker_bound (ap is_worker here) in
      let same : running t h pc' v.result.thread_num ≡ running t h pc' n =
        ap (running t h pc') v.config.thread_num in
      omega (
        arith,
        done,
        same,
        own,
        idle working here refl,
        running-moved t h s.pool.jobs pc' s.pc i n bound others,
        count-append t s.taken (job_in s.pool.jobs (x.0)),
      )

  pub work-IsBalanced :
      {u : System} (r : Option (WorkOutcome × Pool))
      → s.pc i ≡ working
      → WorkView s.pool cells r
      → work_next s i r ≡ some u
      → IsBalanced t u
  unfolding work_next
  work-IsBalanced {u} _ here (sleeps c d) e =
      subst (IsBalanced t) (some-injective _ u e)
        (still t s done i work_waiting (idle working here refl) refl)
  work-IsBalanced {u} _ here (exits d) e =
      subst (IsBalanced t) (some-injective _ u e)
        (still t s done i exited (idle working here refl) refl)
  work-IsBalanced {u} _ here (takes x xs cut d v) e =
      subst (IsBalanced t) (some-injective _ u e) (taken-IsBalanced x xs v _ _ here)

  -- The callback of `a` has run, and its job is freed.
  kept_by_run :
      (a j : ℕ) (x : Pc)
      → s.pc i ≡ busy a
      → i ≢ j
      → s.pc j ≡ x
      → one t (write s.pool.jobs a none) x ≡ one t s.pool.jobs x
  kept_by_run a j (busy b) here ne at_b =
      let apart : a ≢ b = λ e. ne (inv.unique i j a here (at_b ∙ ap busy (sym e))) in
      ap (λ (o : Option (Node Job)). count t (elim o [ none ↦ [] | some n ↦ n.value ∷ [] ]))
        (write_ne s.pool.jobs a b none apart)
  kept_by_run a j _ here ne at_x = refl

  ran-IsBalanced :
      (a : ℕ) (n : Node Job)
      → s.pc i ≡ busy a
      → s.pool.jobs a ≡ some n
      → Balanced t s.taken
          (s.executed ++ n.value ∷ [])
          (write s.pool.jobs a none)
          (set_pc s.pc i working)
          s.pool.thread_num
  ran-IsBalanced a n here at_a =
      let h : Store Job = write s.pool.jobs a none in
      let pc' : ℕ → Pc = set_pc s.pc i working in
      let others : (j : ℕ) → i ≢ j → one t h (pc' j) ≡ one t s.pool.jobs (s.pc j) = λ j ne.
        ap (one t h) (set_pc-other s.pc i j working ne) ∙ kept_by_run a j (s.pc j) here ne refl in
      let own : one t h (pc' i) ≡ 0 = ap (one t h) (set_pc-own s.pc i working) in
      let before : one t s.pool.jobs (s.pc i) ≡ count t (n.value ∷ []) =
        ap (one t s.pool.jobs) here
        ∙ ap (λ (o : Option (Node Job)). count t (elim o [ none ↦ [] | some n ↦ n.value ∷ [] ]))
            at_a in
      omega (
        arith,
        done,
        own,
        before,
        running-moved t h s.pool.jobs pc' s.pc i s.pool.thread_num
            (worker_bound (ap is_worker here)) others,
        count-append t s.executed (n.value ∷ []),
      )

  pub run-IsBalanced :
      (a : ℕ) {u : System}
      → s.pc i ≡ busy a
      → run_next s i (run_job s.pool.jobs a) ≡ some u
      → IsBalanced t u
  unfolding run_next
  run-IsBalanced a {u} here e =
      let f = Fits-at inv here in
      let (n, at_a, runs) = run_job-frees s.pool.jobs a f.0 f.1 in
      subst (IsBalanced t) (some-injective _ u (rw runs at e)) (ran-IsBalanced a n here at_a)
