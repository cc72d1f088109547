-- ===== src/PhreadPool/Invariant/Work.antt =====
-- `threadpool_function` keeps the invariant: its section, and the callback after it.
use mathlib.Core.List.{append_assoc}
use mathlib.Core.Path.{subst}
use mathlib.Core.Option.{some-injective}
use linux_system_code.Common.{
  ℕ, ◌≡◌, ◌≢◌, refl, ap, sym, ◌∙◌, Bool, true, false, Option, none, some, [], ◌∷◌, ◌++◌, arith,
  Bool-cases, inl, inr, ◌==◌,
}
use linux_system_code.Store.{Node, Cells, has, values, write}
use linux_system_code.Store.Chains.{Chain-write, write_ne}
use linux_system_code.PhreadPool.{Job, Pool, WorkOutcome, threadpool_function, run_job}
use linux_system_code.PhreadPool.Queue.{IsQueue, is_nil, length_of_cons, Taken}
use linux_system_code.PhreadPool.Views.{
  WorkView, sleeps, exits, takes, threadpool_function-view, run_job-frees,
}
use linux_system_code.PhreadPool.System.{
  Pc, client, adding, add_waiting, working, work_waiting, busy, exited, destroying, destroy_waiting,
  destroy_resuming, closing, joining, System, set_pc, after_work, wake_not_full, wake_empty,
  work_next, run_next, job_at,
}
use linux_system_code.PhreadPool.Invariant.Defs.{Fits, is_worker, Inv}
use linux_system_code.PhreadPool.Invariant.Moves.{
  moved, Fits-at, Wakes-none, Wakes-both, Wakes-empty, Wakes-not_full, Inv-moved, others-quiet,
}

pub job_at_lem : (p : Pool) (a : ℕ) {n : Node Job} → p.jobs a ≡ some n → job_at p a ≡ n.value ∷ []
job_at_lem p a e = rw (e, job_at)

module _ (s : System) (inv : Inv s) (i : ℕ) (here : s.pc i ≡ working) where
  open inv use {cells}

  module _ (x : ℕ × Job) (xs : Cells Job) (cut : cells ≡ x ∷ xs)
      (open_pool : s.pool.pool_close ≡ false) (t : Taken s.pool x xs) where
    abbrev full : Bool
    full = s.pool.queue_cur_num == s.pool.queue_max_num

    abbrev after : System
    after = record s {
      pool = t.result;
      pc = after_work s i (busy (x.0)) (is_nil xs) full;
      taken = s.taken ++ job_at s.pool (x.0);
    }

    whole : IsQueue s.pool (x ∷ xs)
    whole = subst (IsQueue s.pool) cut inv.queue

    Fits-other :
        (k : ℕ) (q q' : Pc) (y : Pc)
        → Fits s.pool (x ∷ xs) s.owner q k y
        → Fits t.result xs s.owner q' k (wake_empty (is_nil xs) (wake_not_full full y))
    Fits-other k q q' client f = tt
    Fits-other k q q' (adding j) f = tt
    Fits-other k q q' (add_waiting j) f = let e : full ≡ true = ground arith in rw e tt
    Fits-other k q q' working f = tt
    Fits-other k q q' work_waiting f = absurd (omega (arith, whole.count))
    Fits-other k q q' (busy a) f = (f.0, rw t.jobs f.1, ground arith)
    Fits-other k q q' exited f = cc
    Fits-other k q q' destroying f = tt
    Fits-other k q q' destroy_waiting f = elim (Bool-cases (is_nil xs)) [
      | inl e ↦ rw e (f.0, ground (arith, t.config), ground (arith, t.config))
      | inr e ↦ rw e (
        f.0,
        ground (arith, t.config),
        ground (arith, t.config),
        λ z. length_of_cons xs e (sym t.queue.count ∙ z),
      )
    ]
    Fits-other k q q' destroy_resuming f = (f.0, ground (arith, t.config), ground (arith, t.config))
    Fits-other k q q' closing f = cc
    Fits-other k q q' joining f = cc

    log-taken : s.accepted ≡ (s.taken ++ job_at s.pool (x.0)) ++ values xs
    log-taken = rw (inv.log, cut, job_at_lem s.pool (x.0) whole.chain.1, append_assoc)

    -- No other thread runs the job: a job that runs is not in the queue.
    fresh-taken : (a : ℕ) → busy (x.0) ≡ busy a → (j : ℕ) → s.pc j ≢ busy a
    fresh-taken a e j at_a =
        let f : has a (x ∷ xs) ≡ false = rw cut at ((Fits-at inv at_a).2) in ground arith

    Inv-taken : Inv after
    Inv-taken =
        Inv-moved inv (Wakes-both (Wakes-empty (is_nil xs)) (Wakes-not_full full)) i (busy (x.0))
          after xs (λ e. cc) (ap is_worker (sym here)) fresh-taken t.config.thread_num t.queue
          (ground (arith, inv.bound, whole.count, t.queue.count, t.config)) log-taken (λ e. cc)
          (λ k ne. Fits-other k (s.pc s.owner) (after.pc s.owner) (s.pc k) (rw cut at (inv.fits k)))
          (whole.chain.0, rw (t.jobs, whole.chain.1) refl, whole.chain.2)

  -- Only the closing thread's place mentions where it is, and a worker is not that.
  Inv-still :
      (new : Pc)
      → is_worker new ≡ true
      → ((a : ℕ) → new ≢ busy a)
      → Fits s.pool cells s.owner (moved (λ x. x) s.pc i new s.owner) i new
      → Inv (record s { pc = set_pc s.pc i new })
  Inv-still new kind idle own =
      Inv-moved inv Wakes-none i new s cells (λ e. cc) (kind ∙ ap is_worker (sym here))
        (λ a e. absurd (idle a e)) refl inv.queue inv.bound inv.log inv.closed
        (others-quiet inv Wakes-none i new s cells (λ e. cc)) own

  by_view :
      {t : System} (r : Option (WorkOutcome × Pool))
      → WorkView s.pool cells r
      → work_next s i r ≡ some t
      → Inv t
  unfolding work_next
  by_view {t} _ (sleeps c d) e =
      subst Inv (some-injective _ t e) (Inv-still work_waiting refl (λ a e. cc) (c, λ e. cc))
  by_view {t} _ (exits d) e = subst Inv (some-injective _ t e) (Inv-still exited refl (λ a e. cc) d)
  by_view {t} _ (takes x xs cut d v) e = subst Inv (some-injective _ t e) (Inv-taken x xs cut d v)

  pub Inv-work : {t : System} → work_next s i (threadpool_function s.pool) ≡ some t → Inv t
  Inv-work = by_view _ (threadpool_function-view s.pool cells inv.queue)

-- The callback runs, and its job is freed.
module _ (s : System) (inv : Inv s) (i a : ℕ) (here : s.pc i ≡ busy a) where
  open inv use {cells}

  mine : Fits s.pool cells s.owner (s.pc s.owner) i (busy a)
  mine = Fits-at inv here

  module _ (job : Job) where
    abbrev freed_job : System
    freed_job = record s {
      pool = record (s.pool) { jobs = write s.pool.jobs a none };
      pc = set_pc s.pc i working;
      executed = s.executed ++ job ∷ [];
    }

    Fits-run :
        (k : ℕ) (q' : Pc) (x : Pc)
        → (x ≢ busy a)
        → Fits s.pool cells s.owner q' k x
        → Fits freed_job.pool cells s.owner q' k x
    Fits-run k q' (busy b) ne f =
        (f.0, rw (write_ne s.pool.jobs a b none (λ e. ne (ap busy (sym e)))) f.1, f.2)
    Fits-run k q' client ne f = f
    Fits-run k q' _ ne f = f

    Inv-ran : Inv freed_job
    Inv-ran =
        Inv-moved inv Wakes-none i working freed_job cells (λ e. cc) (ap is_worker (sym here))
          (λ b e. cc) refl
          (record {
            chain = Chain-write s.pool.jobs cells a none mine.2 inv.queue.chain;
            head = inv.queue.head;
            tail = inv.queue.tail;
            count = inv.queue.count;
          })
          inv.bound inv.log inv.closed
          (λ k ne.
            Fits-run k (freed_job.pc s.owner) (s.pc k) (λ e. ne (inv.unique i k a here e))
              (others-quiet inv Wakes-none i working s cells (λ e. cc) k ne))
          tt

  pub Inv-run : {t : System} → run_next s i (run_job s.pool.jobs a) ≡ some t → Inv t
  unfolding run_next
  Inv-run {t} e =
      let (n, _, runs) = run_job-frees s.pool.jobs a mine.0 mine.1 in
      subst Inv (some-injective _ t (rw runs at e)) (Inv-ran n.value)
