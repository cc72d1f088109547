-- ===== src/PhreadPool/Invariant/Add.antt =====
-- `threadpool_add_job` keeps the invariant.
use linux_system_code.Common.{
  ℕ, ◌≡◌, refl, ap, sym, ◌∙◌, ◌≤◌, true, false, Option, none, some, [], ◌∷◌, ◌++◌, arith, ◌==◌,
  length-append,
}
use mathlib.Core.List.{append_assoc}
use mathlib.Core.Path.{subst}
use mathlib.Core.Option.{some-injective}
use linux_system_code.Store.{malloc_can_return, values}
use linux_system_code.Store.Chains.{has-append, values-append}
use linux_system_code.PhreadPool.{Job, Pool, AddOutcome, threadpool_add_job}
use linux_system_code.PhreadPool.Queue.{is_nil, is_nil_of_empty, Linked}
use linux_system_code.PhreadPool.Views.{AddView, asleep, refused, linked, threadpool_add_job-view}
use linux_system_code.PhreadPool.System.{
  Pc, client, adding, add_waiting, working, work_waiting, busy, exited, destroying, destroy_waiting,
  destroy_resuming, closing, joining, System, set_pc, after_add, wake_not_empty, add_next,
}
use linux_system_code.PhreadPool.Invariant.Moves.{
  Wakes-not_empty, Wakes-none, Inv-moved, others-quiet,
}
use linux_system_code.PhreadPool.Invariant.Defs.{Fits, is_worker, Inv}

module _ (s : System) (inv : Inv s) (i pjob : ℕ) (job : Job) (here : s.pc i ≡ adding job) where
  open inv use {cells}

  module _ (open_queue : s.pool.queue_close ≡ false) (open_pool : s.pool.pool_close ≡ false)
      (room : (s.pool.queue_cur_num == s.pool.queue_max_num) ≡ false)
      (unused : s.pool.jobs pjob ≡ none) (l : Linked s.pool cells pjob job) where
    abbrev after : System
    after = record s {
      pool = l.result;
      pc = after_add s i client (is_nil cells);
      accepted = s.accepted ++ job ∷ [];
    }

    -- A thread other than `i`; `q` and `q'` stand for where the owner is.
    Fits-other :
        (k : ℕ) (q q' : Pc) (x : Pc)
        → Fits s.pool cells s.owner q k x
        → Fits l.result (cells ++ (pjob, job) ∷ []) s.owner q' k (wake_not_empty (is_nil cells) x)
    Fits-other k q q' client f = tt
    Fits-other k q q' (adding j) f = tt
    Fits-other k q q' (add_waiting j) f = absurd (ground arith)
    Fits-other k q q' working f = tt
    Fits-other k q q' work_waiting f = rw (is_nil_of_empty cells (sym inv.queue.count ∙ f.0)) tt
    Fits-other k q q' (busy a) f =
        (f.0, rw (l.others a f.2 (ground arith)) f.1, has-append a cells pjob job ∙ ground arith)
    Fits-other k q q' exited f = cc
    Fits-other k q q' destroying f = tt
    Fits-other k q q' destroy_waiting f = cc
    Fits-other k q q' destroy_resuming f = cc
    Fits-other k q q' closing f = cc
    Fits-other k q q' joining f = cc

    bound-added : l.result.queue_cur_num ≤ l.result.queue_max_num
    bound-added = ground (
      arith,
      inv.bound,
      inv.queue.count,
      l.queue.count,
      l.config.queue_max_num,
      length-append cells ((pjob, job) ∷ []),
    )

    log-added : s.accepted ++ job ∷ [] ≡ s.taken ++ values (cells ++ (pjob, job) ∷ [])
    log-added = rw (values-append, inv.log, append_assoc)

    Inv-added : Inv after
    Inv-added =
        Inv-moved inv (Wakes-not_empty (is_nil cells)) i client after (cells ++ (pjob, job) ∷ [])
          (λ e. cc) (ap is_worker (sym here)) (λ a e. cc) l.config.thread_num l.queue (bound-added)
          (log-added) (λ e. cc)
          (λ k ne. Fits-other k (s.pc s.owner) (after.pc s.owner) (s.pc k) (inv.fits k)) tt

  -- The thread goes to sleep, or returns -1.
  Inv-asleep :
      (s.pool.queue_cur_num == s.pool.queue_max_num) ≡ true
      → s.pool.pool_close ≡ false
      → Inv (record s { pc = set_pc s.pc i (add_waiting job) })
  Inv-asleep full open_pool =
      Inv-moved inv Wakes-none i (add_waiting job) s cells (λ e. cc) (ap is_worker (sym here))
        (λ a e. cc) refl inv.queue inv.bound inv.log inv.closed
        (others-quiet inv Wakes-none i (add_waiting job) s cells (λ e. cc)) (ground arith, λ e. cc)

  Inv-refused : Inv (record s { pc = set_pc s.pc i client })
  Inv-refused =
      Inv-moved inv Wakes-none i client s cells (λ e. cc) (ap is_worker (sym here)) (λ a e. cc) refl
        inv.queue inv.bound inv.log inv.closed
        (others-quiet inv Wakes-none i client s cells (λ e. cc)) tt

  by_view :
      {t : System} (r : Option (AddOutcome × Pool))
      → AddView s.pool cells pjob job r
      → add_next s i job r ≡ some t
      → Inv t
  unfolding add_next
  by_view {t} _ (asleep full c d) e = subst Inv (some-injective _ t e) (Inv-asleep full d)
  by_view {t} _ (refused c) e = subst Inv (some-injective _ t e) Inv-refused
  by_view {t} _ (linked room c d ne unused l) e =
      subst Inv (some-injective _ t e) (Inv-added c d room unused l)

  -- Each way through the section keeps the invariant.
  pub Inv-add :
      {t : System}
      → malloc_can_return s.pool.jobs pjob ≡ true
      → add_next s i job (threadpool_add_job s.pool pjob job) ≡ some t
      → Inv t
  Inv-add may = by_view _ (threadpool_add_job-view s.pool cells pjob job inv.queue may)
