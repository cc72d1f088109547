-- ===== src/PhreadPool/Executed/Once.antt =====
-- Each accepted job of Pthread/phread_pool.c is run once.
use linux_system_code.Common.{
  ℕ, zero, suc, ◌+◌, ◌≡◌, ◌<◌, refl, ap, ◌∙◌, Bool, true, List, length, arith,
}
use linux_system_code.Store.{Store}
use linux_system_code.PhreadPool.{Job, Pool, InitCalls}
use linux_system_code.PhreadPool.System.{Pc, System, init, Reach, start, later}
use linux_system_code.PhreadPool.Invariant.{Reach-Inv}
use linux_system_code.PhreadPool.Safety.{jobs_in_order, freed_when_drained}
use linux_system_code.PhreadPool.Executed.{count, count-append, one, running, IsBalanced}
use linux_system_code.PhreadPool.Executed.Kept.{step-IsBalanced}

none_running :
    (t : Job → Bool) (jobs : Store Job) (pc : ℕ → Pc) (n : ℕ)
    → ((j : ℕ) → j < n → one t jobs (pc j) ≡ 0)
    → running t jobs pc n ≡ 0
none_running t jobs pc zero idle = refl
none_running t jobs pc (suc n) idle =
    omega (arith, idle n (omega arith), none_running t jobs pc n (λ j h. idle j (omega arith)))

init-IsBalanced : (t : Job → Bool) (p : Pool) → IsBalanced t (init p)
init-IsBalanced t p =
    omega (arith, none_running t p.jobs (init p).pc p.thread_num (λ j h. ground arith))

Reach-IsBalanced :
    (t : Job → Bool) (c : InitCalls) (n m : ℕ) {s : System} → Reach c n m s → IsBalanced t s
Reach-IsBalanced t c n m (start {p} e) = init-IsBalanced t p
Reach-IsBalanced t c n m (later {s} e r d) =
    step-IsBalanced t s e (Reach-Inv c n m r) (Reach-IsBalanced t c n m r) d

module _ (c : InitCalls) (n m : ℕ) {s : System} (r : Reach c n m s) where
  -- No job is lost or run twice: of the jobs that pass any test, as many have been accepted by
  -- threadpool_add_job as have been run, are being run by the workers, and stand in the queue, which are as
  -- many as queue_cur_num counts.
  pub accepted_once :
      (rest : List Job) × (length rest ≡ s.pool.queue_cur_num)
      × ((t : Job → Bool)
          → count t s.accepted
            ≡ count t s.executed + running t s.pool.jobs s.pc s.pool.thread_num + count t rest)
  accepted_once =
      let (rest, log, size, _) = jobs_in_order c n m r in
      (
        rest,
        size,
        λ t.
            ap (count t) log
            ∙ omega (arith, count-append t s.taken rest, Reach-IsBalanced t c n m r),
      )

  -- When threadpool_destroy has freed a pool with a worker, as many of the jobs that pass any test
  -- have been run as threadpool_add_job has accepted: each of them once.
  pub all_executed :
      s.freed ≡ true
      → 0 < s.pool.thread_num
      → (t : Job → Bool) → count t s.accepted ≡ count t s.executed
  all_executed freed some_worker t =
      let (log, gone, _) = freed_when_drained c n m r freed some_worker in
      let idle : running t s.pool.jobs s.pc s.pool.thread_num ≡ 0 =
        none_running t s.pool.jobs s.pc s.pool.thread_num
          (λ j h. ap (one t s.pool.jobs) (gone j h)) in
      ap (count t) log ∙ omega (arith, Reach-IsBalanced t c n m r, idle)
