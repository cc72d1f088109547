-- ===== src/PhreadPool/Executed.antt =====
-- The jobs of Pthread/phread_pool.c that have been taken: their callback has run, or a worker runs it.
--
-- Two lists hold the same jobs, each as often, if as many of the one as of the other pass each test.
pub mod Work
pub mod Kept
pub mod Once
use mathlib.Core.Path.{subst}
use mathlib.Core.Option.{some-injective}
use linux_system_code.Common.{
  ℕ, zero, suc, ◌+◌, ◌≡◌, ◌≢◌, ◌<◌, refl, sym, ap, ◌∙◌, Bool, true, false, Option, none, some, List,
  [], ◌∷◌, ◌++◌, ◌==◌, ◌||◌, if◌then◌else◌, if_elim, ltb, is_none, arith, Bool-cases, Option-cases,
  inl, inr,
}
use linux_system_code.Store.{Store, Node, Cells, malloc_can_return, write, has}
use linux_system_code.Store.Chains.{write_ne}
use linux_system_code.PhreadPool.{
  Job, Pool, InitCalls, AddOutcome, WorkOutcome, threadpool_add_job, threadpool_function, run_job,
  destroy_wait, threadpool_destroy,
}
use linux_system_code.PhreadPool.Queue.{is_nil, Linked, Taken}
use linux_system_code.PhreadPool.Views.{
  AddView, asleep, refused, linked, threadpool_add_job-view, WorkView, sleeps, exits, takes,
  threadpool_function-view, run_job-frees, threadpool_destroy-refused, threadpool_destroy-closes,
}
use linux_system_code.PhreadPool.System.{
  Pc, client, adding, add_waiting, working, work_waiting, busy, exited, destroying, destroy_waiting,
  destroy_resuming, closing, joining, System, set_pc, wake_not_empty, wake_not_full, wake_empty,
  after_add, after_work, Event, call_add, call_destroy, section, run_callback, broadcast_closed,
  join_all, spurious, asserts_hold, enter, add_next, work_next, run_next, destroy_next, run_section,
  run_busy, run_broadcast, run_join, run_spurious, all_exited, step, init, Reach, start, later,
}
use linux_system_code.PhreadPool.Invariant.{Reach-Inv}
use linux_system_code.PhreadPool.Invariant.Defs.{Inv}
use linux_system_code.PhreadPool.Invariant.Moves.{Fits-at}

-- How many of the jobs pass the test.
abbrev pub count : (Job → Bool) → List Job → ℕ
count t [] = 0
count t (job ∷ jobs) = (if t job then 1 else 0) + count t jobs

count-append : (t : Job → Bool) (xs ys : List Job) → count t (xs ++ ys) ≡ count t xs + count t ys
count-append t [] ys = omega arith
count-append t (x ∷ xs) ys = omega (arith, count-append t xs ys)

abbrev job_in : Store Job → ℕ → List Job
job_in jobs a = elim (jobs a) [ none ↦ [] | some n ↦ n.value ∷ [] ]

set_pc-own : (f : ℕ → Pc) (i : ℕ) (p : Pc) → set_pc f i p i ≡ p
set_pc-own f i p = let same : (i == i) ≡ true = ground arith in rw same refl

set_pc-other : (f : ℕ → Pc) (i j : ℕ) (p : Pc) → i ≢ j → set_pc f i p j ≡ f j
set_pc-other f i j p ne = let other : (i == j) ≡ false = ground arith in rw other refl

module _ (t : Job → Bool) where
  -- Of the job that a thread runs.
  abbrev pub one : Store Job → Pc → ℕ
  one jobs (busy a) = count t (job_in jobs a)
  one jobs _ = 0

  -- Of the jobs that the first `n` threads run.
  abbrev pub running : Store Job → (ℕ → Pc) → (n : ℕ) → ℕ
  running jobs pc zero = 0
  running jobs pc (suc n) = one jobs (pc n) + running jobs pc n

  running-same :
      (h k : Store Job) (f g : ℕ → Pc) (n : ℕ)
      → ((j : ℕ) → j < n → one h (f j) ≡ one k (g j))
      → running h f n ≡ running k g n
  running-same h k f g zero same = refl
  running-same h k f g (suc n) same =
      omega (arith, same n (omega arith), running-same h k f g n (λ j b. same j (omega arith)))

  -- Thread `i` alone runs another job.
  running-moved :
      (h k : Store Job) (f g : ℕ → Pc) (i n : ℕ)
      → i < n
      → ((j : ℕ) → i ≢ j → one h (f j) ≡ one k (g j))
      → running h f n + one k (g i) ≡ running k g n + one h (f i)
  running-moved h k f g i zero b same = absurd (omega arith)
  running-moved h k f g i (suc n) b same = elim (Bool-cases (i == n)) [
    | inl own ↦
        let e : i ≡ n = ground arith in
        rw e (omega (arith, running-same h k f g n (λ j c. same j (omega (arith, e)))))
    | inr other ↦
        let ne : i ≢ n = ground arith in
        omega (arith, same n ne, running-moved h k f g i n (omega (arith, ne)) same)
  ]

  abbrev pub Balanced : (taken executed : List Job) → Store Job → (ℕ → Pc) → ℕ → Type 0
  Balanced taken executed jobs pc n = count t taken ≡ count t executed + running jobs pc n

  abbrev pub IsBalanced : System → Type 0
  IsBalanced s = Balanced s.taken s.executed s.pool.jobs s.pc s.pool.thread_num

  -- What wakes sleepers leaves what each thread runs.
  one-not_empty :
      (jobs : Store Job) (b : Bool) (x : Pc) → one jobs (wake_not_empty b x) ≡ one jobs x
  one-not_empty jobs b x = ground arith

  one-not_full : (jobs : Store Job) (b : Bool) (x : Pc) → one jobs (wake_not_full b x) ≡ one jobs x
  one-not_full jobs b x = ground arith

  one-empty : (jobs : Store Job) (b : Bool) (x : Pc) → one jobs (wake_empty b x) ≡ one jobs x
  one-empty jobs b x = ground arith

  module _ (s : System) (done : IsBalanced s) where
    -- Thread `i` neither runs a job nor begins to, and the jobs that run are left alone.
    quiet :
        (jobs : Store Job) (w : Pc → Pc) (i : ℕ) (new : Pc) (n : ℕ)
        → n ≡ s.pool.thread_num
        → ((j : ℕ) → one jobs (w (s.pc j)) ≡ one s.pool.jobs (s.pc j))
        → one s.pool.jobs (s.pc i) ≡ 0
        → one jobs new ≡ 0
        → Balanced s.taken s.executed jobs (set_pc (λ j. w (s.pc j)) i new) n
    quiet jobs w i new n threads same before after =
        let each : (j : ℕ)
            → one jobs (set_pc (λ k. w (s.pc k)) i new j) ≡ one s.pool.jobs (s.pc j) =
          λ j. elim (Bool-cases (i == j)) [
            | inl own ↦
                let e : i ≡ j = ground arith in
                rw own (after ∙ sym (ap (λ k. one s.pool.jobs (s.pc k)) (sym e) ∙ before))
            | inr other ↦ rw other (same j)
          ] in
        done
        ∙ ap (λ r. count t s.executed + r)
            (ap (running s.pool.jobs s.pc) (sym threads)
              ∙ sym (running-same jobs s.pool.jobs _ s.pc n (λ j b. each j)))

    still :
        (i : ℕ) (new : Pc)
        → one s.pool.jobs (s.pc i) ≡ 0
        → one s.pool.jobs new ≡ 0
        → IsBalanced (record s { pc = set_pc s.pc i new })
    still i new before after =
        quiet s.pool.jobs (λ x. x) i new s.pool.thread_num refl (λ j. refl) before after
