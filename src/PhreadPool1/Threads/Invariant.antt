-- ===== src/PhreadPool1/Threads/Invariant.antt =====
-- What every step of the threads of Pthread/phread_pool1.0.c keeps.
use linux_system_code.Common.{
  ℕ, ◌+◌, ◌-◌, ◌≡◌, ◌≢◌, ◌≤◌, ◌<◌, ◌⊎◌, inl, inr, refl, sym, ap, ◌∙◌, true, false, not, ◌&&◌, ltb,
  ◌==◌, if◌then◌else◌, if_elim, length, arith,
}
use linux_system_code.Store.{null, load, malloc_can_return}
use linux_system_code.Steps.{Result, ok, blocked, fault, Keeps, Keeps-if, Keeps-ok}
use linux_system_code.PhreadPool1.{
  Job, Pool, link_last, thread_pool_init, thread_pool_enqueue, take_job, thread_function,
}
use linux_system_code.PhreadPool1.Threads.{
  Destroyer, outside, flagged, joining, destroyed, Threads, signalled, took, tested, set_shutdown,
  broadcast, join, Event, enqueue, test, wait, wake, run, shut_down, wake_all, join_all, step,
  Reaches, start, later,
}
use linux_system_code.PhreadPool1
use linux_system_code.PhreadPool1.Threads.Histories.{
  Enqueued, Took, thread_pool_enqueue-Enqueued, take_job-Took, counts, enqueue-Reach,
  take_job-Reach, shut_down-Reach,
}

pub record Inv (n : ℕ) (s : Threads) : Type 0 where
  pub pool : PhreadPool1.Reach s.pool
  pub num : s.num_threads ≡ n
  pub everyone : s.ready + s.deciding + s.sleeping + s.running + s.exited ≡ n
  -- A worker that is about to wait has the lock, and has found the queue empty.
  pub empty : s.deciding ≢ 0 → length s.pool.enqueued ≡ length s.pool.taken
  pub alone : s.deciding ≤ 1
  pub unset : s.destroyer ≡ outside → s.pool.is_shutdown ≡ false
  pub set : s.destroyer ≢ outside → s.pool.is_shutdown ≡ true
  pub alive : s.pool.is_shutdown ≡ false → s.exited ≡ 0
  -- While a worker sleeps, there is one awake for each job in the queue.
  pub awake :
      s.pool.is_shutdown ≡ false
      → (s.sleeping ≡ 0) ⊎ (length s.pool.enqueued ≤ length s.pool.taken + s.ready + s.running)

module _ (n : ℕ) (s : Threads) (inv : Inv n s) where
  kept_by_enqueue :
      (new_job : ℕ) (job : Job) (r : Result Pool)
      → s.deciding ≡ 0
      → Keeps (Enqueued s.pool) r
      → ((q : Pool) → r ≡ ok q → PhreadPool1.Reach q)
      → Keeps (Inv n) (signalled s r)
  unfolding signalled
  kept_by_enqueue new_job job fault idle k reach = tt
  kept_by_enqueue new_job job blocked idle k reach = tt
  kept_by_enqueue new_job job (ok q) idle (more, same, flag) reach =
      if_elim (Keeps (Inv n)) (s.sleeping == 0) (ok _) (ok _)
        (λ none_asleep. record {
          pool = reach q refl;
          num = inv.num;
          everyone = inv.everyone;
          empty = λ d. absurd (d idle);
          alone = inv.alone;
          unset = λ d. flag ∙ inv.unset d;
          set = λ d. flag ∙ inv.set d;
          alive = λ e. inv.alive (sym flag ∙ e);
          awake = λ e. inl (ground arith);
        })
        (λ asleep. record {
          pool = reach q refl;
          num = inv.num;
          everyone = ground (arith, inv.everyone);
          empty = λ d. absurd (d idle);
          alone = inv.alone;
          unset = λ d. flag ∙ inv.unset d;
          set = λ d. flag ∙ inv.set d;
          alive = λ e. inv.alive (sym flag ∙ e);
          awake = λ e. inr (elim (inv.awake (sym flag ∙ e)) [
            | inl z ↦ absurd (ground arith)
            | inr h ↦ omega (arith, more, ap length same, h)
          ]);
        })

  kept_by_take :
      (r : Result Pool)
      → 0 < s.ready
      → s.deciding ≡ 0
      → Keeps (Took s.pool) r
      → ((q : Pool) → r ≡ ok q → PhreadPool1.Reach q)
      → Keeps (Inv n) (took s r)
  unfolding took
  kept_by_take fault busy_one idle k reach = tt
  kept_by_take blocked busy_one idle k reach = tt
  kept_by_take (ok q) busy_one idle (same, more, flag) reach = record {
    pool = reach q refl;
    num = inv.num;
    everyone = omega (arith, inv.everyone, busy_one);
    empty = λ d. absurd (d idle);
    alone = inv.alone;
    unset = λ d. flag ∙ inv.unset d;
    set = λ d. flag ∙ inv.set d;
    alive = λ e. inv.alive (sym flag ∙ e);
    awake = λ e. elim (inv.awake (sym flag ∙ e)) [
      | inl z ↦ inl z
      | inr h ↦ inr (omega (arith, more, ap length same, h, busy_one))
    ];
  }

  kept_by_test : 0 < s.ready → s.deciding ≡ 0 → Keeps (Inv n) (tested s)
  unfolding tested
  kept_by_test busy_one idle =
      let taking : Result Threads = took s (take_job s.pool (load s.pool.jobs s.pool.queue_head)) in
      let leaving : Threads = record s { ready = s.ready - 1; exited = s.exited + 1 } in
      if_elim (Keeps (Inv n)) ((s.pool.queue_head == null) && not s.pool.is_shutdown) (ok _)
        (if s.pool.is_shutdown then ok leaving else taking)
        (λ found.
          let no_job = counts s.pool inv.pool (ground arith) in
          record {
            pool = inv.pool;
            num = inv.num;
            everyone = omega (arith, inv.everyone, busy_one);
            empty = λ d. no_job;
            alone = omega (arith, idle);
            unset = inv.unset;
            set = inv.set;
            alive = inv.alive;
            awake = λ e. inr (omega (arith, no_job));
          })
        (λ other.
          if_elim (Keeps (Inv n)) s.pool.is_shutdown (ok leaving) taking
            (λ down. record {
              pool = inv.pool;
              num = inv.num;
              everyone = omega (arith, inv.everyone, busy_one);
              empty = inv.empty;
              alone = inv.alone;
              unset = inv.unset;
              set = inv.set;
              alive = λ e. cc;
              awake = λ e. cc;
            })
            (λ open_pool.
              kept_by_take (take_job s.pool (load s.pool.jobs s.pool.queue_head)) busy_one idle
                (take_job-Took s.pool (load s.pool.jobs s.pool.queue_head))
                (take_job-Reach s.pool inv.pool other open_pool)))

  kept_by_shutdown : (d : Destroyer) → s.destroyer ≡ d → Keeps (Inv n) (set_shutdown s d)
  unfolding set_shutdown
  kept_by_shutdown outside here = record {
    pool = shut_down-Reach s.pool inv.pool;
    num = inv.num;
    everyone = inv.everyone;
    empty = inv.empty;
    alone = inv.alone;
    unset = λ d. cc;
    set = λ d. refl;
    alive = λ e. cc;
    awake = λ e. cc;
  }
  kept_by_shutdown _ here = tt

  kept_by_broadcast : (d : Destroyer) → s.destroyer ≡ d → Keeps (Inv n) (broadcast s d)
  unfolding broadcast
  kept_by_broadcast flagged here = record {
    pool = inv.pool;
    num = inv.num;
    everyone = omega (arith, inv.everyone);
    empty = inv.empty;
    alone = inv.alone;
    unset = λ d. cc;
    set = λ d. inv.set (λ e. cc);
    alive = inv.alive;
    awake = λ e. inl refl;
  }
  kept_by_broadcast _ here = tt

  kept_by_join : (d : Destroyer) → s.destroyer ≡ d → Keeps (Inv n) (join s d)
  unfolding join
  kept_by_join joining here =
      Keeps-if (Inv n) (s.exited == s.num_threads) (ok (record s { destroyer = destroyed })) (λ _.
        record {
          pool = inv.pool;
          num = inv.num;
          everyone = inv.everyone;
          empty = inv.empty;
          alone = inv.alone;
          unset = λ d. cc;
          set = λ d. inv.set (λ e. cc);
          alive = inv.alive;
          awake = inv.awake;
        })
  kept_by_join _ here = tt

  step-Keeps : (e : Event) → Keeps (Inv n) (step s e)
  unfolding step
  step-Keeps (enqueue new_job job) =
      Keeps-if (Inv n) ((s.deciding == 0) && malloc_can_return s.pool.jobs new_job)
        (signalled s (thread_pool_enqueue s.pool new_job job))
        (λ b.
          let idle : s.deciding ≡ 0 = ground arith in
          let may : malloc_can_return s.pool.jobs new_job ≡ true = ground arith in
          kept_by_enqueue new_job job (thread_pool_enqueue s.pool new_job job) idle
            (thread_pool_enqueue-Enqueued s.pool new_job job)
            (enqueue-Reach s.pool new_job job inv.pool may))
  step-Keeps test =
      Keeps-if (Inv n) (ltb 0 s.ready && (s.deciding == 0)) (tested s)
        (λ b. kept_by_test (ground arith) (ground arith))
  step-Keeps wait =
      Keeps-if (Inv n) (ltb 0 s.deciding)
        (ok (record s { deciding = s.deciding - 1; sleeping = s.sleeping + 1 }))
        (λ b.
          let one : s.deciding ≡ 1 = ground (arith, inv.alone) in
          let no_job = inv.empty (omega (arith, one)) in
          record {
            pool = inv.pool;
            num = inv.num;
            everyone = omega (arith, inv.everyone, one);
            empty = λ d. absurd (omega (arith, one, d));
            alone = omega (arith, one);
            unset = inv.unset;
            set = inv.set;
            alive = inv.alive;
            awake = λ e. inr (omega (arith, no_job));
          })
  step-Keeps wake =
      Keeps-if (Inv n) (ltb 0 s.sleeping)
        (ok (record s { sleeping = s.sleeping - 1; ready = s.ready + 1 }))
        (λ b.
          let busy_one : 0 < s.sleeping = ground arith in
          record {
            pool = inv.pool;
            num = inv.num;
            everyone = omega (arith, inv.everyone, busy_one);
            empty = inv.empty;
            alone = inv.alone;
            unset = inv.unset;
            set = inv.set;
            alive = inv.alive;
            awake = λ e. elim (inv.awake e) [
              | inl z ↦ absurd (omega (arith, z, busy_one))
              | inr h ↦ inr (omega (arith, h))
            ];
          })
  step-Keeps run =
      Keeps-if (Inv n) (ltb 0 s.running)
        (ok (record s { running = s.running - 1; ready = s.ready + 1 }))
        (λ b.
          let busy_one : 0 < s.running = ground arith in
          record {
            pool = inv.pool;
            num = inv.num;
            everyone = omega (arith, inv.everyone, busy_one);
            empty = inv.empty;
            alone = inv.alone;
            unset = inv.unset;
            set = inv.set;
            alive = inv.alive;
            awake = λ e. elim (inv.awake e) [
              | inl z ↦ inl z
              | inr h ↦ inr (omega (arith, h, busy_one))
            ];
          })
  step-Keeps shut_down = kept_by_shutdown s.destroyer refl
  step-Keeps wake_all = kept_by_broadcast s.destroyer refl
  step-Keeps join_all = kept_by_join s.destroyer refl

pub Reaches-Inv : (n : ℕ) {s : Threads} → Reaches n s → Inv n s
Reaches-Inv n start = record {
  pool = PhreadPool1.start;
  num = refl;
  everyone = omega arith;
  empty = λ d. refl;
  alone = omega arith;
  unset = λ d. refl;
  set = λ d. absurd (d refl);
  alive = λ e. refl;
  awake = λ e. inl refl;
}
Reaches-Inv n (later {s} {t} e r q) =
    Keeps-ok (Inv n) (step s e) t (step-Keeps n s (Reaches-Inv n r) e) q
