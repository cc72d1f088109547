-- ===== src/PhreadPool1/Threads/Safety.antt =====
-- When the workers of Pthread/phread_pool1.0.c are awake, and when `thread_pool_destroy` waits for ever.
use linux_system_code.Common.{
  ℕ, ◌+◌, ◌-◌, ◌≡◌, ◌≢◌, ◌<◌, inl, inr, refl, ap, ◌∙◌, Bool, true, false, not, ◌&&◌, List, [], ◌∷◌,
  ◌++◌, ltb, ◌==◌, if_elim, length, length-append, arith, Bool-cases,
}
use linux_system_code.Store.{null, load, first, values, Cells}
use linux_system_code.Steps.{Result, ok, blocked, fault, Keeps, Keeps-if, Keeps-ok}
use linux_system_code.PhreadPool1.{Job, Pool, take_job}
use linux_system_code.PhreadPool1.Queue.{Reach-Inv}
use linux_system_code.PhreadPool1.Threads.{
  Destroyer, outside, flagged, joining, destroyed, Threads, took, tested, set_shutdown, broadcast,
  join, Event, enqueue, test, wait, wake, run, shut_down, wake_all, join_all, step, Reaches, later,
}
use linux_system_code.PhreadPool1.Threads.Invariant.{Inv, Reaches-Inv}
use linux_system_code.PhreadPool1

queued : (p : Pool) → PhreadPool1.Reach p → p.queue_head ≢ null → length p.taken < length p.enqueued
queued p r e = let inv = Reach-Inv r in some_cells inv.cells (λ z. e (inv.head ∙ z)) inv.log
  where
    some_cells :
        (cells : Cells Job)
        → first cells ≢ null
        → p.enqueued ≡ p.taken ++ values cells
        → length p.taken < length p.enqueued
    some_cells [] ne log = absurd (ne refl)
    some_cells (x ∷ xs) ne log =
        omega (arith, ap length log, length-append p.taken (values (x ∷ xs)))

-- No wake-up is lost before the shutdown: in a pool with a worker, while a job is queued, a worker is awake,
-- before the lock or running a job.
pub worker_awake :
    (n : ℕ) {s : Threads}
    → Reaches n s
    → 0 < n
    → s.pool.is_shutdown ≡ false
    → s.pool.queue_head ≢ null
    → 0 < s.ready + s.running
worker_awake n {s} r some_worker open_pool some_job =
    let inv = Reaches-Inv n r in
    let more : length s.pool.taken < length s.pool.enqueued = queued s.pool inv.pool some_job in
    elim (inv.awake open_pool) [
      | inr h ↦ omega (arith, h, more)
      | inl z ↦ elim (Bool-cases (s.deciding == 0)) [
        | inl idle ↦
            let d : s.deciding ≡ 0 = ground arith in
            omega (arith, z, d, inv.everyone, inv.alive open_pool, some_worker)
        | inr waits ↦
            let d : s.deciding ≢ 0 = ground arith in absurd (omega (arith, inv.empty d, more))
      ]
    ]

-- The destroyer waits for a worker that sleeps.
abbrev Hung : Threads → Type 0
Hung t = (t.destroyer ≡ joining) × (0 < t.sleeping)

-- Neither a signal nor a wake-up for no reason.
abbrev pub wakes_none : List Event → Bool
wakes_none [] = true
wakes_none (enqueue new_job job ∷ es) = false
wakes_none (wake ∷ es) = false
wakes_none (_ ∷ es) = wakes_none es

-- The steps in turn.
abbrev pub runs : List Event → Result Threads → Result Threads
runs [] r = r
runs (e ∷ es) (ok s) = runs es (step s e)
runs (e ∷ es) blocked = blocked
runs (e ∷ es) fault = fault

module _ (n : ℕ) (s : Threads) (inv : Inv n s) (h : Hung s) where
  took-Hung : (r : Result Pool) → Keeps Hung (took s r)
  unfolding took
  took-Hung (ok q) = h
  took-Hung blocked = tt
  took-Hung fault = tt

  tested-Hung : Keeps Hung (tested s)
  unfolding tested
  tested-Hung =
      if_elim (Keeps Hung) ((s.pool.queue_head == null) && not s.pool.is_shutdown) (ok _) _ (λ _. h)
        (λ _.
          if_elim (Keeps Hung) s.pool.is_shutdown (ok _)
            (took s (take_job s.pool (load s.pool.jobs s.pool.queue_head))) (λ _. h)
            (λ _. took-Hung (take_job s.pool (load s.pool.jobs s.pool.queue_head))))

  set_shutdown-Hung : (d : Destroyer) → s.destroyer ≡ d → Keeps Hung (set_shutdown s d)
  unfolding set_shutdown
  set_shutdown-Hung outside here = absurd (let z = h.0 in cc)
  set_shutdown-Hung _ here = tt

  broadcast-Hung : (d : Destroyer) → s.destroyer ≡ d → Keeps Hung (broadcast s d)
  unfolding broadcast
  broadcast-Hung flagged here = absurd (let z = h.0 in cc)
  broadcast-Hung _ here = tt

  join-Hung : (d : Destroyer) → Keeps Hung (join s d)
  unfolding join
  join-Hung joining =
      Keeps-if Hung (s.exited == s.num_threads) (ok (record s { destroyer = destroyed }))
        (λ (all : (s.exited == s.num_threads) ≡ true).
          let e : s.exited ≡ s.num_threads = ground arith in
          absurd (omega (arith, e, inv.num, inv.everyone, h.1)))
  join-Hung _ = tt

  step-Hung : (e : Event) → wakes_none (e ∷ []) ≡ true → Keeps Hung (step s e)
  unfolding step
  step-Hung (enqueue new_job job) q = cc
  step-Hung wake q = cc
  step-Hung test q =
      Keeps-if Hung (ltb 0 s.ready && (s.deciding == 0)) (tested s) (λ _. tested-Hung)
  step-Hung wait q = Keeps-if Hung (ltb 0 s.deciding) (ok _) (λ _. (h.0, omega (arith, h.1)))
  step-Hung run q = Keeps-if Hung (ltb 0 s.running) (ok _) (λ _. h)
  step-Hung shut_down q = set_shutdown-Hung s.destroyer refl
  step-Hung wake_all q = broadcast-Hung s.destroyer refl
  step-Hung join_all q = join-Hung s.destroyer

wakes_none-head :
    (e : Event) (es : List Event)
    → wakes_none (e ∷ es) ≡ true
    → (wakes_none (e ∷ []) ≡ true) × (wakes_none es ≡ true)
wakes_none-head (enqueue new_job job) es q = cc
wakes_none-head wake es q = cc
wakes_none-head test es q = (refl, q)
wakes_none-head wait es q = (refl, q)
wakes_none-head run es q = (refl, q)
wakes_none-head shut_down es q = (refl, q)
wakes_none-head wake_all es q = (refl, q)
wakes_none-head join_all es q = (refl, q)

ok_by : {P : Threads → Type 0} (r : Result Threads) → ((u : Threads) → r ≡ ok u → P u) → Keeps P r
ok_by (ok u) f = f u refl
ok_by blocked f = tt
ok_by fault f = tt

abbrev HungIn : ℕ → Threads → Type 0
HungIn n t = Reaches n t × Hung t

runs-Hung :
    (n : ℕ) (es : List Event) (r : Result Threads) (t : Threads)
    → Keeps (HungIn n) r
    → wakes_none es ≡ true
    → runs es r ≡ ok t
    → Hung t
runs-Hung n [] r t k q e = (Keeps-ok (HungIn n) r t k e).1
runs-Hung n (x ∷ es) blocked t k q e = cc
runs-Hung n (x ∷ es) fault t k q e = cc
runs-Hung n (x ∷ es) (ok s) t (reach, h) q e =
    let (one, more) = wakes_none-head x es q in
    let kept : Keeps Hung (step s x) = step-Hung n s (Reaches-Inv n reach) h x one in
    runs-Hung n es (step s x) t
      (ok_by (step s x) (λ u d. (later x reach d, Keeps-ok Hung (step s x) u kept d))) more e

-- When thread_pool_destroy sets the flag and broadcasts while a worker stands between its test and its
-- wait, the worker then goes to sleep; and however the threads go on, without another enqueue and
-- without a wake-up for no reason, the worker sleeps and thread_pool_destroy waits for it.
pub missed_broadcast :
    (n : ℕ) {s : Threads}
    → Reaches n s
    → s.destroyer ≡ outside
    → 0 < s.deciding
    → (u : Threads) × (runs (shut_down ∷ wake_all ∷ wait ∷ []) (ok s) ≡ ok u)
      × ((es : List Event) (t : Threads)
          → wakes_none es ≡ true
          → runs es (ok u) ≡ ok t
          → (t.destroyer ≡ joining) × (0 < t.sleeping))
unfolding step set_shutdown broadcast
missed_broadcast n {s} r here decides =
    let s1 : Threads = record s {
      pool = record (s.pool) { is_shutdown = true };
      destroyer = flagged;
    } in
    let s2 : Threads = record s1 {
      ready = s.ready + s.sleeping;
      sleeping = 0;
      destroyer = joining;
    } in
    let u : Threads = record s2 { deciding = s.deciding - 1; sleeping = 0 + 1 } in
    let shut : step s shut_down ≡ ok s1 = ap (set_shutdown s) here in
    let slept : step s2 wait ≡ ok u =
      let some_worker : ltb 0 s.deciding ≡ true = ground arith in rw some_worker refl in
    let reach : Reaches n u = later wait (later wake_all (later shut_down r shut) refl) slept in
    (
      u,
      ap (runs (wake_all ∷ wait ∷ [])) shut ∙ slept,
      λ es t q e. runs-Hung n es (ok u) t (reach, (refl, omega arith)) q e,
    )
