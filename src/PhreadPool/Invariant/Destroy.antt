-- ===== src/PhreadPool/Invariant/Destroy.antt =====
-- `threadpool_destroy` keeps the invariant: its section, the broadcasts and the joins.
use mathlib.Core.Path.{subst}
use mathlib.Core.Bool.{false≢true}
use mathlib.Core.Option.{some-injective}
use linux_system_code.Common.{
  ℕ, zero, suc, ◌≡◌, ◌≢◌, refl, ap, sym, ◌∙◌, ◌<◌, ◌⊎◌, true, false, ◌||◌, some, arith, Bool-cases,
  inl, inr, ◌==◌,
}
use linux_system_code.PhreadPool.{Pool, destroy_wait, threadpool_destroy}
use linux_system_code.PhreadPool.Views.{threadpool_destroy-refused, threadpool_destroy-closes}
use linux_system_code.PhreadPool.Queue.{IsQueue-flags}
use linux_system_code.PhreadPool.System.{
  Pc, client, adding, add_waiting, working, work_waiting, busy, exited, destroying, destroy_waiting,
  destroy_resuming, closing, joining, System, set_pc, wake_not_empty, wake_not_full, destroy_next,
  all_exited, run_broadcast, run_join,
}
use linux_system_code.PhreadPool.Invariant.Defs.{Fits, is_worker, Inv}
use linux_system_code.PhreadPool.Invariant.Moves.{
  Fits-at, Wakes-none, Wakes-both, Wakes-not_empty, Wakes-not_full, Inv-moved, others-quiet,
}

module _ (s : System) (inv : Inv s) (i : ℕ) where
  open inv use {cells}

  -- Thread `i` is the first to close the queue, or did so before.
  abbrev Owns : Type 0
  Owns = (s.pool.queue_close ≡ false) ⊎ (i ≡ s.owner)

  module _ (owns : Owns) (open_pool : s.pool.pool_close ≡ false) where
    -- `p` is the pool with one or both flags set.
    Fits-other :
        (p : Pool) (k : ℕ) (q q' : Pc) (x : Pc)
        → p.queue_cur_num ≡ s.pool.queue_cur_num
        → p.queue_max_num ≡ s.pool.queue_max_num
        → p.jobs ≡ s.pool.jobs
        → (p.pool_close ≡ true → q' ≡ closing)
        → i ≢ k
        → Fits s.pool cells s.owner q k x
        → Fits p cells i q' k x
    Fits-other p k q q' client n m j c ne f = tt
    Fits-other p k q q' (adding job) n m j c ne f = tt
    Fits-other p k q q' (add_waiting job) n m j c ne f = (n ∙ f.0 ∙ sym m, c)
    Fits-other p k q q' working n m j c ne f = tt
    Fits-other p k q q' work_waiting n m j c ne f = (n ∙ f.0, c)
    Fits-other p k q q' (busy a) n m j c ne f = (f.0, rw j f.1, f.2)
    Fits-other p k q q' exited n m j c ne f = cc
    Fits-other p k q q' destroying n m j c ne f = tt
    Fits-other p k q q' destroy_waiting n m j c ne f = absurd (ground arith)
    Fits-other p k q q' destroy_resuming n m j c ne f = absurd (ground arith)
    Fits-other p k q q' closing n m j c ne f = cc
    Fits-other p k q q' joining n m j c ne f = cc

    abbrev closed_queue : Pool
    closed_queue = record (s.pool) { queue_close = true }

    abbrev closed_pool : Pool
    closed_pool = record (s.pool) { queue_close = true; pool_close = true }

    module _ (outsider : is_worker (s.pc i) ≡ false) where
      alive : s.pc i ≢ exited
      alive e = false≢true (sym outsider ∙ ap is_worker e)

      -- The flag `queue_close` is set, and jobs are left.
      Inv-waits :
          s.pool.queue_cur_num ≢ 0
          → Inv (record s { pool = closed_queue; pc = set_pc s.pc i destroy_waiting; owner = i })
      Inv-waits left =
          Inv-moved inv Wakes-none i destroy_waiting (record s { pool = closed_queue; owner = i })
            cells alive (sym outsider) (λ a e. cc) refl
            (IsQueue-flags inv.queue true s.pool.pool_close) inv.bound inv.log (λ c. cc)
            (λ k ne.
              Fits-other closed_queue k (s.pc s.owner) _ (s.pc k) refl refl refl (λ c. cc) ne
                (inv.fits k))
            (refl, refl, open_pool, left)

      -- Both flags are set, and no job is left.
      Inv-closes :
          s.pool.queue_cur_num ≡ 0
          → Inv (record s { pool = closed_pool; pc = set_pc s.pc i closing; owner = i })
      Inv-closes empty =
          Inv-moved inv Wakes-none i closing (record s { pool = closed_pool; owner = i }) cells
            alive (sym outsider) (λ a e. cc) refl (IsQueue-flags inv.queue true true) inv.bound
            inv.log (λ c. (refl, empty))
            (λ k ne.
              Fits-other closed_pool k (s.pc s.owner) _ (s.pc k) refl refl refl (λ c. ground arith)
                ne (inv.fits k))
            (refl, refl, refl)

      Inv-destroy_wait : Inv (destroy_next s i (destroy_wait closed_queue))
      unfolding destroy_wait destroy_next
      Inv-destroy_wait = elim (Bool-cases (s.pool.queue_cur_num == 0)) [
        | inl e ↦ rw e (Inv-closes (ground arith))
        | inr e ↦ rw e (Inv-waits (ground arith))
      ]

  pub Inv-destroy : s.pc i ≡ destroying → Inv (destroy_next s i (threadpool_destroy s.pool))
  unfolding destroy_next
  Inv-destroy here = elim (Bool-cases (s.pool.queue_close || s.pool.pool_close)) [
    | inl c ↦ rw (threadpool_destroy-refused s.pool c) (
        Inv-moved inv Wakes-none i client s cells (λ e. cc) (ap is_worker (sym here)) (λ a e. cc)
          refl inv.queue inv.bound inv.log inv.closed
          (others-quiet inv Wakes-none i client s cells (λ e. cc)) tt)
    | inr c ↦
        rw (threadpool_destroy-closes s.pool c)
          (Inv-destroy_wait (inl (ground arith)) (ground arith) (ap is_worker here))
  ]

  pub Inv-resume : s.pc i ≡ destroy_resuming → Inv (destroy_next s i (destroy_wait s.pool))
  Inv-resume here =
      let f = Fits-at inv here in
      let same : s.pool ≡ record (s.pool) { queue_close = true } = ground arith in
      subst (λ p. Inv (destroy_next s i (destroy_wait p))) (sym same)
        (Inv-destroy_wait (inr f.0) f.2 (ap is_worker here))

  -- The broadcasts wake every thread that sleeps on queue_not_empty or queue_not_full.
  Fits-woken :
      (k : ℕ) (q q' : Pc) (x : Pc)
      → i ≢ k
      → i ≡ s.owner
      → Fits s.pool cells s.owner q k x
      → Fits s.pool cells s.owner q' k (wake_not_full true (wake_not_empty true x))
  Fits-woken k q q' (add_waiting job) ne own f = tt
  Fits-woken k q q' work_waiting ne own f = tt
  Fits-woken k q q' closing ne own f = absurd (ne (own ∙ sym f.0))
  Fits-woken k q q' client ne own f = f
  Fits-woken k q q' (adding job) ne own f = f
  Fits-woken k q q' working ne own f = f
  Fits-woken k q q' (busy a) ne own f = f
  Fits-woken k q q' exited ne own f = f
  Fits-woken k q q' destroying ne own f = f
  Fits-woken k q q' destroy_waiting ne own f = f
  Fits-woken k q q' destroy_resuming ne own f = f
  Fits-woken k q q' joining ne own f = f

  pub Inv-broadcast : {t : System} → s.pc i ≡ closing → run_broadcast s i closing ≡ some t → Inv t
  unfolding run_broadcast
  Inv-broadcast {t} here e =
      let f = Fits-at inv here in
      subst Inv (some-injective _ t e) (
        Inv-moved inv (Wakes-both (Wakes-not_full true) (Wakes-not_empty true)) i joining s cells
          (λ e. cc) (ap is_worker (sym here)) (λ a e. cc) refl inv.queue inv.bound inv.log
          inv.closed (λ k ne. Fits-woken k (s.pc s.owner) _ (s.pc k) ne f.0 (inv.fits k)) f)

all_exited_sound : (n : ℕ) (f : ℕ → Pc) → all_exited n f ≡ true → (k : ℕ) → k < n → f k ≡ exited
unfolding all_exited
all_exited_sound zero f e k h = absurd (omega arith)
all_exited_sound (suc n) f e k h = elim (Bool-cases (k == n)) [
  | inl same ↦ let d : k ≡ n = ground arith in let g : f n ≡ exited = ground arith in rw d g
  | inr other ↦ all_exited_sound n f (ground arith) k (ground arith)
]

joining_alive : {x : Pc} → x ≡ joining → x ≢ exited
joining_alive e d = cc

module _ (s : System) (inv : Inv s) (i : ℕ) where
  Inv-joined : s.pc i ≡ joining → Inv (record s { pc = set_pc s.pc i client })
  Inv-joined here =
      Inv-moved inv Wakes-none i client s inv.cells (λ e. cc) (ap is_worker (sym here)) (λ a e. cc)
        refl inv.queue inv.bound inv.log inv.closed
        (others-quiet inv Wakes-none i client s inv.cells (λ e. cc)) tt

  pub Inv-join : {t : System} → s.pc i ≡ joining → run_join s i joining ≡ some t → Inv t
  unfolding run_join
  Inv-join {t} here e = elim (Bool-cases (all_exited s.pool.thread_num s.pc)) [
    | inr no_ ↦ cc
    | inl done ↦
        let j = Inv-joined here in
        subst Inv (some-injective _ t (rw done at e)) (record {
          cells = j.cells;
          queue = j.queue;
          bound = j.bound;
          log = j.log;
          closed = j.closed;
          fits = j.fits;
          unique = j.unique;
          role = j.role;
          gone = λ _ k h.
              let k_done = all_exited_sound s.pool.thread_num s.pc done k h in
              elim (Bool-cases (i == k)) [
                | inl same ↦
                    let d : i ≡ k = ground arith in absurd (joining_alive here (ap s.pc d ∙ k_done))
                | inr other ↦ rw other k_done
              ];
        })
  ]
