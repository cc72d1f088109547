-- ===== src/PhreadPool/Executed/Kept.antt =====
-- Every step of Pthread/phread_pool.c keeps the balance of the jobs taken, run and running.
use mathlib.Core.Path.{subst}
use mathlib.Core.Option.{some-injective}
use linux_system_code.Common.{
  ℕ, ◌≡◌, refl, ap, ◌∙◌, Bool, true, none, some, ◌==◌, ◌||◌, if_elim, Bool-cases, inl, inr,
}
use linux_system_code.Store.{malloc_can_return}
use linux_system_code.PhreadPool.{Job, Pool, DestroyOutcome, destroy_wait, threadpool_destroy}
use linux_system_code.PhreadPool.Views.{
  threadpool_add_job-view, threadpool_function-view, threadpool_destroy-refused,
  threadpool_destroy-closes,
}
use linux_system_code.PhreadPool.System.{
  unless_freed-some, Pc, client, adding, add_waiting, working, work_waiting, busy, destroying,
  destroy_waiting, destroy_resuming, closing, joining, System, set_pc, wake_not_empty,
  wake_not_full, Event, call_add, call_destroy, section, run_callback, broadcast_closed, join_all,
  spurious, asserts_hold, enter, destroy_next, run_section, run_busy, run_broadcast, run_join,
  run_spurious, all_exited, step,
}
use linux_system_code.PhreadPool.Invariant.Defs.{Inv}
use linux_system_code.PhreadPool.Executed.{
  one, Balanced, IsBalanced, one-not_empty, one-not_full, quiet, still,
}
use linux_system_code.PhreadPool.Executed.Work.{
  idle, add-IsBalanced, work-IsBalanced, run-IsBalanced,
}

module _ (t : Job → Bool) (s : System) (inv : Inv s) (done : IsBalanced t s) (i : ℕ) where
  open inv use {cells}

  destroyed-IsBalanced :
      (p : Pool)
      → p.jobs ≡ s.pool.jobs
      → p.thread_num ≡ s.pool.thread_num
      → one t s.pool.jobs (s.pc i) ≡ 0
      → IsBalanced t (destroy_next s i (destroy_wait p))
  unfolding destroy_wait destroy_next
  destroyed-IsBalanced p jobs threads z =
      let unchanged : (new : Pc)
          → one t p.jobs new ≡ 0
          → Balanced t s.taken s.executed p.jobs (set_pc s.pc i new) p.thread_num =
        λ new own.
          quiet t s done p.jobs (λ x. x) i new p.thread_num threads
            (λ j. ap (λ h. one t h (s.pc j)) jobs) z own in
      if_elim (λ (d : DestroyOutcome × Pool). IsBalanced t (destroy_next s i d))
        (p.queue_cur_num == 0) _ _ (λ _. unchanged closing refl)
        (λ _. unchanged destroy_waiting refl)

  destroy-IsBalanced :
      s.pc i ≡ destroying → IsBalanced t (destroy_next s i (threadpool_destroy s.pool))
  unfolding destroy_next
  destroy-IsBalanced here = elim (Bool-cases (s.pool.queue_close || s.pool.pool_close)) [
    | inl c ↦
        rw (threadpool_destroy-refused s.pool c)
          (still t s done i client (idle t s inv done i destroying here refl) refl)
    | inr c ↦ rw (threadpool_destroy-closes s.pool c) (
        destroyed-IsBalanced (record (s.pool) { queue_close = true }) refl refl
          (idle t s inv done i destroying here refl))
  ]

  broadcast-IsBalanced :
      {u : System} → s.pc i ≡ closing → run_broadcast s i closing ≡ some u → IsBalanced t u
  unfolding run_broadcast
  broadcast-IsBalanced {u} here e = subst (IsBalanced t) (some-injective _ u e) (
      quiet t s done s.pool.jobs (λ x. wake_not_full true (wake_not_empty true x)) i joining
        s.pool.thread_num refl
        (λ j.
          one-not_full t s.pool.jobs true (wake_not_empty true (s.pc j))
          ∙ one-not_empty t s.pool.jobs true (s.pc j))
        (idle t s inv done i closing here refl) refl)

  join-IsBalanced : {u : System} → s.pc i ≡ joining → run_join s i joining ≡ some u → IsBalanced t u
  unfolding run_join
  join-IsBalanced {u} here e = elim (Bool-cases (all_exited s.pool.thread_num s.pc)) [
    | inr waits ↦ cc
    | inl all ↦
        subst (IsBalanced t) (some-injective _ u (rw all at e))
          (still t s done i client (idle t s inv done i joining here refl) refl)
  ]

  spurious-IsBalanced :
      {u : System} (x : Pc) → s.pc i ≡ x → run_spurious s i x ≡ some u → IsBalanced t u
  unfolding run_spurious
  spurious-IsBalanced {u} work_waiting here e =
      subst (IsBalanced t) (some-injective _ u e)
        (still t s done i working (idle t s inv done i work_waiting here refl) refl)
  spurious-IsBalanced {u} (add_waiting job) here e =
      subst (IsBalanced t) (some-injective _ u e)
        (still t s done i (adding job) (idle t s inv done i (add_waiting job) here refl) refl)
  spurious-IsBalanced {u} destroy_waiting here e =
      subst (IsBalanced t) (some-injective _ u e)
        (still t s done i destroy_resuming (idle t s inv done i destroy_waiting here refl) refl)
  spurious-IsBalanced _ here e = cc

  enter-IsBalanced :
      {u : System} (x new : Pc)
      → one t s.pool.jobs new ≡ 0
      → s.pc i ≡ x
      → enter s i x new ≡ some u
      → IsBalanced t u
  unfolding enter
  enter-IsBalanced {u} client new z here e =
      subst (IsBalanced t) (some-injective _ u e)
        (still t s done i new (idle t s inv done i client here refl) z)
  enter-IsBalanced _ new z here e = cc

  none-IsBalanced : {u : System} → none ≡ some u → IsBalanced t u
  none-IsBalanced e = cc

  section-IsBalanced :
      {u : System} (fresh : ℕ) (x : Pc)
      → s.pc i ≡ x
      → run_section s i fresh x ≡ some u
      → IsBalanced t u
  unfolding run_section
  section-IsBalanced fresh (adding job) here e =
      elim (Bool-cases (malloc_can_return s.pool.jobs fresh)) [
        | inl may ↦
            add-IsBalanced t s inv done i fresh job _ here
              (threadpool_add_job-view s.pool cells fresh job inv.queue may) (rw may at e)
        | inr bad ↦ none-IsBalanced (rw bad at e)
      ]
  section-IsBalanced fresh working here e =
      work-IsBalanced t s inv done i _ here (threadpool_function-view s.pool cells inv.queue) e
  section-IsBalanced {u} fresh destroying here e =
      subst (IsBalanced t) (some-injective _ u e) (destroy-IsBalanced here)
  section-IsBalanced {u} fresh destroy_resuming here e =
      subst (IsBalanced t) (some-injective _ u e)
        (destroyed-IsBalanced s.pool refl refl (idle t s inv done i destroy_resuming here refl))
  section-IsBalanced fresh _ here e = cc

  busy-IsBalanced : {u : System} (x : Pc) → s.pc i ≡ x → run_busy s i x ≡ some u → IsBalanced t u
  unfolding run_busy
  busy-IsBalanced (busy a) here e = run-IsBalanced t s inv done i a here e
  busy-IsBalanced _ here e = cc

  closing-IsBalanced :
      {u : System} (x : Pc) → s.pc i ≡ x → run_broadcast s i x ≡ some u → IsBalanced t u
  unfolding run_broadcast
  closing-IsBalanced closing here e = broadcast-IsBalanced here e
  closing-IsBalanced _ here e = cc

  joining-IsBalanced : {u : System} (x : Pc) → s.pc i ≡ x → run_join s i x ≡ some u → IsBalanced t u
  unfolding run_join
  joining-IsBalanced joining here e = join-IsBalanced here e
  joining-IsBalanced _ here e = cc

pub step-IsBalanced :
    (t : Job → Bool) (s : System) (e : Event) {u : System}
    → Inv s
    → IsBalanced t s
    → step s e ≡ some u
    → IsBalanced t u
unfolding step
step-IsBalanced t s (call_add i job) inv done e = elim (Bool-cases (asserts_hold job)) [
  | inl held ↦ enter-IsBalanced t s inv done i (s.pc i) (adding job) refl refl (rw held at e)
  | inr broken ↦ none-IsBalanced t s inv done i (rw broken at e)
]
step-IsBalanced t s (call_destroy i) inv done e =
    enter-IsBalanced t s inv done i (s.pc i) destroying refl refl e
step-IsBalanced t s (section i fresh) inv done e =
    section-IsBalanced t s inv done i fresh (s.pc i) refl (unless_freed-some s.freed _ e)
step-IsBalanced t s (run_callback i) inv done e = busy-IsBalanced t s inv done i (s.pc i) refl e
step-IsBalanced t s (broadcast_closed i) inv done e =
    closing-IsBalanced t s inv done i (s.pc i) refl e
step-IsBalanced t s (join_all i) inv done e = joining-IsBalanced t s inv done i (s.pc i) refl e
step-IsBalanced t s (spurious i) inv done e = spurious-IsBalanced t s inv done i (s.pc i) refl e
