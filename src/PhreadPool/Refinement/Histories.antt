-- ===== src/PhreadPool/Refinement/Histories.antt =====
-- What each step of the threads of Pthread/phread_pool.c adds to the histories of accepted and taken jobs.
use mathlib.Core.Path.{subst}
use mathlib.Core.Option.{some-injective}
use linux_system_code.Common.{
  ℕ, ◌≡◌, refl, ap, ◌∙◌, true, Option, none, some, List, [], ◌∷◌, ◌++◌, ◌==◌, ◌||◌, if_elim,
  Bool-cases, inl, inr,
}
use linux_system_code.Store.{malloc_can_return}
use linux_system_code.PhreadPool.{
  Job, Pool, AddOutcome, WorkOutcome, DestroyOutcome, run_job, destroy_wait, threadpool_destroy,
}
use linux_system_code.PhreadPool.Queue.{IsQueue}
use linux_system_code.PhreadPool.Views.{
  AddView, asleep, refused, linked, threadpool_add_job-view, WorkView, sleeps, exits, takes,
  threadpool_function-view, run_job-frees, threadpool_destroy-refused, threadpool_destroy-closes,
}
use linux_system_code.PhreadPool.System.{
  unless_freed-some, Pc, client, adding, add_waiting, working, work_waiting, busy, destroying,
  destroy_waiting, destroy_resuming, closing, joining, System, Event, call_add, call_destroy,
  section, run_callback, broadcast_closed, join_all, spurious, asserts_hold, enter, add_next,
  work_next, run_next, destroy_next, run_section, run_busy, run_broadcast, run_join, run_spurious,
  all_exited, step,
}
use linux_system_code.PhreadPool.Invariant.Defs.{Inv}
use linux_system_code.PhreadPool.Invariant.Moves.{Fits-at}
use linux_system_code.PhreadPool.Invariant.Work.{job_at_lem}
use linux_system_code.PhreadPool.Refinement.{Operation, put, take, nothing, in_of, out_of}

-- An operation of which the histories tell.
abbrev pub Tells : System → System → Operation → Type 0
Tells s t o =
    (t.accepted ≡ s.accepted ++ in_of o)
    × (t.taken ≡ s.taken ++ out_of o)
    × (t.pool.queue_max_num ≡ s.pool.queue_max_num)

abbrev Told : System → System → Type 0
Told s t = (o : Operation) × Tells s t o

pub append-none : (q : List Job) → q ≡ q ++ []
append-none [] = refl
append-none (x ∷ xs) = ap (λ (l : List Job). x ∷ l) (append-none xs)

-- A step that leaves the histories and the bound.
same :
    (s t : System)
    → t.accepted ≡ s.accepted
    → t.taken ≡ s.taken
    → t.pool.queue_max_num ≡ s.pool.queue_max_num
    → Told s t
same s t a k m = (nothing, (a ∙ append-none s.accepted, k ∙ append-none s.taken, m))

module _ (s : System) (inv : Inv s) (i : ℕ) where
  open inv use {cells}

  quiet :
      {t : System} (u : System)
      → u.accepted ≡ s.accepted
      → u.taken ≡ s.taken
      → u.pool.queue_max_num ≡ s.pool.queue_max_num
      → some u ≡ some t
      → Told s t
  quiet {t} u a k m e = subst (Told s) (some-injective u t e) (same s u a k m)

  Told-add :
      (pjob : ℕ) (job : Job) {t : System} (r : Option (AddOutcome × Pool))
      → AddView s.pool cells pjob job r
      → add_next s i job r ≡ some t
      → Told s t
  unfolding add_next
  Told-add pjob job _ (asleep full c d) e = quiet _ refl refl refl e
  Told-add pjob job _ (refused c) e = quiet _ refl refl refl e
  Told-add pjob job {t} _ (linked room c d ne unused l) e =
      subst (Told s) (some-injective _ t e)
        (put job, (refl, append-none s.taken, l.config.queue_max_num))

  Told-work :
      {t : System} (r : Option (WorkOutcome × Pool))
      → WorkView s.pool cells r
      → work_next s i r ≡ some t
      → Told s t
  unfolding work_next
  Told-work _ (sleeps c d) e = quiet _ refl refl refl e
  Told-work _ (exits d) e = quiet _ refl refl refl e
  Told-work {t} _ (takes x xs cut d v) e =
      let whole : IsQueue s.pool (x ∷ xs) = subst (IsQueue s.pool) cut inv.queue in
      subst (Told s) (some-injective _ t e) (
        take (x.1),
        (
          append-none s.accepted,
          ap (λ l. s.taken ++ l) (job_at_lem s.pool (x.0) whole.chain.1),
          v.config.queue_max_num,
        ),
      )

  Told-run :
      (a : ℕ) {t : System}
      → s.pc i ≡ busy a
      → run_next s i (run_job s.pool.jobs a) ≡ some t
      → Told s t
  unfolding run_next
  Told-run a here e =
      let f = Fits-at inv here in
      let (n, _, runs) = run_job-frees s.pool.jobs a f.0 f.1 in
      quiet _ refl refl refl (rw runs at e)

  Told-destroy_wait :
      (p : Pool)
      → p.queue_max_num ≡ s.pool.queue_max_num
      → Told s (destroy_next s i (destroy_wait p))
  unfolding destroy_wait destroy_next
  Told-destroy_wait p m =
      if_elim (λ (d : DestroyOutcome × Pool). Told s (destroy_next s i d)) (p.queue_cur_num == 0) _
        _ (λ _. (nothing, (append-none s.accepted, append-none s.taken, m)))
        (λ _. (nothing, (append-none s.accepted, append-none s.taken, m)))

  Told-destroy : Told s (destroy_next s i (threadpool_destroy s.pool))
  unfolding destroy_next
  Told-destroy = elim (Bool-cases (s.pool.queue_close || s.pool.pool_close)) [
    | inl c ↦
        rw (threadpool_destroy-refused s.pool c)
          (nothing, (append-none s.accepted, append-none s.taken, refl))
    | inr c ↦
        rw (threadpool_destroy-closes s.pool c)
          (Told-destroy_wait (record (s.pool) { queue_close = true }) refl)
  ]

  Told-none : {t : System} → none ≡ some t → Told s t
  Told-none e = cc

  Told-enter : {t : System} (x new : Pc) → enter s i x new ≡ some t → Told s t
  unfolding enter
  Told-enter client new e = quiet _ refl refl refl e
  Told-enter _ new e = Told-none e

  Told-section : {t : System} (fresh : ℕ) (x : Pc) → run_section s i fresh x ≡ some t → Told s t
  unfolding run_section
  Told-section fresh (adding job) e = elim (Bool-cases (malloc_can_return s.pool.jobs fresh)) [
    | inl may ↦
        Told-add fresh job _ (threadpool_add_job-view s.pool cells fresh job inv.queue may)
          (rw may at e)
    | inr bad ↦ Told-none (rw bad at e)
  ]
  Told-section fresh working e = Told-work _ (threadpool_function-view s.pool cells inv.queue) e
  Told-section {t} fresh destroying e = subst (Told s) (some-injective _ t e) Told-destroy
  Told-section {t} fresh destroy_resuming e =
      subst (Told s) (some-injective _ t e) (Told-destroy_wait s.pool refl)
  Told-section fresh _ e = Told-none e

  Told-busy : {t : System} (x : Pc) → s.pc i ≡ x → run_busy s i x ≡ some t → Told s t
  unfolding run_busy
  Told-busy (busy a) here e = Told-run a here e
  Told-busy _ here e = Told-none e

  Told-broadcast : {t : System} (x : Pc) → run_broadcast s i x ≡ some t → Told s t
  unfolding run_broadcast
  Told-broadcast closing e = quiet _ refl refl refl e
  Told-broadcast _ e = Told-none e

  Told-join : {t : System} (x : Pc) → run_join s i x ≡ some t → Told s t
  unfolding run_join
  Told-join joining e = elim (Bool-cases (all_exited s.pool.thread_num s.pc)) [
    | inl all ↦ quiet _ refl refl refl (rw all at e)
    | inr waits ↦ Told-none (rw waits at e)
  ]
  Told-join _ e = Told-none e

  Told-spurious : {t : System} (x : Pc) → run_spurious s i x ≡ some t → Told s t
  unfolding run_spurious
  Told-spurious work_waiting e = quiet _ refl refl refl e
  Told-spurious (add_waiting job) e = quiet _ refl refl refl e
  Told-spurious destroy_waiting e = quiet _ refl refl refl e
  Told-spurious _ e = Told-none e

pub step-Told : (s : System) (e : Event) {t : System} → Inv s → step s e ≡ some t → Told s t
unfolding step
step-Told s (call_add i job) inv e = elim (Bool-cases (asserts_hold job)) [
  | inl held ↦ Told-enter s inv i (s.pc i) (adding job) (rw held at e)
  | inr broken ↦ Told-none s inv i (rw broken at e)
]
step-Told s (call_destroy i) inv e = Told-enter s inv i (s.pc i) destroying e
step-Told s (section i fresh) inv e =
    Told-section s inv i fresh (s.pc i) (unless_freed-some s.freed _ e)
step-Told s (run_callback i) inv e = Told-busy s inv i (s.pc i) refl e
step-Told s (broadcast_closed i) inv e = Told-broadcast s inv i (s.pc i) e
step-Told s (join_all i) inv e = Told-join s inv i (s.pc i) e
step-Told s (spurious i) inv e = Told-spurious s inv i (s.pc i) e
