-- ===== src/PhreadPool/Invariant.antt =====
-- What holds in every state that the threads of Pthread/phread_pool.c reach.
pub mod Defs
pub mod Moves
pub mod Add
pub mod Work
pub mod Destroy
pub mod Calls
use mathlib.Core.Path.{subst}
use mathlib.Core.Option.{some-injective}
use linux_system_code.Common.{
  ℕ, ◌≡◌, ◌≢◌, refl, List, [], Bool, true, false, Option, none, some, arith, Bool-cases, inl, inr,
}
use linux_system_code.Store.{malloc_can_return}
use linux_system_code.PhreadPool.{Pool, InitCalls, threadpool_init}
use linux_system_code.PhreadPool.System.{
  unless_freed-some, Pc, client, adding, add_waiting, working, work_waiting, busy, exited,
  destroying, destroy_waiting, destroy_resuming, closing, joining, System, Event, call_add,
  call_destroy, section, run_callback, broadcast_closed, join_all, spurious, asserts_hold, enter,
  run_section, run_busy, run_broadcast, run_join, run_spurious, step, init, Reach, start, later,
}
use linux_system_code.PhreadPool.Queue.{IsQueue}
use Defs.{Inv}
use Add.{Inv-add}
use Work.{Inv-work, Inv-run}
use Destroy.{Inv-destroy, Inv-resume, Inv-broadcast, Inv-join}
use Calls.{Inv-call_add, Inv-call_destroy, Inv-spurious}

module _ (s : System) (inv : Inv s) (i : ℕ) {t : System} where
  enter-Inv :
      (x new : Pc)
      → s.pc i ≡ x
      → (s.pc i ≡ client → enter s i client new ≡ some t → Inv t)
      → enter s i x new ≡ some t
      → Inv t
  unfolding enter
  enter-Inv client new here h e = h here e
  enter-Inv _ new here h e = cc

  impossible : none ≡ some t → Inv t
  impossible e = cc

  run_section-Inv : (fresh : ℕ) (x : Pc) → s.pc i ≡ x → run_section s i fresh x ≡ some t → Inv t
  unfolding run_section
  run_section-Inv fresh (adding job) here e =
      elim (Bool-cases (malloc_can_return s.pool.jobs fresh)) [
        | inl may ↦ Inv-add s inv i fresh job here may (rw may at e)
        | inr bad ↦ impossible (rw bad at e)
      ]
  run_section-Inv fresh working here e = Inv-work s inv i here e
  run_section-Inv fresh destroying here e =
      subst Inv (some-injective _ t e) (Inv-destroy s inv i here)
  run_section-Inv fresh destroy_resuming here e =
      subst Inv (some-injective _ t e) (Inv-resume s inv i here)
  run_section-Inv fresh _ here e = cc

  run_busy-Inv : (x : Pc) → s.pc i ≡ x → run_busy s i x ≡ some t → Inv t
  unfolding run_busy
  run_busy-Inv (busy a) here e = Inv-run s inv i a here e
  run_busy-Inv _ here e = cc

  run_broadcast-Inv : (x : Pc) → s.pc i ≡ x → run_broadcast s i x ≡ some t → Inv t
  unfolding run_broadcast
  run_broadcast-Inv closing here e = Inv-broadcast s inv i here e
  run_broadcast-Inv _ here e = cc

  run_join-Inv : (x : Pc) → s.pc i ≡ x → run_join s i x ≡ some t → Inv t
  unfolding run_join
  run_join-Inv joining here e = Inv-join s inv i here e
  run_join-Inv _ here e = cc

-- Every step of every thread keeps the invariant.
pub step-Inv : (s : System) (e : Event) {t : System} → Inv s → step s e ≡ some t → Inv t
unfolding step
step-Inv s (call_add i job) {t} inv e = elim (Bool-cases (asserts_hold job)) [
  | inl held ↦
      enter-Inv s inv i (s.pc i) (adding job) refl (Inv-call_add s inv i job) (rw held at e)
  | inr broken ↦ impossible s inv i (rw broken at e)
]
step-Inv s (call_destroy i) inv e =
    enter-Inv s inv i (s.pc i) destroying refl (Inv-call_destroy s inv i) e
step-Inv s (section i fresh) inv e =
    run_section-Inv s inv i fresh (s.pc i) refl (unless_freed-some s.freed _ e)
step-Inv s (run_callback i) inv e = run_busy-Inv s inv i (s.pc i) refl e
step-Inv s (broadcast_closed i) inv e = run_broadcast-Inv s inv i (s.pc i) refl e
step-Inv s (join_all i) inv e = run_join-Inv s inv i (s.pc i) refl e
step-Inv s (spurious i) inv e = Inv-spurious s inv i (s.pc i) refl e

-- What `threadpool_init` returns is an open pool with an empty queue.
pub init_pool : (c : InitCalls) (n m : ℕ) {p : Pool} → threadpool_init c n m ≡ some p → record {
  queue : IsQueue p [];
  max : p.queue_max_num ≡ m;
  threads : p.thread_num ≡ n;
  queue_open : p.queue_close ≡ false;
  pool_open : p.pool_close ≡ false;
}
unfolding threadpool_init
init_pool c n m e = ground arith

init-Inv : {p : Pool} → IsQueue p [] → p.pool_close ≡ false → Inv (init p)
init-Inv {p} q open_pool = record {
  cells = [];
  queue = q;
  bound = omega (arith, q.count);
  log = refl;
  closed = λ e. cc;
  fits = λ i. ground arith;
  unique = λ i j a e d. absurd (ground arith);
  role = λ i. ground arith;
  gone = λ e. cc;
}

pub Reach-Inv : (c : InitCalls) (n m : ℕ) {s : System} → Reach c n m s → Inv s
Reach-Inv c n m (start {p} e) = let i = init_pool c n m e in init-Inv i.queue i.pool_open
Reach-Inv c n m (later {s} e r d) = step-Inv s e (Reach-Inv c n m r) d
