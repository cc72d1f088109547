-- ===== src/PhreadPool/Invariant/Calls.antt =====
-- The calls of the clients, and wake-ups with no signal, keep the invariant.
use mathlib.Core.Path.{subst}
use mathlib.Core.Option.{some-injective}
use linux_system_code.Common.{ℕ, ◌≡◌, ◌≢◌, refl, ap, sym, some}
use linux_system_code.PhreadPool.{Job}
use linux_system_code.PhreadPool.System.{
  Pc, client, adding, add_waiting, working, work_waiting, busy, exited, destroying, destroy_waiting,
  destroy_resuming, closing, System, set_pc, enter, run_spurious,
}
use linux_system_code.PhreadPool.Invariant.Defs.{Fits, is_worker, Inv}
use linux_system_code.PhreadPool.Invariant.Moves.{
  moved, Fits-at, Wakes-none, Inv-moved, others-quiet,
}

module _ (s : System) (inv : Inv s) (i : ℕ) where
  -- Thread `i` alone moves, and touches nothing.
  pub Inv-alone :
      (new : Pc)
      → s.pc i ≢ exited
      → s.pc i ≢ closing
      → is_worker new ≡ is_worker (s.pc i)
      → ((a : ℕ) → new ≢ busy a)
      → Fits s.pool inv.cells s.owner (moved (λ x. x) s.pc i new s.owner) i new
      → Inv (record s { pc = set_pc s.pc i new })
  Inv-alone new alive quiet kind idle own =
      Inv-moved inv Wakes-none i new s inv.cells alive kind (λ a e. absurd (idle a e)) refl
        inv.queue inv.bound inv.log inv.closed (others-quiet inv Wakes-none i new s inv.cells quiet)
        own

  pub Inv-call_add :
      {t : System} (job : Job) → s.pc i ≡ client → enter s i client (adding job) ≡ some t → Inv t
  unfolding enter
  Inv-call_add {t} job here e =
      subst Inv (some-injective _ t e)
        (Inv-alone (adding job) (λ d. cc) (λ d. cc) (ap is_worker (sym here)) (λ a d. cc) tt)

  pub Inv-call_destroy :
      {t : System} → s.pc i ≡ client → enter s i client destroying ≡ some t → Inv t
  unfolding enter
  Inv-call_destroy {t} here e =
      subst Inv (some-injective _ t e)
        (Inv-alone destroying (λ d. cc) (λ d. cc) (ap is_worker (sym here)) (λ a d. cc) tt)

  pub Inv-spurious : {t : System} (x : Pc) → s.pc i ≡ x → run_spurious s i x ≡ some t → Inv t
  unfolding run_spurious
  Inv-spurious {t} work_waiting here e =
      subst Inv (some-injective _ t e)
        (Inv-alone working (λ d. cc) (λ d. cc) (ap is_worker (sym here)) (λ a d. cc) tt)
  Inv-spurious {t} (add_waiting job) here e =
      subst Inv (some-injective _ t e)
        (Inv-alone (adding job) (λ d. cc) (λ d. cc) (ap is_worker (sym here)) (λ a d. cc) tt)
  Inv-spurious {t} destroy_waiting here e =
      let f = Fits-at inv here in
      subst Inv (some-injective _ t e) (
        Inv-alone destroy_resuming (λ d. cc) (λ d. cc) (ap is_worker (sym here)) (λ a d. cc)
          (f.0, f.1, f.2))
  Inv-spurious _ here e = cc
