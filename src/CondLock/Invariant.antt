-- ===== src/CondLock/Invariant.antt =====
-- What holds in every state that the threads of Pthread/condlock.c reach.
use mathlib.Core.Path.{subst}
use linux_system_code.Common.{
  ℕ, ◌+◌, ◌-◌, ◌≡◌, ◌≢◌, ◌≤◌, refl, sym, ap, ◌∙◌, none, some, [], ◌∷◌, true, false, ltb, ◌==◌,
  is_none, if_elim, length, arith,
}
use linux_system_code.Store.{Cells, null, node, load, first, has, Chain}
use linux_system_code.Store.Chains.{Chain-write, not-has_of_none, write_self}
use linux_system_code.Steps.{ok, fault, Keeps, Keeps-if, Keeps-ok}
use linux_system_code.CondLock.{
  Msg, msg, State, enqueue_msg, take_msg, proccess_msg, signal, Event, enqueue, signals, process,
  spurious, step, Reach, start, later,
}

pub record Inv (n : ℕ) (s : State) : Type 0 where
  pub cells : Cells Msg
  pub chain : Chain s.msgs cells
  pub workq : s.workq ≡ first cells
  pub threads : s.ready + s.sleeping ≡ n
  pub served : s.sleeping ≢ 0 → length cells ≤ s.signalling + s.ready

module _ (n : ℕ) (s : State) (inv : Inv n s) where
  open inv use {cells}

  took :
      (a : ℕ) (v : Msg) (xs : Cells Msg)
      → cells ≡ (a, v) ∷ xs
      → Keeps (Inv n) (take_msg s (some (node v (first xs))))
  took a v xs cut =
      let k : Chain s.msgs ((a, v) ∷ xs) = rw cut at inv.chain in
      let hd : s.workq ≡ a = inv.workq ∙ ap first cut in
      record {
        cells = xs;
        chain = rw hd (Chain-write s.msgs xs a none k.2 k.3);
        workq = refl;
        threads = inv.threads;
        served = λ z. let t = inv.served z in omega (arith, ap length cut);
      }

  abbrev asleep : State
  asleep = record s { ready = s.ready - 1; sleeping = s.sleeping + 1 }

  sleeps : ltb 0 s.ready ≡ true → length cells ≡ 0 → Inv n asleep
  sleeps some_thread none_left = record {
    cells = cells;
    chain = inv.chain;
    workq = inv.workq;
    threads = ground (arith, inv.threads);
    served = λ z. omega (arith, none_left);
  }

  process-Keeps :
      ltb 0 s.ready ≡ true → (xs : Cells Msg) → cells ≡ xs → Keeps (Inv n) (proccess_msg s)
  unfolding proccess_msg
  process-Keeps some_thread [] cut =
      if_elim (Keeps (Inv n)) (s.workq == null) (ok asleep) (take_msg s (load s.msgs s.workq))
        (λ z. sleeps some_thread (ap length cut))
        (λ nz. let hd : s.workq ≡ null = inv.workq ∙ ap first cut in absurd (ground arith))
  process-Keeps some_thread ((a, v) ∷ xs) cut =
      let k : Chain s.msgs ((a, v) ∷ xs) = rw cut at inv.chain in
      let hd : s.workq ≡ a = inv.workq ∙ ap first cut in
      let l : load s.msgs s.workq ≡ some (node v (first xs)) = ground arith in
      if_elim (Keeps (Inv n)) (s.workq == null) (ok asleep) (take_msg s (load s.msgs s.workq))
        (λ z. absurd (ground arith))
        (λ nz. subst (λ o. Keeps (Inv n) (take_msg s o)) (sym l) (took a v xs cut))

  enqueue-Keeps : (mp : ℕ) → is_none (s.msgs mp) ≡ true → Keeps (Inv n) (enqueue_msg s mp)
  unfolding enqueue_msg
  enqueue-Keeps mp may =
      if_elim (Keeps (Inv n)) (mp == null) fault (ok _) (λ _. tt)
        (λ nz.
          let free : s.msgs mp ≡ none = ground arith in
          let out : has mp cells ≡ false = not-has_of_none s.msgs cells mp free inv.chain in
          record {
            cells = (mp, msg) ∷ cells;
            chain = (
              ground arith,
              write_self s.msgs mp _ ∙ ap (λ h. some (node msg h)) inv.workq,
              out,
              Chain-write s.msgs cells mp _ out inv.chain,
            );
            workq = refl;
            threads = inv.threads;
            served = λ z. let t = inv.served z in omega arith;
          })

  signal-Inv : ltb 0 s.signalling ≡ true → Inv n (signal s)
  unfolding signal
  signal-Inv some_signal =
      if_elim (Inv n) (s.sleeping == 0) (record s { signalling = s.signalling - 1 })
        (record s { signalling = s.signalling - 1; sleeping = s.sleeping - 1; ready = s.ready + 1 })
        (λ z. record {
          cells = cells;
          chain = inv.chain;
          workq = inv.workq;
          threads = inv.threads;
          served = λ nz. absurd (ground arith);
        })
        (λ nz. record {
          cells = cells;
          chain = inv.chain;
          workq = inv.workq;
          threads = ground (arith, inv.threads);
          served = λ _. let t = inv.served (ground arith) in ground arith;
        })

  step-Keeps : (e : Event) → Keeps (Inv n) (step s e)
  unfolding step
  step-Keeps (enqueue mp) = Keeps-if (Inv n) _ _ (λ b. enqueue-Keeps mp b)
  step-Keeps signals = Keeps-if (Inv n) _ (ok _) (λ b. signal-Inv b)
  step-Keeps process = Keeps-if (Inv n) _ _ (λ b. process-Keeps b cells refl)
  step-Keeps spurious = Keeps-if (Inv n) _ (ok _) (λ b. record {
    cells = cells;
    chain = inv.chain;
    workq = inv.workq;
    threads = ground (arith, inv.threads);
    served = λ z. let t = inv.served (ground arith) in omega arith;
  })

pub Reach-Inv : {n : ℕ} {s : State} → Reach n s → Inv n s
Reach-Inv start = record {
  cells = [];
  chain = tt;
  workq = refl;
  threads = omega arith;
  served = λ z. omega arith;
}
Reach-Inv (later e r q) = Keeps-ok (Inv _) _ _ (step-Keeps _ _ (Reach-Inv r) e) q
