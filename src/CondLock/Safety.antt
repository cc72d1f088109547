-- ===== src/CondLock/Safety.antt =====
-- What the invariant of Pthread/condlock.c means for its threads.
use linux_system_code.Common.{
  ℕ, ◌+◌, ◌≡◌, ◌≢◌, ◌≤◌, refl, sym, ap, ◌∙◌, none, some, [], ◌∷◌, true, false, ltb, ◌==◌, length,
  arith, Bool-cases, inl, inr,
}
use linux_system_code.Store.{Node, Cells, null, node, write, first, Chain}
use linux_system_code.Store.Chains.{write_self}
use linux_system_code.Steps.{ok, fault}
use linux_system_code.CondLock.{
  Msg, State, enqueue_msg, proccess_msg, Event, enqueue, signals, process, spurious, step, Reach,
}
use linux_system_code.CondLock.Invariant.{Reach-Inv}

length_of_first : (cells : Cells Msg) → first cells ≢ null → length cells ≢ 0
length_of_first [] ne e = ne refl
length_of_first (x ∷ xs) ne e = omega arith

abbrev taken : State → Node Msg → State
taken s mp = record s { msgs = write s.msgs s.workq none; workq = mp.next }

ok-ne : {t : State} → ok t ≢ fault
ok-ne e = cc

-- A thread that finds a message takes it.
takes :
    (s : State) (xs : Cells Msg)
    → Chain s.msgs xs
    → s.workq ≡ first xs
    → s.workq ≢ null
    → (mp : Node Msg) × (proccess_msg s ≡ ok (taken s mp))
unfolding proccess_msg
takes s [] k h ne = absurd (ne h)
takes s ((a, v) ∷ xs) k h ne =
    let nonnull : (s.workq == null) ≡ false = ground arith in
    let l : s.msgs s.workq ≡ some (node v (first xs)) = ground arith in
    (node v (first xs), rw (nonnull, l) refl)

module _ {n : ℕ} {s : State} (r : Reach n s) where
  -- A signal wakes one thread for each message: while a thread sleeps on qready, there are no more
  -- messages in the queue than signals to come and threads awake.
  pub messages_served :
      s.sleeping ≢ 0
      → (cells : Cells Msg) × Chain s.msgs cells
        × (s.workq ≡ first cells)
        × (length cells ≤ s.signalling + s.ready)
  messages_served z = let inv = Reach-Inv r in (inv.cells, inv.chain, inv.workq, inv.served z)

  -- With at least one thread in proccess_msg, a message in the queue, and every signal given, a thread
  -- can run, and takes the first message off the queue.
  pub message_taken :
      n ≢ 0
      → s.workq ≢ null
      → s.signalling ≡ 0
      → (t : State) × (step s process ≡ ok t) × (t.msgs s.workq ≡ none)
  unfolding step
  message_taken some_thread ne w =
      let inv = Reach-Inv r in
      let (mp, runs) = takes s inv.cells inv.chain inv.workq ne in
      let some_left : length inv.cells ≢ 0 = length_of_first inv.cells (λ e. ne (inv.workq ∙ e)) in
      let awake : ltb 0 s.ready ≡ true = elim (Bool-cases (s.sleeping == 0)) [
        | inl e ↦ ground (arith, inv.threads)
        | inr e ↦ let served = inv.served (ground arith) in ground arith
      ] in
      (taken s mp, rw awake runs, write_self s.msgs s.workq none)

  process_runs : proccess_msg s ≢ fault
  unfolding proccess_msg
  process_runs e = elim (Bool-cases (s.workq == null)) [
    | inl z ↦ ok-ne (rw z at e)
    | inr nz ↦
        let inv = Reach-Inv r in
        let (mp, runs) = takes s inv.cells inv.chain inv.workq (ground arith) in
        ok-ne (sym runs ∙ e)
  ]

  -- Of all steps, only that of a caller of enqueue_msg with NULL faults.
  pub null_faults : (e : Event) → step s e ≡ fault → e ≡ enqueue null
  unfolding step enqueue_msg
  null_faults (enqueue mp) q = elim (Bool-cases (mp == null)) [
    | inl z ↦ ap (λ a. enqueue a) (ground arith)
    | inr nz ↦ ground arith
  ]
  null_faults signals q = ground arith
  null_faults process q = elim (Bool-cases (ltb 0 s.ready)) [
    | inl b ↦ absurd (process_runs (rw b at q))
    | inr b ↦ ground arith
  ]
  null_faults spurious q = ground arith
