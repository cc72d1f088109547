-- ===== src/ProducerConsumer/Safety.antt =====
-- What the invariant of Pthread/生产与消费.c means for its threads.
use linux_system_code.Common.{
  ℕ, ◌+◌, ◌≡◌, ◌≢◌, refl, sym, ap, ◌∙◌, none, some, [], ◌∷◌, Bool, true, false, ltb, ◌==◌, length,
  arith, Bool-cases, inl, inr,
}
use linux_system_code.Store.{Node, Cells, null, node, write, first, values, Chain}
use linux_system_code.Steps.{ok, fault}
use linux_system_code.ProducerConsumer.{
  State, producer_section, consumer_section, Event, producer_runs, broadcast, consumer_runs,
  spurious, step, count, Reach,
}
use linux_system_code.ProducerConsumer.Invariant.{Reach-Inv}

first_of_empty : (cells : Cells ℕ) → length cells ≡ 0 → first cells ≡ null
first_of_empty [] e = refl
first_of_empty (x ∷ xs) e = absurd (omega arith)

abbrev taken : State → Node ℕ → State
taken s n = record s {
  nodes = write s.nodes s.head none;
  head = n.next;
  consumed = s.consumed + 1;
  consumed_numbers = n.value ∷ s.consumed_numbers;
}

ok-ne : {t : State} → ok t ≢ fault
ok-ne e = cc

-- The section of a consumer that finds a node takes it.
takes :
    (s : State) (xs : Cells ℕ)
    → Chain s.nodes xs
    → s.head ≡ first xs
    → s.head ≢ null
    → (n : Node ℕ) × (consumer_section s ≡ ok (taken s n))
unfolding consumer_section
takes s [] k h ne = absurd (ne h)
takes s ((a, v) ∷ xs) k h ne =
    let nonnull : (s.head == null) ≡ false = ground arith in
    let l : s.nodes s.head ≡ some (node v (first xs)) = ground arith in
    (node v (first xs), rw (nonnull, l) refl)

module _ {n : ℕ} {s : State} (r : Reach n s) where
  -- No wake-up is lost: while a consumer sleeps on cond and no producer is between its unlock and its
  -- broadcast, the list is empty.
  pub sleepers_wait : s.sleeping ≢ 0 → s.waking ≡ 0 → s.head ≡ null
  sleepers_wait z w = let inv = Reach-Inv r in inv.head ∙ first_of_empty inv.cells (inv.woken z w)

  -- With at least one consumer, a list that is not empty, and every broadcast made, a consumer can
  -- run, and consumes a number.
  pub consumer_proceeds :
      n ≢ 0
      → s.head ≢ null
      → s.waking ≡ 0
      → (t : State) × (step s consumer_runs ≡ ok t) × (t.consumed ≡ s.consumed + 1)
  unfolding step
  consumer_proceeds some_thread ne w =
      let inv = Reach-Inv r in
      let (x, runs) = takes s inv.cells inv.chain inv.head ne in
      let none_sleeps : s.sleeping ≡ 0 = elim (Bool-cases (s.sleeping == 0)) [
        | inl e ↦ ground arith
        | inr e ↦ absurd (ne (sleepers_wait (ground arith) w))
      ] in
      let ready : ltb 0 s.consuming ≡ true = ground (arith, inv.consumers) in
      (taken s x, rw ready runs, refl)

  -- head points to a chain of nodes without a cycle, and the numbers that producers have made are, each
  -- as often, those that consumers have consumed together with those in these nodes.
  pub none_lost :
      (cells : Cells ℕ) × Chain s.nodes cells
      × (s.head ≡ first cells)
      × ((t : ℕ → Bool)
          → count t s.consumed_numbers + count t (values cells) ≡ count t s.made_numbers)
  none_lost = let inv = Reach-Inv r in (inv.cells, inv.chain, inv.head, inv.numbers)

  consumer_runs_well : consumer_section s ≢ fault
  unfolding consumer_section
  consumer_runs_well e = elim (Bool-cases (s.head == null)) [
    | inl z ↦ ok-ne (rw z at e)
    | inr nz ↦
        let inv = Reach-Inv r in
        let (x, runs) = takes s inv.cells inv.chain inv.head (ground arith) in ok-ne (sym runs ∙ e)
  ]

  -- Of all steps, only that of a producer whose malloc returns NULL faults.
  pub malloc_faults :
      (e : Event) → step s e ≡ fault → (random : ℕ) × (e ≡ producer_runs null random)
  unfolding step producer_section
  malloc_faults (producer_runs newnode random) q = elim (Bool-cases (newnode == null)) [
    | inl z ↦ (random, ap (λ a. producer_runs a random) (ground arith))
    | inr nz ↦ ground arith
  ]
  malloc_faults broadcast q = ground arith
  malloc_faults consumer_runs q = elim (Bool-cases (ltb 0 s.consuming)) [
    | inl b ↦ absurd (consumer_runs_well (rw b at q))
    | inr b ↦ ground arith
  ]
  malloc_faults spurious q = ground arith
