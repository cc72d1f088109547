-- ===== src/Semaphore/Balance.antt =====
-- What the two semaphores of Pthread/信号量.c count.
use mathlib.Core.Path.{subst}
use linux_system_code.Common.{
  ℕ, suc, ◌+◌, ◌-◌, ◌%◌, ◌≡◌, ◌≢◌, ◌≤◌, refl, ap, sym, ◌∙◌, Option, none, some, [], ◌∷◌, Bool, true,
  false, ltb, ◌==◌, if◌then◌else◌, length, arith, Bool-cases, inl, inr,
}
use linux_system_code.Store.{Node, Cells, null, node, load, first, has, Chain, malloc_can_return}
use linux_system_code.Store.Chains.{Chain-write, not-has_of_none, write_self}
use linux_system_code.Semaphore.Defs.{
  State, Result, ok, blocked, fault, producer_section, take_node, consumer_section, Event,
  producer_wait, producer_runs, producer_post, consumer_wait, consumer_runs, consumer_post, step,
  init, Reach, start, later,
}

-- With the semaphores at `p` and `c` to begin with: the list's nodes, and how many there are.
pub record Inv (p c : ℕ) (s : State) : Type 0 where
  pub cells : Cells ℕ
  pub chain : Chain s.nodes cells
  pub head : s.head ≡ first cells
  pub room : length cells + s.psem + s.producing + s.consumed ≡ p
  pub stock : length cells + c ≡ s.csem + s.consuming + s.produced

-- Equal results `ok` have equal states.
abbrev state_of : State → Result → State
state_of s (ok t) = t
state_of s _ = s

module _ (p c : ℕ) (s : State) (inv : Inv p c s) where
  open inv use {cells}

  abbrev Keeps : Result → Type 0
  Keeps r = (t : State) → r ≡ ok t → Inv p c t

  kept : (u : State) → Inv p c u → Keeps (ok u)
  kept u i t e = subst (Inv p c) (ap (state_of u) e) i

  if-Keeps : (b : Bool) (r : Result) → (b ≡ true → Keeps r) → Keeps (if b then r else blocked)
  if-Keeps true r k t e = k refl t e
  if-Keeps false r k t e = cc

  take_node-Keeps :
      ltb 0 s.consuming ≡ true
      → (xs : Cells ℕ) → cells ≡ xs
      → (o : Option (Node ℕ)) → load s.nodes (first xs) ≡ o
      → Keeps (take_node s o)
  take_node-Keeps some_consumer xs cut none l t e = cc
  take_node-Keeps some_consumer [] cut (some n) l t e = cc
  take_node-Keeps some_consumer ((a, v) ∷ xs) cut (some n) l t e =
      let k : Chain s.nodes ((a, v) ∷ xs) = rw cut at inv.chain in
      let hd : s.head ≡ a = inv.head ∙ ap first cut in
      let next : n.next ≡ first xs = ground arith in
      kept _
        (record {
          cells = xs;
          chain = rw hd (Chain-write s.nodes xs a none k.2 k.3);
          head = next;
          room = ground (arith, inv.room, cut);
          stock = ground (arith, inv.stock, cut);
        })
        t e

  producer-Keeps :
      (newnode random : ℕ)
      → ltb 0 s.producing ≡ true
      → malloc_can_return s.nodes newnode ≡ true
      → Keeps (producer_section s newnode random)
  unfolding producer_section
  producer-Keeps newnode random some_producer may t e = elim (Bool-cases (newnode == null)) [
    | inl z ↦ absurd (ground arith)
    | inr nz ↦
        let free : s.nodes newnode ≡ none = ground arith in
        let out : has newnode cells ≡ false =
          not-has_of_none s.nodes cells newnode free inv.chain in
        kept _
          (record {
            cells = (newnode, random % 1000) ∷ cells;
            chain = (
              ground arith,
              write_self s.nodes newnode _ ∙ ap (λ h. some (node (random % 1000) h)) inv.head,
              out,
              Chain-write s.nodes cells newnode _ out inv.chain,
            );
            head = refl;
            room = ground (arith, inv.room);
            stock = ground (arith, inv.stock);
          })
          t (rw nz at e)
  ]

  consumer-Keeps : ltb 0 s.consuming ≡ true → Keeps (consumer_section s)
  unfolding consumer_section
  consumer-Keeps some_consumer =
      take_node-Keeps some_consumer cells refl _ (ap (load s.nodes) (sym inv.head))

  step-Keeps : (e : Event) → Keeps (step s e)
  unfolding step
  step-Keeps producer_wait t e = record {
    cells = cells;
    chain = ground (arith, inv.chain);
    head = ground (arith, inv.head);
    room = ground (arith, inv.room);
    stock = ground (arith, inv.stock);
  }
  step-Keeps (producer_runs newnode random) t e =
      if-Keeps _ _ (λ b. producer-Keeps newnode random (ground arith) (ground arith)) t e
  step-Keeps producer_post t e = record {
    cells = cells;
    chain = ground (arith, inv.chain);
    head = ground (arith, inv.head);
    room = ground (arith, inv.room);
    stock = ground (arith, inv.stock);
  }
  step-Keeps consumer_wait t e = record {
    cells = cells;
    chain = ground (arith, inv.chain);
    head = ground (arith, inv.head);
    room = ground (arith, inv.room);
    stock = ground (arith, inv.stock);
  }
  step-Keeps consumer_runs t e = if-Keeps _ _ consumer-Keeps t e
  step-Keeps consumer_post t e = record {
    cells = cells;
    chain = ground (arith, inv.chain);
    head = ground (arith, inv.head);
    room = ground (arith, inv.room);
    stock = ground (arith, inv.stock);
  }

pub Reach-Inv : {p c n : ℕ} {s : State} → Reach p c n s → Inv p c s
Reach-Inv start = record {
  cells = [];
  chain = tt;
  head = refl;
  room = omega arith;
  stock = omega arith;
}
Reach-Inv (later e r q) = step-Keeps _ _ _ (Reach-Inv r) e _ q

-- The list is never longer than the initial value of psem: head points to a chain of at most that
-- many nodes.
pub room_bound :
    {p c n : ℕ} {s : State}
    → Reach p c n s
    → (cells : Cells ℕ) × Chain s.nodes cells × (s.head ≡ first cells) × (length cells ≤ p)
room_bound r = let inv = Reach-Inv r in (inv.cells, inv.chain, inv.head, omega (arith, inv.room))

consumer-runs :
    (s : State) (xs : Cells ℕ)
    → Chain s.nodes xs
    → s.head ≡ first xs
    → length xs ≢ 0
    → consumer_section s ≢ fault
unfolding consumer_section
consumer-runs s [] k h ne e = ne refl
consumer-runs s ((a, v) ∷ xs) k h ne e =
    let l : load s.nodes s.head ≡ some (node v (first xs)) = ground arith in
    let q : take_node s (some (node v (first xs))) ≡ fault = rw l at e in cc

-- Had csem been 0 to begin with, no consumer would find the list empty: of all steps, only that of
-- a producer whose malloc returns NULL faults.
pub csem_zero :
    {p n : ℕ} {s : State}
    → Reach p 0 n s
    → (e : Event) → step s e ≡ fault
    → (random : ℕ) × (e ≡ producer_runs null random)
unfolding step producer_section
csem_zero {s = s} r producer_wait q = ground arith
csem_zero {s = s} r (producer_runs newnode random) q = elim (Bool-cases (newnode == null)) [
  | inl z ↦ (random, ap (λ a. producer_runs a random) (ground arith))
  | inr nz ↦ ground arith
]
csem_zero {s = s} r producer_post q = ground arith
csem_zero {s = s} r consumer_wait q = ground arith
csem_zero {s = s} r consumer_runs q = elim (Bool-cases (ltb 0 s.consuming)) [
  | inl b ↦
      let inv = Reach-Inv r in
      absurd (consumer-runs s inv.cells inv.chain inv.head (ground (arith, inv.stock)) (rw b at q))
  | inr b ↦ ground arith
]
csem_zero {s = s} r consumer_post q = ground arith

-- With csem above 0 to begin with, as main has it, a consumer that runs before any producer reads
-- through NULL.
pub csem_positive :
    (p c n : ℕ)
    → (s : State) × (step (init p (suc c) (suc n)) consumer_wait ≡ ok s)
      × (step s consumer_runs ≡ fault)
unfolding step consumer_section
csem_positive p c n = (
  record (init p (suc c) (suc n)) { csem = suc c - 1; consumers = suc n - 1; consuming = 1 },
  ground arith,
  refl,
)
