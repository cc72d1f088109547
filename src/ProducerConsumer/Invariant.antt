-- ===== src/ProducerConsumer/Invariant.antt =====
-- What holds in every state that the threads of Pthread/生产与消费.c reach.
use mathlib.Core.Path.{subst}
use linux_system_code.Common.{
  ℕ, ◌+◌, ◌-◌, ◌%◌, ◌≡◌, ◌≢◌, refl, sym, ap, ◌∙◌, none, some, [], ◌∷◌, Bool, true, false, ltb, ◌==◌,
  if_elim, length, arith,
}
use linux_system_code.Store.{Cells, null, node, load, first, has, values, Chain, malloc_can_return}
use linux_system_code.Store.Chains.{Chain-write, not-has_of_none, write_self}
use linux_system_code.Steps.{ok, fault, Keeps, Keeps-if, Keeps-ok}
use linux_system_code.ProducerConsumer.{
  State, producer_section, take_node, consumer_section, Event, producer_runs, broadcast,
  consumer_runs, spurious, step, count, Reach, start, later,
}

pub record Inv (n : ℕ) (s : State) : Type 0 where
  pub cells : Cells ℕ
  pub chain : Chain s.nodes cells
  pub head : s.head ≡ first cells
  pub made : s.consumed + length cells ≡ s.made
  pub numbers :
      (t : ℕ → Bool) → count t s.consumed_numbers + count t (values cells) ≡ count t s.made_numbers
  pub producers : s.producing + s.waking ≡ n
  pub consumers : s.consuming + s.sleeping ≡ n
  pub woken : s.sleeping ≢ 0 → s.waking ≡ 0 → length cells ≡ 0

module _ (n : ℕ) (s : State) (inv : Inv n s) where
  open inv use {cells}

  took :
      (a v : ℕ) (xs : Cells ℕ)
      → cells ≡ (a, v) ∷ xs
      → Keeps (Inv n) (take_node s (some (node v (first xs))))
  took a v xs cut =
      let k : Chain s.nodes ((a, v) ∷ xs) = rw cut at inv.chain in
      let hd : s.head ≡ a = inv.head ∙ ap first cut in
      record {
        cells = xs;
        chain = rw hd (Chain-write s.nodes xs a none k.2 k.3);
        head = refl;
        made = ground (arith, inv.made, cut);
        numbers = λ t. omega (arith, inv.numbers t, ap (λ (c : Cells ℕ). count t (values c)) cut);
        producers = inv.producers;
        consumers = inv.consumers;
        woken = λ z w. let t = inv.woken z w in ground (arith, cut);
      }

  abbrev asleep : State
  asleep = record s { consuming = s.consuming - 1; sleeping = s.sleeping + 1 }

  sleeps : ltb 0 s.consuming ≡ true → length cells ≡ 0 → Inv n asleep
  sleeps some_consumer none_left = record {
    cells = cells;
    chain = inv.chain;
    head = inv.head;
    made = inv.made;
    numbers = inv.numbers;
    producers = inv.producers;
    consumers = ground (arith, inv.consumers);
    woken = λ z w. none_left;
  }

  consumer-Keeps :
      ltb 0 s.consuming ≡ true → (xs : Cells ℕ) → cells ≡ xs → Keeps (Inv n) (consumer_section s)
  unfolding consumer_section
  consumer-Keeps some_consumer [] cut =
      if_elim (Keeps (Inv n)) (s.head == null) (ok asleep) (take_node s (load s.nodes s.head))
        (λ z. sleeps some_consumer (ap length cut))
        (λ nz. let hd : s.head ≡ null = inv.head ∙ ap first cut in absurd (ground arith))
  consumer-Keeps some_consumer ((a, v) ∷ xs) cut =
      let k : Chain s.nodes ((a, v) ∷ xs) = rw cut at inv.chain in
      let hd : s.head ≡ a = inv.head ∙ ap first cut in
      let l : load s.nodes s.head ≡ some (node v (first xs)) = ground arith in
      if_elim (Keeps (Inv n)) (s.head == null) (ok asleep) (take_node s (load s.nodes s.head))
        (λ z. absurd (ground arith))
        (λ nz. subst (λ o. Keeps (Inv n) (take_node s o)) (sym l) (took a v xs cut))

  producer-Keeps :
      (newnode random : ℕ)
      → ltb 0 s.producing ≡ true
      → malloc_can_return s.nodes newnode ≡ true
      → Keeps (Inv n) (producer_section s newnode random)
  unfolding producer_section
  producer-Keeps newnode random some_producer may =
      if_elim (Keeps (Inv n)) (newnode == null) fault (ok _) (λ _. tt)
        (λ nz.
          let free : s.nodes newnode ≡ none = ground arith in
          let out : has newnode cells ≡ false =
            not-has_of_none s.nodes cells newnode free inv.chain in
          record {
            cells = (newnode, random % 1000) ∷ cells;
            chain = (
              ground arith,
              write_self s.nodes newnode _ ∙ ap (λ h. some (node (random % 1000) h)) inv.head,
              out,
              Chain-write s.nodes cells newnode _ out inv.chain,
            );
            head = refl;
            made = omega (arith, inv.made);
            numbers = λ t. omega (arith, inv.numbers t);
            producers = ground (arith, inv.producers);
            consumers = inv.consumers;
            woken = λ z w. absurd (omega arith);
          })

  step-Keeps : (e : Event) → Keeps (Inv n) (step s e)
  unfolding step
  step-Keeps (producer_runs newnode random) =
      Keeps-if (Inv n) _ _ (λ b. producer-Keeps newnode random (ground arith) (ground arith))
  step-Keeps broadcast = Keeps-if (Inv n) _ (ok _) (λ b. record {
    cells = cells;
    chain = inv.chain;
    head = inv.head;
    made = inv.made;
    numbers = inv.numbers;
    producers = ground (arith, inv.producers);
    consumers = omega (arith, inv.consumers);
    woken = λ z w. absurd (z refl);
  })
  step-Keeps consumer_runs = Keeps-if (Inv n) _ _ (λ b. consumer-Keeps b cells refl)
  step-Keeps spurious = Keeps-if (Inv n) _ (ok _) (λ b. record {
    cells = cells;
    chain = inv.chain;
    head = inv.head;
    made = inv.made;
    numbers = inv.numbers;
    producers = inv.producers;
    consumers = ground (arith, inv.consumers);
    woken = λ z w. inv.woken (ground arith) w;
  })

pub Reach-Inv : {n : ℕ} {s : State} → Reach n s → Inv n s
Reach-Inv start = record {
  cells = [];
  chain = tt;
  head = refl;
  made = omega arith;
  numbers = λ t. omega arith;
  producers = omega arith;
  consumers = omega arith;
  woken = λ z w. refl;
}
Reach-Inv (later e r q) = Keeps-ok (Inv _) _ _ (step-Keeps _ _ (Reach-Inv r) e) q
