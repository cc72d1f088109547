-- ===== src/Semaphore/Progress.antt =====
-- The threads of Pthread/信号量.c do not all wait for each other.
use linux_system_code.Common.{
  ℕ, ◌+◌, ◌-◌, ◌≡◌, ◌≢◌, ◌<◌, refl, inl, inr, Option, none, some, Bool, true, false, ltb, ◌==◌,
  ◌&&◌, if◌then◌else◌, if_elim, arith, Bool-cases,
}
use linux_system_code.Store.{Node, null, load, malloc_can_return}
use linux_system_code.Semaphore.Defs.{
  State, Result, ok, blocked, fault, producer_section, take_node, consumer_section, Event,
  producer_wait, producer_runs, producer_post, consumer_wait, consumer_runs, consumer_post, step,
  Reach, start, later,
}
use linux_system_code.Semaphore.Balance.{Reach-Inv}

-- Each thread stands at one of the places.
abbrev Everyone : ℕ → State → Type 0
Everyone n s =
    (s.producers + s.producing + s.produced ≡ n) × (s.consumers + s.consuming + s.consumed ≡ n)

abbrev Keeps : ℕ → Result → Type 0
Keeps n (ok s) = Everyone n s
Keeps n blocked = Unit
Keeps n fault = Unit

Keeps-if :
    (n : ℕ) (b : Bool) (r : Result) → (b ≡ true → Keeps n r) → Keeps n (if b then r else blocked)
Keeps-if n true r k = k refl
Keeps-if n false r k = tt

Keeps-ok : (n : ℕ) (r : Result) (t : State) → Keeps n r → r ≡ ok t → Everyone n t
Keeps-ok n (ok s) t k e = let same : s ≡ t = cc in rw (← same) k
Keeps-ok n blocked t k e = cc
Keeps-ok n fault t k e = cc

Keeps-take_node :
    (n : ℕ) (s : State) (o : Option (Node ℕ))
    → 0 < s.consuming
    → Everyone n s
    → Keeps n (take_node s o)
Keeps-take_node n s none b k = tt
Keeps-take_node n s (some d) b (p, c) = (p, omega (arith, c, b))

step-Everyone : (n : ℕ) (s : State) (e : Event) → Everyone n s → Keeps n (step s e)
unfolding step producer_section consumer_section
step-Everyone n s producer_wait (p, c) =
    Keeps-if n (ltb 0 s.producers && ltb 0 s.psem)
      (ok
        (record s { psem = s.psem - 1; producers = s.producers - 1; producing = s.producing + 1 }))
      (λ b. let some_one : 0 < s.producers = ground arith in (omega (arith, p, some_one), c))
step-Everyone n s (producer_runs newnode random) (p, c) =
    Keeps-if n (ltb 0 s.producing && malloc_can_return s.nodes newnode)
      (producer_section s newnode random)
      (λ b.
        let some_one : 0 < s.producing = ground arith in
        if_elim (Keeps n) (newnode == null) fault _ (λ _. tt)
          (λ _. (omega (arith, p, some_one), c)))
step-Everyone n s producer_post (p, c) =
    Keeps-if n (ltb 0 s.produced)
      (ok (record s { csem = s.csem + 1; produced = s.produced - 1; producers = s.producers + 1 }))
      (λ b. let some_one : 0 < s.produced = ground arith in (omega (arith, p, some_one), c))
step-Everyone n s consumer_wait (p, c) =
    Keeps-if n (ltb 0 s.consumers && ltb 0 s.csem)
      (ok
        (record s { csem = s.csem - 1; consumers = s.consumers - 1; consuming = s.consuming + 1 }))
      (λ b. let some_one : 0 < s.consumers = ground arith in (p, omega (arith, c, some_one)))
step-Everyone n s consumer_runs (p, c) =
    Keeps-if n (ltb 0 s.consuming) (consumer_section s)
      (λ b. Keeps-take_node n s (load s.nodes s.head) (ground arith) (p, c))
step-Everyone n s consumer_post (p, c) =
    Keeps-if n (ltb 0 s.consumed)
      (ok (record s { psem = s.psem + 1; consumed = s.consumed - 1; consumers = s.consumers + 1 }))
      (λ b. let some_one : 0 < s.consumed = ground arith in (p, omega (arith, c, some_one)))

Reach-Everyone : {p c n : ℕ} {s : State} → Reach p c n s → Everyone n s
Reach-Everyone start = (omega arith, omega arith)
Reach-Everyone {n = n} (later {s} {t} e r q) =
    Keeps-ok n (step s e) t (step-Everyone n s e (Reach-Everyone r)) q

runs_if : (b : Bool) (r : Result) → b ≡ true → r ≢ blocked → (if b then r else blocked) ≢ blocked
runs_if true r e n = n
runs_if false r e n = cc

take_node-runs : (s : State) (o : Option (Node ℕ)) → take_node s o ≢ blocked
take_node-runs s none = λ e. cc
take_node-runs s (some d) = λ e. cc

-- All threads are before their `sem_wait`.
all_outside :
    {p c n : ℕ} {s : State}
    → Reach p c n s
    → 0 < n
    → 0 < p + c
    → s.producing + s.produced + s.consuming + s.consumed ≡ 0
    → (e : Event) × (step s e ≢ blocked)
unfolding step
all_outside {p} {c} {n} {s} r some_thread some_room none_inside =
    let inv = Reach-Inv r in
    let (ps, cs) = Reach-Everyone r in
    let producer : 0 < s.producers = omega (arith, ps, none_inside, some_thread) in
    let consumer : 0 < s.consumers = omega (arith, cs, none_inside, some_thread) in
    elim (Bool-cases (ltb 0 s.psem)) [
      | inl b ↦ (
        producer_wait,
        runs_if (ltb 0 s.producers && ltb 0 s.psem)
            (ok (record s {
              psem = s.psem - 1;
              producers = s.producers - 1;
              producing = s.producing + 1;
            }))
            (ground arith) (λ e. cc),
      )
      | inr full ↦
          let z : s.psem ≡ 0 = ground arith in
          let stock : 0 < s.csem = omega (arith, z, inv.room, inv.stock, none_inside, some_room) in
          (
            consumer_wait,
            runs_if (ltb 0 s.consumers && ltb 0 s.csem)
                (ok (record s {
                  csem = s.csem - 1;
                  consumers = s.consumers - 1;
                  consuming = s.consuming + 1;
                }))
                (ground arith) (λ e. cc),
          )
    ]

-- No deadlock: with a thread of each kind, semaphores that do not both begin at 0, and an address that
-- malloc can return, some thread is not blocked in every state that the threads reach: it can make a
-- step, which may be a fault.
pub no_deadlock :
    {p c n : ℕ} {s : State} (fresh : ℕ)
    → Reach p c n s
    → 0 < n
    → 0 < p + c
    → malloc_can_return s.nodes fresh ≡ true
    → (e : Event) × (step s e ≢ blocked)
unfolding step producer_section consumer_section
no_deadlock {p} {c} {n} {s} fresh r some_thread some_room may =
    elim (Bool-cases (ltb 0 s.producing)) [
      | inl b ↦ (
        producer_runs fresh 0,
        runs_if _ (producer_section s fresh 0) (ground arith)
            (if_elim (λ (q : Result). q ≢ blocked) (fresh == null) fault _ (λ _ e. cc) (λ _ e. cc)),
      )
      | inr no_producing ↦ elim (Bool-cases (ltb 0 s.produced)) [
        | inl b ↦ (producer_post, runs_if (ltb 0 s.produced) (ok _) b (λ e. cc))
        | inr no_produced ↦ elim (Bool-cases (ltb 0 s.consuming)) [
          | inl b ↦ (
            consumer_runs,
            runs_if (ltb 0 s.consuming) (consumer_section s) b
                (take_node-runs s (load s.nodes s.head)),
          )
          | inr no_consuming ↦ elim (Bool-cases (ltb 0 s.consumed)) [
            | inl b ↦ (consumer_post, runs_if (ltb 0 s.consumed) (ok _) b (λ e. cc))
            | inr no_consumed ↦ all_outside r some_thread some_room (ground arith)
          ]
        ]
      ]
    ]
