-- ===== src/ProducerConsumer.antt =====
-- Pthread/生产与消费.c: producers put numbers in front of a linked list and wake the consumers, which
-- take them off and wait on `cond` while there are none.
--
-- The threads of one kind run the same code, and have no live local variable where they can be
-- interrupted, so the state counts how many stand at each place. A step is what a thread does while
-- it holds `mutex`, a broadcast, or a wake-up. The output and the pauses are left out.
pub mod Invariant
pub mod Safety
mod Tests
use linux_system_code.Common.{
  ℕ, ◌+◌, ◌-◌, ◌%◌, ◌≡◌, Option, none, some, List, [], ◌∷◌, Bool, ltb, ◌==◌, ◌&&◌, if◌then◌else◌,
}
use linux_system_code.Store.{Node, Store, null, node, write, load, malloc_can_return}
use linux_system_code.Steps.{Result, ok, blocked, fault}

pub record State : Type 0 where
  pub head : ℕ
  pub nodes : Store ℕ
  -- producers before `pthread_mutex_lock`, and between the unlock and the broadcast
  pub producing : ℕ
  pub waking : ℕ
  -- consumers that are to get the mutex, from the call of `pthread_mutex_lock` or back from
  -- `pthread_cond_wait`, and those that sleep there
  pub consuming : ℕ
  pub sleeping : ℕ
  -- how many numbers have been made and consumed, and which: the last ones first, as they are printed
  pub made : ℕ
  pub consumed : ℕ
  pub made_numbers : List ℕ
  pub consumed_numbers : List ℕ

-- `newnode` is what `malloc` returns, whose failure is not tested for.
unfoldable pub producer_section : State → (newnode random : ℕ) → Result State
producer_section s newnode random =
    if newnode == null
    then fault
    else ok (record s {
      nodes = write s.nodes newnode (some (node (random % 1000) s.head));
      head = newnode;
      producing = s.producing - 1;
      waking = s.waking + 1;
      made = s.made + 1;
      made_numbers = random % 1000 ∷ s.made_numbers;
    })

-- The first node is freed, and its successor becomes the head.
abbrev pub take_node : State → Option (Node ℕ) → Result State
take_node s none = fault
take_node s (some n) = ok (record s {
  nodes = write s.nodes s.head none;
  head = n.next;
  consumed = s.consumed + 1;
  consumed_numbers = n.value ∷ s.consumed_numbers;
})

-- The wait's loop tests its condition again after each return.
unfoldable pub consumer_section : State → Result State
consumer_section s =
    if s.head == null
    then ok (record s { consuming = s.consuming - 1; sleeping = s.sleeping + 1 })
    else take_node s (load s.nodes s.head)

pub data Event : Type 0 where
  producer_runs : (newnode random : ℕ) → Event
  broadcast : Event
  consumer_runs : Event
  spurious : Event

unfoldable pub step : State → Event → Result State
step s (producer_runs newnode random) =
    if ltb 0 s.producing && malloc_can_return s.nodes newnode
    then producer_section s newnode random
    else blocked
step s broadcast =
    if ltb 0 s.waking
    then ok (record s {
      waking = s.waking - 1;
      producing = s.producing + 1;
      consuming = s.consuming + s.sleeping;
      sleeping = 0;
    })
    else blocked
step s consumer_runs = if ltb 0 s.consuming then consumer_section s else blocked
step s spurious =
    if ltb 0 s.sleeping
    then ok (record s { sleeping = s.sleeping - 1; consuming = s.consuming + 1 })
    else blocked

-- How many numbers pass a test.
abbrev pub count : (ℕ → Bool) → List ℕ → ℕ
count t [] = 0
count t (x ∷ xs) = (if t x then 1 else 0) + count t xs

-- `main`, with `n` threads of each kind.
abbrev pub init : ℕ → State
init n = record {
  head = null;
  nodes = λ _. none;
  producing = n;
  waking = 0;
  consuming = n;
  sleeping = 0;
  made = 0;
  consumed = 0;
  made_numbers = [];
  consumed_numbers = [];
}

pub data Reach (n : ℕ) : State → Type 0 where
  start : Reach n (init n)
  later : {s t : State} (e : Event) → Reach n s → step s e ≡ ok t → Reach n t
