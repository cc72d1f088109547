-- ===== src/Semaphore/Defs.antt =====
-- The state and the steps of Pthread/信号量.c.
use linux_system_code.Common.{
  ℕ, ◌+◌, ◌-◌, ◌%◌, ◌≡◌, Option, none, some, ltb, ◌==◌, ◌&&◌, if◌then◌else◌,
}
use linux_system_code.Store.{Node, Store, null, node, write, load, malloc_can_return}

pub record State : Type 0 where
  pub psem : ℕ
  pub csem : ℕ
  pub head : ℕ
  pub nodes : Store ℕ
  -- producers before `sem_wait`, before their section, and before `sem_post`
  pub producers : ℕ
  pub producing : ℕ
  pub produced : ℕ
  -- consumers at the same places
  pub consumers : ℕ
  pub consuming : ℕ
  pub consumed : ℕ

-- A step ends in a state, does not happen (`blocked`: no thread stands there, or the semaphore is 0),
-- or reads or writes through NULL or a freed node.
pub data Result : Type 0 where
  ok : State → Result
  blocked : Result
  fault : Result

-- `newnode` is what `malloc` returns, whose failure is not tested for.
unfoldable pub producer_section : State → (newnode random : ℕ) → Result
producer_section s newnode random =
    if newnode == null
    then fault
    else ok (record s {
      nodes = write s.nodes newnode (some (node (random % 1000) s.head));
      head = newnode;
      producing = s.producing - 1;
      produced = s.produced + 1;
    })

-- `free` of the node, whose successor becomes the head.
abbrev pub take_node : State → Option (Node ℕ) → Result
take_node s none = fault
take_node s (some n) = ok (record s {
  nodes = write s.nodes s.head none;
  head = n.next;
  consuming = s.consuming - 1;
  consumed = s.consumed + 1;
})

unfoldable pub consumer_section : State → Result
consumer_section s = take_node s (load s.nodes s.head)

pub data Event : Type 0 where
  producer_wait : Event
  producer_runs : (newnode random : ℕ) → Event
  producer_post : Event
  consumer_wait : Event
  consumer_runs : Event
  consumer_post : Event

unfoldable pub step : State → Event → Result
unfolding producer_section consumer_section
step s producer_wait =
    if ltb 0 s.producers && ltb 0 s.psem
    then ok
        (record s { psem = s.psem - 1; producers = s.producers - 1; producing = s.producing + 1 })
    else blocked
step s (producer_runs newnode random) =
    if ltb 0 s.producing && malloc_can_return s.nodes newnode
    then producer_section s newnode random
    else blocked
step s producer_post =
    if ltb 0 s.produced
    then ok (record s { csem = s.csem + 1; produced = s.produced - 1; producers = s.producers + 1 })
    else blocked
step s consumer_wait =
    if ltb 0 s.consumers && ltb 0 s.csem
    then ok
        (record s { csem = s.csem - 1; consumers = s.consumers - 1; consuming = s.consuming + 1 })
    else blocked
step s consumer_runs = if ltb 0 s.consuming then consumer_section s else blocked
step s consumer_post =
    if ltb 0 s.consumed
    then ok (record s { psem = s.psem + 1; consumed = s.consumed - 1; consumers = s.consumers + 1 })
    else blocked

-- `main`, with the initial values of `psem` and `csem`, and `n` threads of each kind.
abbrev pub init : (p c n : ℕ) → State
init p c n = record {
  psem = p;
  csem = c;
  head = null;
  nodes = λ _. none;
  producers = n;
  producing = 0;
  produced = 0;
  consumers = n;
  consuming = 0;
  consumed = 0;
}

pub data Reach (p c n : ℕ) : State → Type 0 where
  start : Reach p c n (init p c n)
  later : {s t : State} (e : Event) → Reach p c n s → step s e ≡ ok t → Reach p c n t
