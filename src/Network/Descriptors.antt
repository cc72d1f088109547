-- ===== src/Network/Descriptors.antt =====
-- The sockets that `connect_retry` of network/客户端.cpp and `initserver` of 服务端.cpp leave open, and how long
-- the first one takes.
use linux_system_code.Common.{
  ℕ, zero, suc, ◌+◌, ◌-◌, ◌*◌, ◌≡◌, ◌≤◌, ◌<◌, refl, ap, ◌∙◌, Bool, true, false, Option, none, some,
  List, [], ◌∷◌, leb, ◌==◌, if_elim, arith, Bool-cases, inl, inr,
}
use linux_system_code.Processes.{returns, does, ending, events}
use linux_system_code.Network.{
  Event, created, closed, slept, Process, without, left_open, slept_in, descriptors,
}
use linux_system_code.Network.Client.{
  max_sleep, Address, sleep_before, try_connect, connect_loop, connect_retry,
}
use linux_system_code.Network.Server.{bound, socketed, initserver}

abbrev pub sum : List ℕ → ℕ
sum [] = 0
sum (x ∷ xs) = x + sum xs

without-first : (fd : ℕ) (fds : List ℕ) → without fd (fd ∷ fds) ≡ fds
without-first fd fds = let same : (fd == fd) ≡ true = ground arith in rw same refl

-- The process returns a descriptor or -1 and has left that descriptor alone open; it slept `limit` seconds
-- at most.
abbrev pub Returns : (limit : ℕ) → Process (Option ℕ) → Type 0
Returns limit r =
    (o : Option ℕ) × (ending r ≡ returns o)
    × (left_open [] (events r) ≡ descriptors o)
    × (sum (slept_in (events r)) ≤ limit)

Returns-closed :
    (limit fd : ℕ) (r : Process (Option ℕ))
    → Returns limit r
    → Returns limit (does (created fd) (does (closed fd) r))
Returns-closed limit fd r (o, e, l, t) =
    (o, e, ap (λ fds. left_open fds (events r)) (without-first fd []) ∙ l, t)

Returns-slept :
    (limit m : ℕ) (r : Process (Option ℕ))
    → m ≤ limit
    → Returns (limit - m) r
    → Returns limit (does (slept m) r)
Returns-slept limit m r h (o, e, l, t) = (o, e, l, omega (arith, h, t))

Returns-more :
    (limit limit' : ℕ) (r : Process (Option ℕ))
    → limit ≤ limit'
    → Returns limit r
    → Returns limit' r
Returns-more limit limit' r h (o, e, l, t) = (o, e, l, omega (arith, h, t))

Returns-sleep_before :
    (m : ℕ) (r : Process (Option ℕ))
    → m ≤ 128
    → Returns (128 - m * 2) r
    → Returns (128 - m) (sleep_before m r)
Returns-sleep_before m r h t = elim (Bool-cases (leb m 64)) [
  | inl short ↦ rw short (
      Returns-slept (128 - m) m r (ground arith)
        (Returns-more (128 - m * 2) (128 - m - m) r (omega arith) t))
  | inr long ↦ rw long (Returns-more (128 - m * 2) (128 - m) r (omega arith) t)
]

Returns-try :
    (b : Bool) (m : ℕ) (o : Option ℕ) (next : Process (Option ℕ))
    → m ≤ 128
    → Returns (128 - m * 2) next
    → Returns (128 - m) (try_connect b m o next)
unfolding try_connect
Returns-try b m none next h t = (none, refl, refl, omega arith)
Returns-try true m (some fd) next h t = (some fd, refl, refl, omega arith)
Returns-try false m (some fd) next h t =
    Returns-closed (128 - m) fd (sleep_before m next) (Returns-sleep_before m next h t)

-- `numsec` after `n` rounds.
abbrev doubled : (n numsec : ℕ) → ℕ
doubled zero numsec = numsec
doubled (suc n) numsec = doubled n (numsec * 2)

Returns-loop :
    (a : Address) (f n m : ℕ)
    → max_sleep < doubled f m
    → Returns (128 - m) (connect_loop (suc f) a n m)
unfolding connect_loop
Returns-loop a zero n m h =
    let over : leb m 128 ≡ false = ground arith in rw over (none, refl, refl, omega arith)
Returns-loop a (suc f) n m h =
    let rest = Returns-loop a f (n + 1) (m * 2) h in
    if_elim (Returns (128 - m)) (leb m 128)
      (try_connect (a.connects n) m (a.socket n) (connect_loop (suc f) a (n + 1) (m * 2)))
      (returns none)
      (λ e.
        Returns-try (a.connects n) m (a.socket n) (connect_loop (suc f) a (n + 1) (m * 2))
          (ground arith) rest)
      (λ _. (none, refl, refl, omega arith))

-- Whatever socket and connect answer, connect_retry returns, after 127 seconds of sleep at most, and the only
-- socket it leaves open is the one that it returns.
pub connect_retry-Returns : (a : Address) → Returns 127 (connect_retry a)
unfolding connect_retry
connect_retry-Returns a = Returns-loop a 8 0 1 (omega arith)

-- Whatever socket, bind and listen answer, initserver returns, and the only socket it leaves open is
-- the one that it returns.
pub initserver-Returns : (a : linux_system_code.Network.Server.Address) → Returns 0 (initserver a)
unfolding initserver
initserver-Returns a = Returns-socketed a.socket
  where
    Returns-bound : (fd : ℕ) → Returns 0 (does (created fd) (bound a fd))
    Returns-bound fd =
        if_elim (λ (r : Process (Option ℕ)). Returns 0 (does (created fd) r)) a.binds _ _
          (λ _.
            if_elim (λ (r : Process (Option ℕ)). Returns 0 (does (created fd) r)) a.listens _ _
              (λ _. (some fd, refl, refl, omega arith))
              (λ _. Returns-closed 0 fd (returns none) (none, refl, refl, omega arith)))
          (λ _. Returns-closed 0 fd (returns none) (none, refl, refl, omega arith))

    Returns-socketed : (o : Option ℕ) → Returns 0 (socketed a o)
    Returns-socketed none = (none, refl, refl, omega arith)
    Returns-socketed (some fd) = Returns-bound fd
