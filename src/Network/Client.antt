-- ===== src/Network/Client.antt =====
-- network/客户端.cpp: `connect_retry`, `print_uptime`, and the loops of `main`.
--
-- The messages on the terminal are left out, but for what the server has sent.
use linux_system_code.Common.{
  ℕ, zero, suc, ◌+◌, ◌*◌, Bool, Option, none, some, List, [], ◌∷◌, leb, if◌then◌else◌,
}
use linux_system_code.Processes.{returns, exits, out_of_fuel, does, ◌>>=◌}
use linux_system_code.Network.{
  Text, created, closed, slept, sent, printed, Process, begins, exit_word,
}

abbrev pub max_sleep : ℕ
max_sleep = 128

-- What the kernel answers to the n-th `socket` for an address, which is -1 when it fails, and whether
-- the n-th `connect` succeeds.
pub record Address : Type 0 where
  pub name_known : Bool  -- whether `getnameinfo` succeeds
  pub socket : ℕ → Option ℕ
  pub connects : ℕ → Bool

-- Lines 52 to 55.
abbrev pub sleep_before : (numsec : ℕ) → Process (Option ℕ) → Process (Option ℕ)
sleep_before numsec r = if leb numsec 64 then does (slept numsec) r else r

-- The round after the answer of `socket`.
unfoldable pub try_connect :
    (connects : Bool) → (numsec : ℕ) → Option ℕ → (next : Process (Option ℕ)) → Process (Option ℕ)
try_connect connects numsec none next = returns none
try_connect connects numsec (some fd) next =
    does (created fd)
      (if connects then returns (some fd) else does (closed fd) (sleep_before numsec next))

-- The loop over `numsec`, in its n-th round.
unfoldable pub connect_loop : (fuel : ℕ) → Address → (n numsec : ℕ) → Process (Option ℕ)
connect_loop zero a n numsec = out_of_fuel
connect_loop (suc fuel) a n numsec =
    let next = connect_loop fuel a (n + 1) (numsec * 2) in
    if leb numsec max_sleep
    then try_connect (a.connects n) numsec (a.socket n) next
    else returns none

-- Eight rounds, and the test that ends the loop.
unfoldable pub connect_retry : Address → Process (Option ℕ)
connect_retry a = connect_loop 9 a 0 1

-- A round of the conversation: the line that `fgets` reads, if there is one; whether `send` succeeds; what
-- `recv` gives, nothing at the end of the connection, none when it fails; whether `write` succeeds.
pub record Round : Type 0 where
  pub line : Option Text
  pub sends : Bool
  pub received : Option Text
  pub writes : Bool

-- `print_uptime`
unfoldable pub print_uptime : (writes : Bool) → Option Text → Process Text → Process Text
print_uptime writes none more = exits 1
print_uptime writes (some []) more = more
print_uptime writes (some (c ∷ cs)) more = if writes then does (printed (c ∷ cs)) more else exits 1

-- `buf` after `fgets`, which leaves it alone when there is no line.
abbrev pub read_line : (buf : Text) → Option Text → Text
read_line buf none = buf
read_line buf (some line) = line

-- Lines 124 to 138, for these rounds; when they are over, the loop goes on.
unfoldable pub talk : (sockfd : ℕ) → List Round → (buf : Text) → Process Text
talk sockfd [] buf = returns buf
talk sockfd (r ∷ rounds) buf =
    let buf' = read_line buf r.line in
    let more = talk sockfd rounds buf' in
    if begins exit_word buf'
    then does (closed sockfd) (exits 0)
    else if r.sends
    then does (sent buf') (print_uptime r.writes r.received more)
    else exits 1

abbrev pub talk_on : List Round → (next : Process Text) → Option ℕ → Process Text
talk_on rounds next none = next
talk_on rounds next (some fd) = talk fd rounds []

-- The loop over the addresses.
unfoldable pub each_address : List Round → List Address → Process Text
each_address rounds [] = exits 0
each_address rounds (a ∷ rest) =
    let next = each_address rounds rest in
    if a.name_known then connect_retry a >>= talk_on rounds next else exits 1

-- What is known of the host: whether `malloc` and `gethostname` succeed, and what `getaddrinfo` gives.
pub record Host : Type 0 where
  pub allocates : Bool
  pub named : Bool
  pub addresses : Option (List Address)

abbrev pub with_addresses : List Round → Option (List Address) → Process Text
with_addresses rounds none = exits 1
with_addresses rounds (some addresses) = each_address rounds addresses

unfoldable pub main : List Round → Host → Process Text
main rounds host =
    if host.allocates
    then if host.named then with_addresses rounds host.addresses else exits 1
    else exits 1
