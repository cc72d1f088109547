-- ===== src/Network/Server.antt =====
-- network/服务端.cpp: `initserver`, `serve`, and the loop of `main` over the addresses.
--
-- `Rebuf` is a std::string of 1024 bytes, which `recv` writes over from the front on. Of the messages on the terminal only the
-- client's lines are kept.
use linux_system_code.Common.{
  ℕ, zero, suc, Bool, Option, none, some, List, [], ◌∷◌, ◌++◌, ◌==◌, if◌then◌else◌, set,
}
use linux_system_code.Processes.{returns, exits, undefined, does, forks, ◌>>=◌}
use linux_system_code.Network.{
  Text, created, closed, sent, printed, waited, Process, begins, exit_word, c_str,
}

abbrev pub buflen : ℕ
buflen = 1024

-- `Rebuf` as `serve` starts.
abbrev pub zeros : ℕ → Text
zeros zero = []
zeros (suc n) = 0 ∷ zeros n

-- `recv` of this text into `Rebuf`, of which it fills `BUFLEN` bytes at most.
abbrev pub overwrite : (data_read buf : Text) → Text
overwrite [] buf = buf
overwrite (c ∷ cs) [] = []
overwrite (c ∷ cs) (d ∷ ds) = c ∷ overwrite cs ds

abbrev pub one_further : Option ℕ → Option ℕ
one_further none = none
one_further (some i) = some (suc i)

-- `Rebuf.find('\n', 0)`; `none` is `npos`.
abbrev pub find_newline : Text → Option ℕ
find_newline [] = none
find_newline (c ∷ cs) =
    let rest = find_newline cs in if c == b'\n' then some 0 else one_further rest

-- What happens in a round: what `recv` gives, nothing at the end of the connection and none when it
-- fails; whether `fork`, and in the child a `dup2`, fails; the line that `getline` reads there.
pub record Round : Type 0 where
  pub received : Option Text
  pub fork_fails : Bool
  pub dup_fails : Bool
  pub reply : Text

-- Lines 52 to 85. The child has the connection as its output and its errors, and goes on with the loop.
unfoldable pub answer : (connerfd : ℕ) → Round → (child_on on : Process Text) → Process Text
answer connerfd r child_on on =
    if r.fork_fails
    then exits 1
    else forks
        (if r.dup_fails
          then exits 1
          else does (closed connerfd) (does (sent (r.reply ++ b'\n' ∷ [])) child_on))
        (does waited on)

-- Lines 48 to 85: without a newline `Rebuf[npos]` is out of range.
unfoldable pub line_found :
    (connerfd : ℕ)
    → Round
    → (buf : Text) → Option ℕ
    → (child_on on : Text → Process Text) → Process Text
line_found connerfd r buf none child_on on = undefined
line_found connerfd r buf (some i) child_on on =
    let buf' = set buf i 0 in
    does (printed (c_str buf')) (answer connerfd r (child_on buf') (on buf'))

-- Lines 39 to 85, with what `recv` has given.
unfoldable pub heard :
    (connerfd : ℕ)
    → Round
    → (buf : Text) → Option Text
    → (child_on on : Text → Process Text) → Process Text
heard connerfd r buf none child_on on = exits 1
heard connerfd r buf (some t) child_on on =
    let buf' = overwrite t buf in
    if begins exit_word buf'
    then does (closed connerfd) (exits 1)
    else line_found connerfd r buf' (find_newline buf') child_on on

-- The message of a `recv` on a closed descriptor, `text` being that of the error.
abbrev pub complains : Text → Process Text
complains message = does (sent message) (exits 1)

-- The loop of `serve` for these rounds; when they are over, it waits in `recv`. In a child `recv` fails,
-- since the descriptor is closed, and the message goes to the connection.
unfoldable pub serve_loop :
    (message : Text) → (connerfd : ℕ) → List Round → (buf : Text) → Process Text
serve_loop message connerfd [] buf = returns buf
serve_loop message connerfd (r ∷ rounds) buf =
    heard connerfd r buf r.received (λ _. complains message)
      (λ b. serve_loop message connerfd rounds b)

-- `serve`, with the answer of `accept`.
unfoldable pub serve : (message : Text) → Option ℕ → List Round → Process Text
serve message none rounds = exits 1
serve message (some connerfd) rounds = serve_loop message connerfd rounds (zeros buflen)

-- What the kernel answers for an address.
pub record Address : Type 0 where
  pub socket : Option ℕ
  pub binds : Bool
  pub listens : Bool

abbrev pub bound : Address → ℕ → Process (Option ℕ)
bound a fd =
    if a.binds
    then if a.listens then returns (some fd) else does (closed fd) (returns none)
    else does (closed fd) (returns none)

abbrev pub socketed : Address → Option ℕ → Process (Option ℕ)
socketed a none = returns none
socketed a (some fd) = does (created fd) (bound a fd)

-- `initserver`
unfoldable pub initserver : Address → Process (Option ℕ)
initserver a = socketed a a.socket

-- Lines 170 and 171; `serving` is `serve` with what it meets, on the socket that it is given.
abbrev pub then_exit : (serving : ℕ → Process Text) → (sockfd : ℕ) → Process Text
then_exit serving sockfd = serving sockfd >>= λ (buf : Text). exits 0

-- What follows for a passive socket or -1.
abbrev pub serves : (serving : ℕ → Process Text) → (next : Process Text) → Option ℕ → Process Text
serves serving next none = next
serves serving next (some fd) = then_exit serving fd

-- The loop over the addresses.
unfoldable pub each_address : (serving : ℕ → Process Text) → List Address → Process Text
each_address serving [] = exits 0
each_address serving (a ∷ rest) =
    let next = each_address serving rest in initserver a >>= serves serving next

-- What is known of the host: whether `malloc` and `gethostname` succeed, and what `getaddrinfo` gives.
pub record Host : Type 0 where
  pub allocates : Bool
  pub named : Bool
  pub addresses : Option (List Address)

abbrev pub with_addresses : (serving : ℕ → Process Text) → Option (List Address) → Process Text
with_addresses serving none = exits 1
with_addresses serving (some addresses) = each_address serving addresses

unfoldable pub main : (serving : ℕ → Process Text) → Host → Process Text
main serving host =
    if host.allocates
    then if host.named then with_addresses serving host.addresses else exits 1
    else exits 1
