-- ===== src/Network/Addresses.antt =====
-- The loops over the addresses in `main` of network/客户端.cpp and 服务端.cpp.
use linux_system_code.Common.{
  ◌≡◌, refl, ap, ◌∙◌, ℕ, true, Option, none, some, List, [], ◌∷◌, ◌++◌, if_elim,
}
use linux_system_code.Processes.{returns, exits, ending, events, ◌>>=◌, bind-returns}
use linux_system_code.Network.{
  Text, Event, created, closed, Process, without, left_open, descriptors,
}
use linux_system_code.Network.Descriptors.{Returns, connect_retry-Returns}
use linux_system_code.Network.Client.{connect_retry, talk, talk_on}
use linux_system_code.Network.Server.{initserver}
use linux_system_code.Network.Served.{Exchange, All}
use linux_system_code.Network.Talk.{client_rounds, talk-texts}
use linux_system_code.Network.Client
use linux_system_code.Network.Server

left_open-append :
    (es fs : List Event) (fds : List ℕ) → left_open fds (es ++ fs) ≡ left_open (left_open fds es) fs
left_open-append [] fs fds = refl
left_open-append (created fd ∷ es) fs fds = left_open-append es fs (fd ∷ fds)
left_open-append (closed fd ∷ es) fs fds = left_open-append es fs (without fd fds)
left_open-append (Event.slept n ∷ es) fs fds = left_open-append es fs fds
left_open-append (Event.sent t ∷ es) fs fds = left_open-append es fs fds
left_open-append (Event.printed t ∷ es) fs fds = left_open-append es fs fds
left_open-append (Event.waited ∷ es) fs fds = left_open-append es fs fds

-- What comes after a call that returns `o` starts with that descriptor alone.
after_call :
    (limit : ℕ) (r : Process (Option ℕ)) (f : Option ℕ → Process Text) (o : Option ℕ)
    → Returns limit r
    → ending r ≡ returns o
    → (left_open [] (events (r >>= f)) ≡ left_open (descriptors o) (events (f o)))
      × (ending (r >>= f) ≡ ending (f o))
after_call limit r f o (o', e', l, _) e =
    let (p, q) = bind-returns r f o e in
    let same : descriptors o' ≡ descriptors o = (let one : o' ≡ o = cc in ap descriptors one) in
    (
      ap (left_open []) p
          ∙ left_open-append (events r) (events (f o)) []
          ∙ ap (λ fds. left_open fds (events (f o))) (l ∙ same),
      q,
    )

-- Addresses at which the client reaches nobody.
abbrev pub Unreachable : List Client.Address → Type 0
Unreachable [] = Unit
Unreachable (a ∷ more) =
    (a.name_known ≡ true) × (ending (connect_retry a) ≡ returns none) × Unreachable more

-- A process ends as `r` does, and what is open is as after `r` with `fds` open before it.
abbrev Same : (r : Process Text) (fds : List ℕ) (whole : Process Text) → Type 0
Same r fds whole =
    (left_open [] (events whole) ≡ left_open fds (events r)) × (ending whole ≡ ending r)

client_reaches :
    (rounds : List Client.Round) (before : List Client.Address) (a : Client.Address)
    (rest : List Client.Address) (fd : ℕ)
    → Unreachable before
    → a.name_known ≡ true
    → ending (connect_retry a) ≡ returns (some fd)
    → (left_open [] (events (Client.each_address rounds (before ++ a ∷ rest)))
        ≡ left_open (fd ∷ []) (events (talk fd rounds [])))
      × (ending (Client.each_address rounds (before ++ a ∷ rest)) ≡ ending (talk fd rounds []))
unfolding Client.each_address
client_reaches rounds [] a rest fd u n e =
    let k = talk_on rounds (Client.each_address rounds rest) in
    if_elim (Same (talk fd rounds []) (fd ∷ [])) a.name_known (connect_retry a >>= k) (exits 1)
      (λ _. after_call 127 (connect_retry a) k (some fd) (connect_retry-Returns a) e) (λ no. cc)
client_reaches rounds (b ∷ before) a rest fd (m, f, u) n e =
    let next = Client.each_address rounds (before ++ a ∷ rest) in
    let (p, q) = client_reaches rounds before a rest fd u n e in
    let (p', q') =
      after_call 127 (connect_retry b) (talk_on rounds next) none (connect_retry-Returns b) f in
    if_elim (Same (talk fd rounds []) (fd ∷ [])) b.name_known
      (connect_retry b >>= talk_on rounds next) (exits 1) (λ _. (p' ∙ p, q' ∙ q)) (λ no. cc)

abbrev pub client_host : List Client.Address → Client.Host
client_host all = record { allocates = true; named = true; addresses = some all }

-- When the client reaches nobody at some addresses and somebody at the next, where it sends lines without a
-- NUL that fit into the buffers and do not begin with exit, is answered, and then exit is typed, it exits
-- with 0 and no socket is left open.
pub main-ends :
    (xs : List Exchange) (before : List Client.Address) (a : Client.Address)
    (rest : List Client.Address) (fd : ℕ)
    → All xs
    → Unreachable before
    → a.name_known ≡ true
    → ending (connect_retry a) ≡ returns (some fd)
    → (ending (Client.main (client_rounds xs) (client_host (before ++ a ∷ rest))) ≡ exits 0)
      × (left_open [] (events (Client.main (client_rounds xs) (client_host (before ++ a ∷ rest))))
          ≡ [])
unfolding Client.main
main-ends xs before a rest fd all u n e =
    let (p, q) = client_reaches (client_rounds xs) before a rest fd u n e in
    let (_, q', p') = talk-texts fd xs [] all in (q ∙ q', p ∙ p')

-- Addresses of which no passive socket is made.
abbrev pub Unusable : List Server.Address → Type 0
Unusable [] = Unit
Unusable (a ∷ more) = (ending (initserver a) ≡ returns none) × Unusable more

abbrev pub server_host : List Server.Address → Server.Host
server_host all = record { allocates = true; named = true; addresses = some all }
