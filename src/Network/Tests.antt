-- ===== src/Network/Tests.antt =====
-- A conversation over network/客户端.cpp and 服务端.cpp.
use linux_system_code.Common.{
  ℕ, ◌==◌, if◌then◌else◌, ◌+◌, ◌≡◌, refl, true, false, some, List, [], ◌∷◌, ◌++◌, arith,
}
use linux_system_code.Processes.{exits, undefined, ending, events}
use linux_system_code.Network.{Text, Process, left_open, slept_in, printed_in, said}
use linux_system_code.Network.Client.{Address, try_connect, connect_loop, connect_retry, talk}
use linux_system_code.Network.Client
use linux_system_code.Network.Server
use linux_system_code.Network.Addresses.{client_host, main-ends}
use linux_system_code.Network.Descriptors.{Returns, connect_retry-Returns}
use linux_system_code.Network.Served.{Exchange}
use linux_system_code.Network.Talk.{client_rounds, client_side, server_side, exit_breaks_server}

abbrev hi : Text
hi = b'h' ∷ b'i' ∷ []

abbrev error_text : Text
error_text = b'!' ∷ []

abbrev one_line : List Exchange
one_line = record { line = hi; reply = hi } ∷ []

-- A host that nobody answers at.
abbrev silent : Address
silent = record { name_known = true; socket = λ n. some (n + 3); connects = λ n. false }

sleeps_between : slept_in (events (connect_retry silent)) ≡ 1 ∷ 2 ∷ 4 ∷ 8 ∷ 16 ∷ 32 ∷ 64 ∷ []
unfolding connect_retry connect_loop try_connect
sleeps_between = refl

connect_retry-Returns_example : Returns 127 (connect_retry silent)
connect_retry-Returns_example = connect_retry-Returns silent

exit_breaks_server_example :
    (ending (client_side error_text 5 4 one_line) ≡ exits 0)
    × (left_open (5 ∷ []) (events (client_side error_text 5 4 one_line)) ≡ [])
    × (printed_in (events (server_side error_text 5 4 one_line)) ≡ hi ∷ [])
    × (said (server_side error_text 5 4 one_line) ≡ (hi ++ b'\n' ∷ []) ∷ error_text ∷ [])
    × (ending (server_side error_text 5 4 one_line) ≡ undefined)
exit_breaks_server_example =
    exit_breaks_server error_text 5 4 one_line ((refl, refl, omega arith), tt)

abbrev open_host : Address
open_host = record { name_known = true; socket = λ n. some (n + 5); connects = λ n. true }

main-ends_example :
    (ending (Client.main (client_rounds one_line) (client_host (silent ∷ open_host ∷ [])))
      ≡ exits 0)
    × (left_open []
          (events (Client.main (client_rounds one_line) (client_host (silent ∷ open_host ∷ []))))
        ≡ [])
unfolding connect_retry connect_loop try_connect
main-ends_example =
    main-ends one_line (silent ∷ []) open_host [] 5 ((refl, refl, omega arith), tt) (refl, refl, tt)
      refl refl

abbrev busy : Server.Address
busy = record { socket = some 3; binds = false; listens = true }

abbrev free : Server.Address
free = record { socket = some 3; binds = true; listens = true }

-- On the descriptor 3 somebody connects, on others nobody.
abbrev served : ℕ → Process Text
served sockfd = if sockfd == 3 then server_side error_text 5 4 one_line else exits 1
