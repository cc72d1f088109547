-- ===== src/Network/Repeats.antt =====
-- The loop of network/客户端.cpp at the end of its input.
use linux_system_code.Common.{◌≡◌, refl, ap, ◌∙◌, true, false, some, none, List, [], ◌∷◌, map, ℕ}
use linux_system_code.Processes.{returns, ending, events}
use linux_system_code.Network.{Text, begins, exit_word, sent_in}
use linux_system_code.Network.Client.{Round, talk}
use linux_system_code.Network.Talk.{print_uptime-kept}

-- A round in which fgets gives nothing and the rest succeeds.
abbrev pub at_end : (received : Text) → Round
at_end received = record { line = none; sends = true; received = some received; writes = true }

abbrev pub all_at_end : List Text → List Round
all_at_end [] = []
all_at_end (t ∷ ts) = at_end t ∷ all_at_end ts

-- At the end of the input the loop goes on for as many rounds as the connection lasts, and sends the
-- last line again in each of them, unless that one began with exit.
pub talk-repeats :
    (fd : ℕ) (last : Text) (received : List Text)
    → begins exit_word last ≡ false
    → (sent_in (events (talk fd (all_at_end received) last)) ≡ map (λ _. last) received)
      × (ending (talk fd (all_at_end received) last) ≡ returns last)
unfolding talk
talk-repeats fd last [] b = (refl, refl)
talk-repeats fd last (t ∷ ts) b =
    let (s, e, _) = print_uptime-kept fd t (talk fd (all_at_end ts) last) in
    let (s', e') = talk-repeats fd last ts b in
    rw b (ap (λ (l : List Text). last ∷ l) (s ∙ s'), e ∙ e')
