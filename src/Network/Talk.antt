-- ===== src/Network/Talk.antt =====
-- A conversation between the client network/客户端.cpp and the server network/服务端.cpp.
use linux_system_code.Common.{
  ℕ, ◌≡◌, refl, ap, ◌∙◌, true, false, none, some, List, [], ◌∷◌, ◌++◌, ◌==◌, arith,
}
use linux_system_code.Processes.{exits, undefined, does, ending, events}
use linux_system_code.Network.{
  Text, Event, closed, sent, printed, waited, Process, begins, exit_word, c_str, left_open, sent_in,
  printed_in, said,
}
use linux_system_code.Network.Client.{print_uptime, read_line, talk}
use linux_system_code.Network.Server.{buflen, zeros, serve}
use linux_system_code.Network.Lines.{begins-newline, zeros-Clean}
use linux_system_code.Network.Served.{
  Exchange, All, with_newline, delivers, hangs_up, texts, lines, replies, answers, rounds_lines,
}

-- The rounds of a client that is given these replies, and the last one, in which `exit` is typed.
abbrev pub client_rounds : List Exchange → List linux_system_code.Network.Client.Round
client_rounds [] =
    record { line = some (with_newline exit_word); sends = true; received = none; writes = true }
    ∷ []
client_rounds (x ∷ xs) =
    record {
      line = some (with_newline x.line);
      sends = true;
      received = some (with_newline x.reply);
      writes = true;
    }
    ∷ client_rounds xs

-- What the client prints changes nothing else.
pub print_uptime-kept :
    (fd : ℕ) (t : Text) (more : Process Text)
    → (sent_in (events (print_uptime true (some t) more)) ≡ sent_in (events more))
      × (ending (print_uptime true (some t) more) ≡ ending more)
      × (left_open (fd ∷ []) (events (print_uptime true (some t) more))
          ≡ left_open (fd ∷ []) (events more))
unfolding print_uptime
print_uptime-kept fd [] more = (refl, refl, refl)
print_uptime-kept fd (c ∷ cs) more = (refl, refl, refl)

talk_round :
    (fd : ℕ) (x : Exchange) (later : List linux_system_code.Network.Client.Round) (buf : Text)
    → begins exit_word x.line ≡ false
    → talk fd
        (record {
          line = some (with_newline x.line);
          sends = true;
          received = some (with_newline x.reply);
          writes = true;
        }
          ∷ later)
        buf
      ≡ does
          (sent (with_newline x.line))
          (print_uptime true (some (with_newline x.reply)) (talk fd later (with_newline x.line)))
unfolding talk
talk_round fd x later buf b = rw (begins-newline x.line [] b) refl

pub talk-texts :
    (fd : ℕ) (xs : List Exchange) (buf : Text)
    → All xs
    → (sent_in (events (talk fd (client_rounds xs) buf)) ≡ texts xs)
      × (ending (talk fd (client_rounds xs) buf) ≡ exits 0)
      × (left_open (fd ∷ []) (events (talk fd (client_rounds xs) buf)) ≡ [])
unfolding talk
talk-texts fd [] buf a = let same : (fd == fd) ≡ true = ground arith in (refl, refl, rw same refl)
talk-texts fd (x ∷ xs) buf ((_, b, _), a) =
    let more : Process Text = talk fd (client_rounds xs) (with_newline x.line) in
    let step = talk_round fd x (client_rounds xs) buf b in
    let (s, e, o) = print_uptime-kept fd (with_newline x.reply) more in
    let (s', e', o') = talk-texts fd xs (with_newline x.line) a in
    (
      ap (λ r. sent_in (events r)) step ∙ ap (λ (l : List Text). with_newline x.line ∷ l) (s ∙ s'),
      ap ending step ∙ e ∙ e',
      ap (λ r. left_open (fd ∷ []) (events r)) step ∙ o ∙ o',
    )

module _ (message : Text) (client server : ℕ) (xs : List Exchange) where
  -- The client's side of the conversation, and the server's when each line that is sent arrives by itself and
  -- the connection ends with the client.
  abbrev pub client_side : Process Text
  client_side = talk client (client_rounds xs) []

  abbrev pub server_side : Process Text
  server_side =
      serve message (some server)
        (delivers (sent_in (events client_side)) (replies xs) ++ hangs_up ∷ [])

  -- When a client sends lines without a NUL that fit into the buffers and do not begin with exit, each
  -- arrives by itself and is answered, and then exit is typed: the client closes its socket and exits with 0; the server prints the
  -- lines in turn, and for each of them its child sends the reply and then the message of a recv that
  -- fails; and after the end of the connection the server uses npos as an index.
  pub exit_breaks_server :
      All xs
      → (ending client_side ≡ exits 0)
        × (left_open (client ∷ []) (events client_side) ≡ [])
        × (printed_in (events server_side) ≡ lines xs)
        × (said server_side ≡ answers message xs)
        × (ending server_side ≡ undefined)
  unfolding serve
  exit_breaks_server a =
      let (s, e, o) = talk-texts client xs [] a in
      let (p, q, u) = rounds_lines message server xs (zeros buflen) a (zeros-Clean buflen) refl in
      rw s (e, o, p, q, u)
