-- ===== src/Network/Served.antt =====
-- What the server network/服务端.cpp does with a client's lines.
use linux_system_code.Common.{
  ℕ, ◌+◌, ◌≡◌, ◌<◌, refl, ap, ◌∙◌, true, false, some, List, [], ◌∷◌, ◌++◌, length, arith,
}
use linux_system_code.Processes.{undefined, does, forks, ending, events}
use linux_system_code.Network.{
  Text, closed, sent, printed, waited, Process, begins, exit_word, printed_in, said,
}
use linux_system_code.Network.Server.{
  buflen, Round, answer, line_found, heard, complains, serve_loop,
}
use linux_system_code.Network.Lines.{
  is_plain, Clean, find_newline-line, set-line, c_str-line, begins-newline, begins-nul,
  overwrite-line,
}

-- A line of the client without its newline, and what is typed on the server in reply.
pub record Exchange : Type 0 where
  pub line : Text
  pub reply : Text

-- Lines that fit into both buffers, none of which begins with exit.
abbrev pub IsExchange : Exchange → Type 0
IsExchange x =
    (is_plain x.line ≡ true) × (begins exit_word x.line ≡ false) × (length x.line + 1 < buflen)

abbrev pub All : List Exchange → Type 0
All [] = Unit
All (x ∷ xs) = IsExchange x × All xs

abbrev pub with_newline : Text → Text
with_newline line = line ++ b'\n' ∷ []

-- The rounds of the server when each recv gives one of these texts, and the lines are typed in turn.
abbrev pub delivers : List Text → (replies : List Text) → List Round
delivers [] replies = []
delivers (t ∷ ts) [] = []
delivers (t ∷ ts) (r ∷ replies) =
    record { received = some t; fork_fails = false; dup_fails = false; reply = r }
    ∷ delivers ts replies

-- The end of the connection.
abbrev pub hangs_up : Round
hangs_up = record { received = some []; fork_fails = false; dup_fails = false; reply = [] }

abbrev pub texts : List Exchange → List Text
texts [] = []
texts (x ∷ xs) = with_newline x.line ∷ texts xs

abbrev pub lines : List Exchange → List Text
lines [] = []
lines (x ∷ xs) = x.line ∷ lines xs

abbrev pub replies : List Exchange → List Text
replies [] = []
replies (x ∷ xs) = x.reply ∷ replies xs

-- What the children of the server send: the reply, and the message of the recv that fails.
abbrev pub answers : (message : Text) → List Exchange → List Text
answers message [] = []
answers message (x ∷ xs) = with_newline x.reply ∷ message ∷ answers message xs

module _ (message : Text) (fd : ℕ) where
  -- The child's branch of a round.
  abbrev child : (reply : Text) → Process Text
  child reply = does (closed fd) (does (sent (with_newline reply)) (complains message))

  round :
      (x : Exchange) (later : List Round) (buf : Text)
      → IsExchange x
      → Clean buflen buf
      → (buf' : Text) × (Clean buflen buf')
        × (begins exit_word buf' ≡ false)
        × (serve_loop message fd
              (record {
                received = some (with_newline x.line);
                fork_fails = false;
                dup_fails = false;
                reply = x.reply;
              }
                ∷ later)
              buf
            ≡ does
                (printed x.line)
                (forks (child x.reply) (does waited (serve_loop message fd later buf'))))
  unfolding serve_loop heard line_found answer
  round x later buf (p, no_exit, short) clean =
      let (rest, e, clean') = overwrite-line buflen x.line buf clean p (omega (arith, short)) in
      (
        x.line ++ 0 ∷ rest,
        clean',
        begins-nul x.line rest no_exit,
        rw
            (
              e,
              begins-newline x.line rest no_exit,
              find_newline-line x.line rest p,
              set-line x.line rest b'\n' 0,
              c_str-line x.line rest p,
            )
            refl,
      )

  pub rounds_lines :
      (xs : List Exchange) (buf : Text)
      → All xs
      → Clean buflen buf
      → begins exit_word buf ≡ false
      → (printed_in
            (events (serve_loop message fd (delivers (texts xs) (replies xs) ++ hangs_up ∷ []) buf))
          ≡ lines xs)
        × (said (serve_loop message fd (delivers (texts xs) (replies xs) ++ hangs_up ∷ []) buf)
            ≡ answers message xs)
        × (ending (serve_loop message fd (delivers (texts xs) (replies xs) ++ hangs_up ∷ []) buf)
            ≡ undefined)
  unfolding serve_loop heard line_found
  rounds_lines [] buf a clean b = rw (b, clean.no_newline) (refl, refl, refl)
  rounds_lines (x ∷ xs) buf (ok_x, a) clean b =
      let (buf', clean', b', e) =
        round x (delivers (texts xs) (replies xs) ++ hangs_up ∷ []) buf ok_x clean in
      let (p, q, u) = rounds_lines xs buf' a clean' b' in
      (
        ap (λ r. printed_in (events r)) e ∙ ap (λ (l : List Text). x.line ∷ l) p,
        ap said e ∙ ap (λ (l : List Text). with_newline x.reply ∷ message ∷ l) q,
        ap ending e ∙ u,
      )
