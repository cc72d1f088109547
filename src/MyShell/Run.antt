-- ===== src/MyShell/Run.antt =====
-- What the shell of myShell/myshell3.c runs for a line of words.
use linux_system_code.Common.{
  ℕ, zero, suc, ◌+◌, ◌≡◌, ◌<◌, ◌≤◌, refl, ap, ◌∙◌, Bool, true, false, Option, List, [], ◌∷◌, ◌++◌,
  ◌==◌, ltb, length, length-append, arith, if◌then◌else◌, Bool-cases, inl, inr,
}
use linux_system_code.MyShell.{
  Text, Result, ok, undefined, ◌>>=◌, Vertex, Split, start, max_arglist, max_vertices, push,
  read_token, finish, is_operator, command_split,
}
use linux_system_code.MyShell.Execute.{
  Action, pipe, redir_r, redir_a, execute_words, execute_cmd, execute, run_line,
}
use linux_system_code.MyShell.Lines.{words, no_nul, read_words, command_split-words}
use linux_system_code.MyShell.Words.{
  is_plain, are_plain, all_fit, words_of, command_split-print, are_unquoted_of_plain, read_plain,
  with_args,
}

-- A plain word for which there is no room in arglist.
push_full :
    (home : Option Text) (w : Text) (p : Split)
    → is_plain w ≡ true
    → max_arglist ≤ length p.current.arglist
    → read_token home w p ≡ undefined
unfolding read_token push
push_full home [] p e h = cc
push_full home (c ∷ cs) p e h =
    let o : is_operator c ≡ false = ground arith in
    let t : (c == b'~') ≡ false = ground arith in
    let b : ltb (length p.current.arglist) max_arglist ≡ false = ground arith in rw (o, t, b) refl

read_words-overflow :
    (home : Option Text) (ws : List Text) (p : Split)
    → are_plain ws ≡ true
    → max_arglist ≤ length p.current.arglist + length ws
    → read_words home ws p ≡ undefined
unfolding finish
read_words-overflow home [] p e h =
    let b : ltb (length p.current.arglist) max_arglist ≡ false = ground arith in rw b refl
read_words-overflow home (w ∷ ws) p e h =
    let plain : is_plain w ≡ true = ground arith in
    let rest : are_plain ws ≡ true = ground arith in
    elim (Bool-cases (ltb (length p.current.arglist) max_arglist)) [
      | inl b ↦
          ap (λ r. r >>= (λ q. read_words home ws q)) (read_plain home w p plain (ground arith))
          ∙ read_words-overflow home ws (with_args p (w ∷ [])) rest
              (omega (arith, length-append p.current.arglist (w ∷ [])))
      | inr b ↦
          ap (λ r. r >>= (λ q. read_words home ws q)) (push_full home w p plain (ground arith))
    ]

-- A line without NUL of more than 20 words, however they are spaced, none of which begins as an operator
-- does, with a quote or with ~, overflows arglist.
pub command_split-overflow :
    (home : Option Text) (bar : Bool) (line : Text)
    → no_nul line ≡ true
    → are_plain (words line) ≡ true
    → max_arglist ≤ length (words line)
    → command_split home bar (line ++ b'\n' ∷ []) ≡ undefined
command_split-overflow home bar line n e h =
    command_split-words home bar line n (are_unquoted_of_plain (words line) e)
    ∙ read_words-overflow home (words line) start e (omega arith)

-- How the words of a line without operators are run: the first two decide.
abbrev pub simple_action : List Text → Result Action
simple_action words = execute_words (record { sign = 0; arglist = words }) words

-- What is run for a line with operators, by the sign of the first one.
abbrev pub first_action : List Vertex → Vertex → Result Action
first_action [] v = simple_action v.arglist
first_action (u ∷ us) v =
    if u.sign == 5
    then execute_words u u.arglist
    else if u.sign == 2
    then ok (redir_r (u ∷ us ++ v ∷ []))
    else if u.sign == 4
    then ok (redir_a (u ∷ us ++ v ∷ []))
    else ok (pipe (u ∷ us ++ v ∷ []))

execute-sign :
    (sign : ℕ) (args : List Text) (vs : List Vertex) (v : Vertex)
    → ltb 0 sign ≡ true
    → ltb sign 6 ≡ true
    → execute (record { sign = sign; arglist = args } ∷ vs ++ v ∷ [])
      ≡ first_action (record { sign = sign; arglist = args } ∷ vs) v
unfolding execute execute_cmd
execute-sign zero args vs v lo hi = cc
execute-sign (suc zero) args vs v lo hi = refl
execute-sign (suc (suc zero)) args vs v lo hi = refl
execute-sign (suc (suc (suc zero))) args vs v lo hi = refl
execute-sign (suc (suc (suc (suc zero)))) args vs v lo hi = refl
execute-sign (suc (suc (suc (suc (suc zero))))) args vs v lo hi = refl
execute-sign (suc (suc (suc (suc (suc (suc n)))))) args vs v lo hi = absurd (ground arith)

execute-first :
    (vs : List Vertex) (last : List Text)
    → all_fit vs ≡ true
    → execute (vs ++ record { sign = 0; arglist = last } ∷ [])
      ≡ first_action vs (record { sign = 0; arglist = last })
unfolding execute execute_cmd
execute-first [] last f = refl
execute-first (v ∷ vs) last f =
    execute-sign v.sign v.arglist vs (record { sign = 0; arglist = last }) (ground arith)
      (ground arith)

-- A line without NUL that consists of at most seven entries with operators of the signs from 1 to 5, and
-- of a last one, each of at most 20 words that stand for themselves, is run by the first operator: >
-- and >> by their own functions, | and < by execute_pipe, and without an operator or with & by
-- execute_cmd.
pub run_line-print :
    (home : Option Text) (bar : Bool) (line : Text) (vs : List Vertex) (last : List Text)
    → no_nul line ≡ true
    → words line ≡ words_of vs last
    → all_fit vs ≡ true
    → are_plain last ≡ true
    → length last < max_arglist
    → length vs < max_vertices
    → run_line home bar (line ++ b'\n' ∷ []) ≡ first_action vs (record { sign = 0; arglist = last })
unfolding run_line
run_line-print home bar line vs last n w f e h k =
    ap (λ r. r >>= execute) (command_split-print home bar line vs last n w f e h k)
    ∙ execute-first vs last f
