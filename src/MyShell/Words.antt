-- ===== src/MyShell/Words.antt =====
-- `command_split` of myShell/myshell3.c takes a line to the entries of `L` that it stands for.
use mathlib.Core.List.{append_assoc, append-nil}
use linux_system_code.Common.{
  ℕ, zero, suc, ◌+◌, ◌≡◌, ◌<◌, refl, sym, ap, ◌∙◌, Bool, true, false, not, ◌&&◌, Option, List, [],
  ◌∷◌, ◌++◌, ◌==◌, ltb, length, length-append, arith, if◌then◌else◌,
}
use linux_system_code.MyShell.{
  Text, ok, ◌>>=◌, Vertex, Split, max_arglist, max_vertices, is_operator, sign_of, push,
  starts_with, next_vertex, read_token, finish, start, command_split,
}
use linux_system_code.MyShell.Lines.{words, are_unquoted, no_nul, read_words, command_split-words}

-- A word that stands for itself: no operator, no `~` and no quote in front.
abbrev pub is_plain : Text → Bool
is_plain [] = false
is_plain (c ∷ cs) = not (is_operator c) && not (c == b'~') && not (c == b'\'')

abbrev pub are_plain : List Text → Bool
are_plain [] = true
are_plain (w ∷ ws) = is_plain w && are_plain ws

-- The operators of the signs from 1 to 5.
abbrev pub operator : ℕ → Text
operator sign =
    if sign == 1
    then b'|' ∷ []
    else if sign == 2
    then b'>' ∷ []
    else if sign == 3
    then b'<' ∷ []
    else if sign == 4
    then b'>' ∷ b'>' ∷ []
    else b'&' ∷ []

-- An entry of `L` that an operator ends, and one at the end of the line.
abbrev pub fits : Vertex → Bool
fits v = are_plain v.arglist && ltb (length v.arglist) max_arglist

abbrev pub all_fit : List Vertex → Bool
all_fit [] = true
all_fit (v ∷ vs) = fits v && ltb 0 v.sign && ltb v.sign 6 && all_fit vs

-- The words of the entries `vs`, each with its operator, and of the last one.
abbrev pub words_of : List Vertex → List Text → List Text
words_of [] last = last
words_of (v ∷ vs) last = v.arglist ++ operator v.sign ∷ words_of vs last

abbrev pub with_args : Split → List Text → Split
with_args p ws = record p { current = record (p.current) { arglist = p.current.arglist ++ ws } }

pub read_plain :
    (home : Option Text) (w : Text) (p : Split)
    → is_plain w ≡ true
    → length p.current.arglist < max_arglist
    → read_token home w p ≡ ok (with_args p (w ∷ []))
unfolding read_token push
read_plain home [] p e h = cc
read_plain home (c ∷ cs) p e h =
    let o : is_operator c ≡ false = ground arith in
    let t : (c == b'~') ≡ false = ground arith in
    let b : ltb (length p.current.arglist) max_arglist ≡ true = ground arith in rw (o, t, b) refl

-- Plain words go behind the arguments so far.
read_words-plain :
    (home : Option Text) (ws more : List Text) (p : Split)
    → are_plain ws ≡ true
    → length p.current.arglist + length ws < max_arglist
    → read_words home (ws ++ more) p ≡ read_words home more (with_args p ws)
read_words-plain home [] more p e h =
    ap
      (λ (a : List Text).
        read_words home more (record p { current = record (p.current) { arglist = a } }))
      (sym (append-nil p.current.arglist))
read_words-plain home (w ∷ ws) more p e h =
    let one : Split = with_args p (w ∷ []) in
    let fine : is_plain w ≡ true = ground arith in
    let rest : are_plain ws ≡ true = ground arith in
    ap (λ r. r >>= (λ q. read_words home (ws ++ more) q)) (read_plain home w p fine (omega arith))
    ∙ read_words-plain home ws more one rest
        (omega (arith, length-append p.current.arglist (w ∷ [])))
    ∙ ap
        (λ (a : List Text).
          read_words home more (record p { current = record (p.current) { arglist = a } }))
        (append_assoc p.current.arglist (w ∷ []) ws)

-- `L[i]` with no words yet.
abbrev fresh : List Vertex → Split
fresh before = record { before = before; current = record { sign = 0; arglist = [] } }

abbrev holding : List Vertex → List Text → Split
holding before args = record { before = before; current = record { sign = 0; arglist = args } }

next_vertex_lem :
    (temp : Text) (before : List Vertex) (args : List Text) (sign : ℕ)
    → sign_of temp 0 ≡ sign
    → length args < max_arglist
    → length before + 1 < max_vertices
    → next_vertex temp (holding before args)
      ≡ ok (fresh (before ++ record { sign = sign; arglist = args } ∷ []))
unfolding next_vertex
next_vertex_lem temp before args sign e h k =
    let b : (ltb (length args) max_arglist && ltb (length before + 1) max_vertices) ≡ true =
      ground arith in
    rw (b, e) refl

-- An operator ends the entry.
read_operator :
    (home : Option Text) (sign : ℕ) (before : List Vertex) (args : List Text)
    → ltb 0 sign ≡ true
    → ltb sign 6 ≡ true
    → length args < max_arglist
    → length before + 1 < max_vertices
    → read_token home (operator sign) (holding before args)
      ≡ ok (fresh (before ++ record { sign = sign; arglist = args } ∷ []))
unfolding read_token
read_operator home zero before args lo hi h k = cc
read_operator home (suc zero) before args lo hi h k = next_vertex_lem _ before args 1 refl h k
read_operator home (suc (suc zero)) before args lo hi h k = next_vertex_lem _ before args 2 refl h k
read_operator home (suc (suc (suc zero))) before args lo hi h k =
    next_vertex_lem _ before args 3 refl h k
read_operator home (suc (suc (suc (suc zero)))) before args lo hi h k =
    next_vertex_lem _ before args 4 refl h k
read_operator home (suc (suc (suc (suc (suc zero))))) before args lo hi h k =
    next_vertex_lem _ before args 5 refl h k
read_operator home (suc (suc (suc (suc (suc (suc n)))))) before args lo hi h k =
    absurd (ground arith)

finish_lem :
    (before : List Vertex) (last : List Text)
    → length last < max_arglist
    → finish (holding before last) ≡ ok (before ++ record { sign = 0; arglist = last } ∷ [])
unfolding finish
finish_lem before last h = let b : ltb (length last) max_arglist ≡ true = ground arith in rw b refl

read_words-words_of :
    (home : Option Text) (vs before : List Vertex) (last : List Text)
    → all_fit vs ≡ true
    → are_plain last ≡ true
    → length last < max_arglist
    → length before + length vs < max_vertices
    → read_words home (words_of vs last) (fresh before)
      ≡ ok (before ++ vs ++ record { sign = 0; arglist = last } ∷ [])
read_words-words_of home [] before last f e h k =
    ap (λ (ws : List Text). read_words home ws (fresh before)) (sym (append-nil last))
    ∙ read_words-plain home last [] (fresh before) e (omega arith)
    ∙ finish_lem before last h
    ∙ ap (λ (b : List Vertex). ok (b ++ record { sign = 0; arglist = last } ∷ []))
        (sym (append-nil before))
read_words-words_of home (v ∷ vs) before last f e h k =
    let plain : are_plain v.arglist ≡ true = ground arith in
    let short : ltb (length v.arglist) max_arglist ≡ true = ground arith in
    let lo : ltb 0 v.sign ≡ true = ground arith in
    let hi : ltb v.sign 6 ≡ true = ground arith in
    let others : all_fit vs ≡ true = ground arith in
    let few : length v.arglist < max_arglist = ground arith in
    let next : List Text = words_of vs last in
    read_words-plain home v.arglist (operator v.sign ∷ next) (fresh before) plain (omega arith)
    ∙ ap (λ r. r >>= (λ q. read_words home next q))
        (read_operator home v.sign before v.arglist lo hi few (omega arith))
    ∙ read_words-words_of home vs (before ++ v ∷ []) last others e h
        (omega (arith, length-append before (v ∷ [])))
    ∙ ap (λ (b : List Vertex). ok (b ++ record { sign = 0; arglist = last } ∷ []))
        (append_assoc before (v ∷ []) vs)

pub are_unquoted-append :
    (ws more : List Text)
    → are_plain ws ≡ true
    → are_unquoted more ≡ true
    → are_unquoted (ws ++ more) ≡ true
are_unquoted-append [] more e f = f
are_unquoted-append ([] ∷ ws) more e f = cc
are_unquoted-append ((c ∷ cs) ∷ ws) more e f =
    let one : (c == b'\'') ≡ false = ground arith in
    let rest : are_unquoted (ws ++ more) ≡ true = are_unquoted-append ws more (ground arith) f in
    rw (one, rest) refl

pub are_unquoted_of_plain : (ws : List Text) → are_plain ws ≡ true → are_unquoted ws ≡ true
are_unquoted_of_plain ws e =
    ap are_unquoted (sym (append-nil ws)) ∙ are_unquoted-append ws [] e refl

operator_unquoted : (sign : ℕ) → starts_with b'\'' (operator sign) ≡ false
operator_unquoted sign = ground arith

are_unquoted-words_of :
    (vs : List Vertex) (last : List Text)
    → all_fit vs ≡ true
    → are_plain last ≡ true
    → are_unquoted (words_of vs last) ≡ true
are_unquoted-words_of [] last f e = are_unquoted_of_plain last e
are_unquoted-words_of (v ∷ vs) last f e =
    let rest : are_unquoted (words_of vs last) ≡ true =
      are_unquoted-words_of vs last (ground arith) e in
    are_unquoted-append v.arglist (operator v.sign ∷ words_of vs last) (ground arith)
      (rw (operator_unquoted v.sign, rest) refl)

-- A line without NUL, however its words are spaced, that consists of at most seven entries, each with
-- an operator of a sign from 1 to 5 behind it, and of a last one, each of at most 20 words that do
-- not begin as an operator does, with a quote or with ~, is split into these entries, the last one
-- with sign 0.
pub command_split-print :
    (home : Option Text) (bar : Bool) (line : Text) (vs : List Vertex) (last : List Text)
    → no_nul line ≡ true
    → words line ≡ words_of vs last
    → all_fit vs ≡ true
    → are_plain last ≡ true
    → length last < max_arglist
    → length vs < max_vertices
    → command_split home bar (line ++ b'\n' ∷ [])
      ≡ ok (vs ++ record { sign = 0; arglist = last } ∷ [])
command_split-print home bar line vs last n w f e h k =
    command_split-words home bar line n (ap are_unquoted w ∙ are_unquoted-words_of vs last f e)
    ∙ ap (λ (ws : List Text). read_words home ws start) w
    ∙ read_words-words_of home vs [] last f e h (omega arith)
