-- ===== src/MyShell/Lines.antt =====
-- `command_split` of myShell/myshell3.c on lines in which no word is quoted.
use linux_system_code.Common.{
  ℕ, zero, suc, ◌≡◌, ◌<◌, ◌≤◌, refl, sym, ap, ◌∙◌, Bool, true, false, not, ◌&&◌, Option, List, [],
  ◌∷◌, ◌++◌, ◌==◌, length, arith, if◌then◌else◌, if_elim, Bool-cases, inl, inr,
}
use linux_system_code.MyShell.{
  Text, Result, ok, undefined, out_of_fuel, ◌>>=◌, Vertex, Split, start, skip_spaces, Behind, Token,
  token, drop_last, starts_with, quotes, read_token, finish, tokens, c_string, bar_or_none,
  split_string, command_split,
}

-- The words of a line: what stands between its spaces.
abbrev pub begins_word : Text → Bool
begins_word [] = false
begins_word (c ∷ cs) = not (c == b' ')

-- A byte in front of the words of a text that begins with a word, or not.
abbrev pub in_front : ℕ → (joined : Bool) → List Text → List Text
in_front c true (w ∷ ws) = (c ∷ w) ∷ ws
in_front c true [] = (c ∷ []) ∷ []
in_front c false ws = (c ∷ []) ∷ ws

abbrev pub words : Text → List Text
words [] = []
words (c ∷ cs) = let more = words cs in if c == b' ' then more else in_front c (begins_word cs) more

abbrev pub are_unquoted : List Text → Bool
are_unquoted [] = true
are_unquoted (w ∷ ws) = not (starts_with b'\'' w) && are_unquoted ws

abbrev pub no_nul : Text → Bool
no_nul [] = true
no_nul (c ∷ cs) = not (c == 0) && no_nul cs

-- What a line of words means, without the bytes.
abbrev pub read_words : Option Text → List Text → Split → Result (List Vertex)
read_words home [] p = finish p
read_words home (w ∷ ws) p = read_token home w p >>= (λ p. read_words home ws p)

words-next :
    (b : Behind) (c : ℕ) (cs : Text)
    → (c == b' ') ≡ false
    → words (c ∷ cs) ≡ (token b (c ∷ cs)).temp ∷ words (token b (c ∷ cs)).rest
words-next b c [] e = rw e refl
words-next b c (d ∷ ds) e = elim (Bool-cases (d == b' ')) [
  | inl space ↦ rw (e, space) refl
  | inr other ↦
      let more : List Text = words ds in
      let ih = words-next b d ds other in
      rw e (
        ap (λ (j : Bool). in_front c (not j) (words (d ∷ ds))) other
        ∙ ap (in_front c true) ih
        ∙ rw other refl)
]

words-skip_spaces : (line : Text) → words (skip_spaces line) ≡ words line
words-skip_spaces [] = refl
words-skip_spaces (c ∷ cs) = elim (Bool-cases (c == b' ')) [
  | inl space ↦ rw space (words-skip_spaces cs)
  | inr other ↦ let e : skip_spaces (c ∷ cs) ≡ c ∷ cs = rw other refl in ap words e
]

skipped : (line : Text) (c : ℕ) (cs : Text) → skip_spaces line ≡ c ∷ cs → (c == b' ') ≡ false
skipped [] c cs e = cc
skipped (d ∷ ds) c cs e = elim (Bool-cases (d == b' ')) [
  | inl space ↦ skipped ds c cs (rw space at e)
  | inr other ↦ let same : d ∷ ds ≡ c ∷ cs = rw other at e in let one : d ≡ c = cc in rw⁻¹ one other
]

quotes_lem : (t : Token) → starts_with b'\'' t.temp ≡ false → quotes t ≡ ok t
unfolding quotes
quotes_lem t e = rw e refl

bind_cong :
    {A B : Type 0} (r : Result A) (f g : A → Result B)
    → ((a : A) → f a ≡ g a)
    → (r >>= f) ≡ (r >>= g)
bind_cong (ok a) f g e = e a
bind_cong undefined f g e = refl
bind_cong out_of_fuel f g e = refl

-- One round of the loop.
abbrev pub round : ℕ → Option Text → Split → Token → Result (List Vertex)
round fuel home p t = read_token home t.temp p >>= (λ p. tokens fuel home t.behind t.rest p)

pub tokens-next :
    (fuel : ℕ) (home : Option Text) (b : Behind) (line : Text) (p : Split) (c : ℕ) (cs : Text)
    → skip_spaces line ≡ c ∷ cs
    → tokens (suc fuel) home b line p ≡ (quotes (token b (c ∷ cs)) >>= round fuel home p)
unfolding tokens
tokens-next fuel home b line p c cs e = rw (tokens, e) refl

pub tokens-last :
    (fuel : ℕ) (home : Option Text) (b : Behind) (line : Text) (p : Split)
    → skip_spaces line ≡ []
    → tokens (suc fuel) home b line p ≡ finish p
unfolding tokens
tokens-last fuel home b line p e = rw (tokens, e) refl

pub length-skip_spaces : (line : Text) → length (skip_spaces line) ≤ length line
length-skip_spaces [] = omega arith
length-skip_spaces (c ∷ cs) =
    if_elim (λ (t : Text). length t ≤ length (c ∷ cs)) (c == b' ') (skip_spaces cs) (c ∷ cs)
      (λ _. omega (arith, length-skip_spaces cs)) (λ _. omega arith)

length-token : (b : Behind) (t : Text) → length (token b t).rest ≤ length t
length-token b [] = omega arith
length-token b (c ∷ cs) =
    if_elim (λ (t : Token). length t.rest ≤ length (c ∷ cs)) (c == b' ')
      (record { temp = []; delimited = true; rest = cs; behind = b })
      (record (token b cs) { temp = c ∷ (token b cs).temp }) (λ _. omega arith)
      (λ _. omega (arith, length-token b cs))

pub length-token-cons :
    (b : Behind) (c : ℕ) (cs : Text) → length (token b (c ∷ cs)).rest ≤ length cs
length-token-cons b c cs =
    if_elim (λ (t : Token). length t.rest ≤ length cs) (c == b' ')
      (record { temp = []; delimited = true; rest = cs; behind = b })
      (record (token b cs) { temp = c ∷ (token b cs).temp }) (λ _. omega arith)
      (λ _. length-token b cs)

behind_lem : (b : Behind) (t : Text) → (token b t).behind ≡ b
behind_lem b [] = refl
behind_lem b (c ∷ cs) =
    if_elim (λ (t : Token). t.behind ≡ b) (c == b' ')
      (record { temp = []; delimited = true; rest = cs; behind = b })
      (record (token b cs) { temp = c ∷ (token b cs).temp }) (λ _. refl) (λ _. behind_lem b cs)

module _ (fuel : ℕ) (home : Option Text) (b : Behind) (line : Text) (p : Split) where
  tokens-skipped :
      length line < suc fuel
      → are_unquoted (words line) ≡ true
      → ((more : Text) (q : Split)
          → length more < fuel
          → are_unquoted (words more) ≡ true
          → tokens fuel home b more q ≡ read_words home (words more) q)
      → (s : Text) → skip_spaces line ≡ s
      → tokens (suc fuel) home b line p ≡ read_words home (words line) p
  tokens-skipped h u k [] e =
      tokens-last fuel home b line p e
      ∙ ap (λ (ws : List Text). read_words home ws p) (sym (ap words e) ∙ words-skip_spaces line)
  tokens-skipped h u k (c ∷ cs) e =
      let t : Token = token b (c ∷ cs) in
      let other : (c == b' ') ≡ false = skipped line c cs e in
      let parts : words line ≡ t.temp ∷ words t.rest =
        sym (words-skip_spaces line) ∙ ap words e ∙ words-next b c cs other in
      let all : (not (starts_with b'\'' t.temp) && are_unquoted (words t.rest)) ≡ true =
        ap are_unquoted (sym parts) ∙ u in
      let first : starts_with b'\'' t.temp ≡ false = ground arith in
      let others : are_unquoted (words t.rest) ≡ true = ground arith in
      let shorter : length t.rest < fuel =
        omega (arith, length-token-cons b c cs, length-skip_spaces line, ap length e, h) in
      tokens-next fuel home b line p c cs e
      ∙ ap (λ r. r >>= round fuel home p) (quotes_lem t first)
      ∙ bind_cong (read_token home t.temp p) (λ q. tokens fuel home t.behind t.rest q)
          (λ q. read_words home (words t.rest) q)
          (λ q.
            ap (λ (d : Behind). tokens fuel home d t.rest q) (behind_lem b (c ∷ cs))
            ∙ k t.rest q shorter others)
      ∙ ap (λ (ws : List Text). read_words home ws p) (sym parts)

tokens-words :
    (fuel : ℕ) (home : Option Text) (b : Behind) (line : Text) (p : Split)
    → length line < fuel
    → are_unquoted (words line) ≡ true
    → tokens fuel home b line p ≡ read_words home (words line) p
tokens-words zero home b line p h u = absurd (omega arith)
tokens-words (suc fuel) home b line p h u =
    tokens-skipped fuel home b line p h u (λ more q l v. tokens-words fuel home b more q l v)
      (skip_spaces line) refl

drop_last_lem : (xs : Text) (c : ℕ) → drop_last (xs ++ c ∷ []) ≡ xs
drop_last_lem [] c = refl
drop_last_lem (x ∷ []) c = refl
drop_last_lem (x ∷ y ∷ xs) c = ap (λ (t : Text). x ∷ t) (drop_last_lem (y ∷ xs) c)

length-line : (line : Text) (c : ℕ) → length line < length (line ++ c ∷ [])
length-line [] c = omega arith
length-line (x ∷ xs) c = omega (arith, length-line xs c)

c_string-line :
    (line : Text) → no_nul line ≡ true → c_string (line ++ b'\n' ∷ []) ≡ line ++ b'\n' ∷ []
c_string-line [] e = refl
c_string-line (c ∷ cs) e =
    let one : (c == 0) ≡ false = ground arith in
    let rest : no_nul cs ≡ true = ground arith in rw (one, c_string-line cs rest) refl

split_string-line :
    (home : Option Text) (b : Behind) (line : Text) (c : ℕ)
    → split_string home b (line ++ c ∷ []) ≡ tokens (length (line ++ c ∷ [])) home b line start
split_string-line home b [] c = refl
split_string-line home b (x ∷ line) c =
    ap (λ t. tokens (length ((x ∷ line) ++ c ∷ [])) home b t start) (drop_last_lem (x ∷ line) c)

-- On a line without NUL in which no word begins with a quote, command_split reads the words one after
-- the other.
pub command_split-words :
    (home : Option Text) (bar : Bool) (line : Text)
    → no_nul line ≡ true
    → are_unquoted (words line) ≡ true
    → command_split home bar (line ++ b'\n' ∷ []) ≡ read_words home (words line) start
unfolding command_split
command_split-words home bar line n u =
    ap (split_string home (bar_or_none bar)) (c_string-line line n)
    ∙ split_string-line home (bar_or_none bar) line b'\n'
    ∙ tokens-words _ home (bar_or_none bar) line start (length-line line b'\n') u
