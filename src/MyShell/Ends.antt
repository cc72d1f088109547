-- ===== src/MyShell/Ends.antt =====
-- The loops of `command_split` in myShell/myshell3.c end.
use mathlib.Core.Path.{subst}
use linux_system_code.Common.{
  ℕ, zero, suc, ◌+◌, ◌≡◌, ◌≢◌, ◌<◌, ◌≤◌, refl, sym, ap, Bool, ◌&&◌, Option, none, some, [], ◌∷◌,
  ◌==◌, ltb, length, arith, if◌then◌else◌, if_elim,
}
use linux_system_code.MyShell.{
  Text, Result, ok, undefined, out_of_fuel, ◌>>=◌, Split, start, max_arglist, max_vertices,
  is_operator, push, next_vertex, get_path, read_token, finish, skip_spaces, Token, token,
  before_bar, drop_last, unquoted, unquoted_last, starts_with, quotes, tokens, c_string,
  bar_or_none, Behind, no_bar, far_bar, next_bar, split_string, command_split,
}
use linux_system_code.MyShell.Lines.{
  round, tokens-next, tokens-last, length-skip_spaces, length-token-cons,
}

module _ {A : Type 0} where
  abbrev pub Ends : Result A → Type 0
  Ends (ok a) = Unit
  Ends undefined = Unit
  Ends out_of_fuel = ⊥

Ends-bind :
    {A B : Type 0} (r : Result A) (f : A → Result B)
    → Ends r
    → ((a : A) → Ends (f a))
    → Ends (r >>= f)
Ends-bind (ok a) f e g = g a
Ends-bind undefined f e g = tt
Ends-bind out_of_fuel f e g = elim e [ ]

Ends-push : (temp : Text) (p : Split) → Ends (push temp p)
unfolding push
Ends-push temp p =
    if_elim Ends (ltb (length p.current.arglist) max_arglist) (ok _) undefined (λ _. tt) (λ _. tt)

Ends-next_vertex : (temp : Text) (p : Split) → Ends (next_vertex temp p)
unfolding next_vertex
Ends-next_vertex temp p =
    if_elim Ends
      (ltb (length p.current.arglist) max_arglist && ltb (length p.before + 1) max_vertices) (ok _)
      undefined (λ _. tt) (λ _. tt)

Ends-get_path : (home : Option Text) (temp : Text) → Ends (get_path home temp)
unfolding get_path
Ends-get_path none temp = tt
Ends-get_path (some home) [] = tt
Ends-get_path (some home) (c ∷ []) = tt
Ends-get_path (some home) (c ∷ d ∷ cs) = tt

Ends-read_token : (home : Option Text) (temp : Text) (p : Split) → Ends (read_token home temp p)
unfolding read_token
Ends-read_token home [] p = Ends-push [] p
Ends-read_token home (c ∷ cs) p =
    let other : Result Split = push (c ∷ cs) p in
    let path : Result Split = get_path home (c ∷ cs) >>= (λ temp. push temp p) in
    if_elim Ends (is_operator c) (next_vertex (c ∷ cs) p) (if c == b'~' then path else other)
      (λ _. Ends-next_vertex (c ∷ cs) p)
      (λ _.
        if_elim Ends (c == b'~') path other
          (λ _.
            Ends-bind (get_path home (c ∷ cs)) _ (Ends-get_path home (c ∷ cs)) (λ t. Ends-push t p))
          (λ _. Ends-push (c ∷ cs) p))

Ends-finish : (p : Split) → Ends (finish p)
unfolding finish
Ends-finish p =
    if_elim Ends (ltb (length p.current.arglist) max_arglist) (ok _) undefined (λ _. tt) (λ _. tt)

-- What is left of the line does not grow.
abbrev Leaves : ℕ → Result Token → Type 0
Leaves n (ok t) = length t.rest ≤ n
Leaves n undefined = Unit
Leaves n out_of_fuel = ⊥

abbrev Within : ℕ → Option Text → Type 0
Within n none = Unit
Within n (some t) = length t ≤ n

Within-cons :
    (c n : ℕ) (o : Option Text)
    → Within n o
    → Within (suc n) (elim o [ none ↦ none | some t ↦ some (c ∷ t) ])
Within-cons c n none w = tt
Within-cons c n (some t) w = omega arith

Within-before_bar : (line : Text) → Within (length line) (before_bar line)
Within-before_bar [] = tt
Within-before_bar (c ∷ cs) =
    if_elim (Within (length (c ∷ cs))) (c == b'|') (some []) _ (λ _. omega arith)
      (λ _. Within-cons c (length cs) (before_bar cs) (Within-before_bar cs))

length-before_bar : (line t : Text) → before_bar line ≡ some t → length t ≤ length line
length-before_bar line t e = subst (Within (length line)) e (Within-before_bar line)

length-drop_last : (t : Text) → length (drop_last t) ≤ length t
length-drop_last [] = omega arith
length-drop_last (c ∷ []) = omega arith
length-drop_last (c ∷ d ∷ cs) = omega (arith, length-drop_last (d ∷ cs))

Leaves-unquoted :
    (t : Token) (o : Option Text) → before_bar t.rest ≡ o → Leaves (length t.rest) (unquoted t o)
Leaves-unquoted t (some []) e = omega arith
Leaves-unquoted t (some (c ∷ cs)) e =
    omega (arith, length-drop_last (c ∷ cs), length-before_bar t.rest (c ∷ cs) e)
Leaves-unquoted t none e = Leaves-none t.behind
  where
    Leaves-none : (b : Behind) → Leaves (length t.rest) (unquoted (record t { behind = b }) none)
    Leaves-none no_bar = tt
    Leaves-none far_bar = omega arith
    Leaves-none next_bar = omega arith

Leaves-unquoted_last : (t : Token) → Leaves (length t.rest) (unquoted_last t)
Leaves-unquoted_last t = Leaves-at t.behind
  where
    Leaves-at : (b : Behind) → Leaves (length t.rest) (unquoted_last (record t { behind = b }))
    Leaves-at no_bar = tt
    Leaves-at far_bar = omega arith
    Leaves-at next_bar = omega arith

Leaves-quotes : (t : Token) → Leaves (length t.rest) (quotes t)
unfolding quotes
Leaves-quotes t =
    let un : Result Token = unquoted t (before_bar t.rest) in
    if_elim (Leaves (length t.rest)) (starts_with b'\'' t.temp)
      (if t.delimited then un else unquoted_last t) (ok t)
      (λ _.
        if_elim (Leaves (length t.rest)) t.delimited un (unquoted_last t)
          (λ _. Leaves-unquoted t _ refl) (λ _. Leaves-unquoted_last t))
      (λ _. omega arith)

Ends-round :
    (fuel : ℕ) (home : Option Text) (p : Split) (n : ℕ) (r : Result Token)
    → Leaves n r
    → ((b : Behind) (line : Text) (p : Split) → length line ≤ n → Ends (tokens fuel home b line p))
    → Ends (r >>= round fuel home p)
Ends-round fuel home p n (ok t) l k =
    Ends-bind (read_token home t.temp p) _ (Ends-read_token home t.temp p)
      (λ q. k t.behind t.rest q l)
Ends-round fuel home p n undefined l k = tt
Ends-round fuel home p n out_of_fuel l k = elim l [ ]

Ends-skipped :
    (fuel : ℕ) (home : Option Text) (b : Behind) (line : Text) (p : Split)
    → length line < suc fuel
    → ((d : Behind) (more : Text) (q : Split)
        → length more < fuel
        → Ends (tokens fuel home d more q))
    → (s : Text) → skip_spaces line ≡ s
    → Ends (tokens (suc fuel) home b line p)
Ends-skipped fuel home b line p h k [] e =
    subst Ends (sym (tokens-last fuel home b line p e)) (Ends-finish p)
Ends-skipped fuel home b line p h k (c ∷ cs) e =
    let t : Token = token b (c ∷ cs) in
    subst Ends (sym (tokens-next fuel home b line p c cs e)) (
      Ends-round fuel home p (length t.rest) (quotes t) (Leaves-quotes t) (λ d rest q l.
        k d rest q
          (omega (arith, l, length-token-cons b c cs, length-skip_spaces line, ap length e))))

Ends-tokens :
    (fuel : ℕ) (home : Option Text) (b : Behind) (line : Text) (p : Split)
    → length line < fuel
    → Ends (tokens fuel home b line p)
Ends-tokens zero home b line p h = absurd (omega arith)
Ends-tokens (suc fuel) home b line p h =
    Ends-skipped fuel home b line p h (λ d more q l. Ends-tokens fuel home d more q l)
      (skip_spaces line) refl

Ends-not : {A : Type 0} (r : Result A) → Ends r → r ≢ out_of_fuel
Ends-not r e q = subst Ends q e

length-drop_last_cons : (c : ℕ) (cs : Text) → length (drop_last (c ∷ cs)) < length (c ∷ cs)
length-drop_last_cons c [] = omega arith
length-drop_last_cons c (d ∷ cs) = omega (arith, length-drop_last_cons d cs)

split_string-Ends :
    (home : Option Text) (b : Behind) (line : Text) → Ends (split_string home b line)
split_string-Ends home b [] = tt
split_string-Ends home b (c ∷ cs) =
    Ends-tokens (length (c ∷ cs)) home b (drop_last (c ∷ cs)) start (length-drop_last_cons c cs)

-- On every line, quoted or not, the loop of command_split ends: as many rounds as the line has bytes
-- are enough.
pub command_split-ends :
    (home : Option Text) (bar : Bool) (line : Text) → command_split home bar line ≢ out_of_fuel
unfolding command_split
command_split-ends home bar line e =
    Ends-not _ (split_string-Ends home (bar_or_none bar) (c_string line)) e
