-- ===== src/Network/Lines.antt =====
-- How a line stands in `Rebuf` of network/服务端.cpp.
use linux_system_code.Common.{
  ℕ, zero, suc, ◌+◌, ◌-◌, ◌≡◌, ◌≤◌, ◌<◌, refl, ap, ◌∙◌, Bool, true, false, not, ◌&&◌, ◌||◌, Option,
  none, some, [], ◌∷◌, ◌++◌, ◌==◌, if◌then◌else◌, length, set, arith,
}
use linux_system_code.Network.{Text, begins, exit_word, c_str}
use linux_system_code.Network.Server.{zeros, overwrite, one_further, find_newline}

-- A text without a NUL and without a newline.
abbrev pub is_plain : Text → Bool
is_plain [] = true
is_plain (c ∷ cs) = not (c == 0) && not (c == b'\n') && is_plain cs

-- What is left of the buffer behind a line.
abbrev pub behind : Text → Text → Text
behind [] buf = buf
behind (c ∷ cs) [] = []
behind (c ∷ cs) (d ∷ ds) = behind cs ds

length-behind : (t buf : Text) → length (behind t buf) ≡ length buf - length t
length-behind [] buf = omega arith
length-behind (c ∷ cs) [] = omega arith
length-behind (c ∷ cs) (d ∷ ds) = length-behind cs ds ∙ omega arith

overwrite-behind : (t buf : Text) → length t ≤ length buf → overwrite t buf ≡ t ++ behind t buf
overwrite-behind [] buf h = refl
overwrite-behind (c ∷ cs) [] h = absurd (omega arith)
overwrite-behind (c ∷ cs) (d ∷ ds) h =
    ap (λ (t : Text). c ∷ t) (overwrite-behind cs ds (omega arith))

-- A buffer of `n` bytes without a newline.
pub record Clean (n : ℕ) (buf : Text) : Type 0 where
  pub size : length buf ≡ n
  pub no_newline : find_newline buf ≡ none

one_further-none : (o : Option ℕ) → one_further o ≡ none → o ≡ none
one_further-none none e = refl
one_further-none (some i) e = cc

no_newline_either :
    (b : Bool) (o : Option ℕ) → (if b then some 0 else one_further o) ≡ none → o ≡ none
no_newline_either true o e = cc
no_newline_either false o e = one_further-none o e

no_newline_tail : (c : ℕ) (cs : Text) → find_newline (c ∷ cs) ≡ none → find_newline cs ≡ none
no_newline_tail c cs e = no_newline_either (c == b'\n') (find_newline cs) e

no_newline-behind : (t buf : Text) → find_newline buf ≡ none → find_newline (behind t buf) ≡ none
no_newline-behind [] buf e = e
no_newline-behind (c ∷ cs) [] e = refl
no_newline-behind (c ∷ cs) (d ∷ ds) e = no_newline-behind cs ds (no_newline_tail d ds e)

-- The newline behind a line is found, and a NUL is put in its place.
pub find_newline-line :
    (line rest : Text)
    → is_plain line ≡ true
    → find_newline (line ++ b'\n' ∷ rest) ≡ some (length line)
find_newline-line [] rest p = refl
find_newline-line (c ∷ cs) rest p =
    let other : (c == b'\n') ≡ false = ground arith in
    rw (other, find_newline-line cs rest (ground arith)) refl

find_newline-cut :
    (line rest : Text)
    → is_plain line ≡ true
    → find_newline rest ≡ none
    → find_newline (line ++ 0 ∷ rest) ≡ none
find_newline-cut [] rest p e = rw e refl
find_newline-cut (c ∷ cs) rest p e =
    let other : (c == b'\n') ≡ false = ground arith in
    rw (other, find_newline-cut cs rest (ground arith) e) refl

pub set-line :
    (line rest : Text) (x v : ℕ) → set (line ++ x ∷ rest) (length line) v ≡ line ++ v ∷ rest
set-line [] rest x v = refl
set-line (c ∷ cs) rest x v = ap (λ (t : Text). c ∷ t) (set-line cs rest x v)

pub c_str-line : (line rest : Text) → is_plain line ≡ true → c_str (line ++ 0 ∷ rest) ≡ line
c_str-line [] rest p = refl
c_str-line (c ∷ cs) rest p =
    let other : (c == 0) ≡ false = ground arith in
    rw (other, c_str-line cs rest (ground arith)) refl

abbrev has : ℕ → Text → Bool
has c [] = false
has c (d ∷ ds) = (d == c) || has c ds

has_tail : (w : ℕ) (ws : Text) (c : ℕ) → has c (w ∷ ws) ≡ false → has c ws ≡ false
has_tail w ws c h = ground arith

later_false : (x y z : Bool) → (x && y) ≡ false → (y ≡ false → z ≡ false) → (x && z) ≡ false
later_false true y z e f = f e
later_false false y z e f = refl

begins-line :
    (word line rest : Text) (c : ℕ)
    → has c word ≡ false
    → begins word line ≡ false
    → begins word (line ++ c ∷ rest) ≡ false
begins-line [] line rest c h b = cc
begins-line (w ∷ ws) [] rest c h b = let other : (w == c) ≡ false = ground arith in rw other refl
begins-line (w ∷ ws) (d ∷ ds) rest c h b =
    later_false (w == d) (begins ws ds) (begins ws (ds ++ c ∷ rest)) b
      (λ later. begins-line ws ds rest c (has_tail w ws c h) later)

-- Whether a text begins with exit does not depend on what follows its newline or its NUL.
pub begins-newline :
    (line rest : Text)
    → begins exit_word line ≡ false
    → begins exit_word (line ++ b'\n' ∷ rest) ≡ false
begins-newline line rest b = begins-line exit_word line rest b'\n' refl b

pub begins-nul :
    (line rest : Text) → begins exit_word line ≡ false → begins exit_word (line ++ 0 ∷ rest) ≡ false
begins-nul line rest b = begins-line exit_word line rest 0 refl b

length-line : (line rest : Text) (c : ℕ) → length (line ++ c ∷ rest) ≡ length line + 1 + length rest
length-line [] rest c = omega arith
length-line (d ∷ ds) rest c = omega (arith, length-line ds rest c)

append-line : (line rest : Text) (c : ℕ) → (line ++ c ∷ []) ++ rest ≡ line ++ c ∷ rest
append-line [] rest c = refl
append-line (d ∷ ds) rest c = ap (λ (t : Text). d ∷ t) (append-line ds rest c)

-- What recv of a line leaves in a buffer without a newline, and the buffer after the NUL.
pub overwrite-line :
    (n : ℕ) (line buf : Text)
    → Clean n buf
    → is_plain line ≡ true
    → length line < n
    → (rest : Text) × (overwrite (line ++ b'\n' ∷ []) buf ≡ line ++ b'\n' ∷ rest)
      × Clean n (line ++ 0 ∷ rest)
overwrite-line n line buf clean p short =
    let t : Text = line ++ b'\n' ∷ [] in
    let rest : Text = behind t buf in
    let long : length t ≡ length line + 1 = omega (arith, length-line line [] b'\n') in
    let fits : length t ≤ length buf = omega (arith, long, clean.size) in
    (
      rest,
      overwrite-behind t buf fits ∙ append-line line rest b'\n',
      record {
        size = omega (arith, length-line line rest 0, length-behind t buf, long, clean.size, short);
        no_newline = find_newline-cut line rest p (no_newline-behind t buf clean.no_newline);
      },
    )

pub zeros-Clean : (n : ℕ) → Clean n (zeros n)
zeros-Clean zero = record { size = refl; no_newline = refl }
zeros-Clean (suc n) =
    let rest = zeros-Clean n in
    record { size = omega (arith, rest.size); no_newline = rw rest.no_newline refl }
