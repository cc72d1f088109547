-- ===== src/LsCommand/Mode.antt =====
-- `mode_to_letters` of ls_command/ls.3.c.
use linux_system_code.Common.{
  ℕ, zero, suc, ◌+◌, ◌*◌, ◌/◌, ◌%◌, ◌≡◌, refl, Bool, true, false, ◌||◌, ◌&&◌, [], ◌∷◌, ◌++◌, take,
  set, arith, length, ◌==◌, if◌then◌else◌, Bool-cases, inl, inr, ap,
}
use linux_system_code.LsCommand.{Text, is_dir}

-- `S_ISCHR` and `S_ISBLK`
abbrev pub is_chr : ℕ → Bool
is_chr mode = mode / 4096 % 16 == 2

abbrev pub is_blk : ℕ → Bool
is_blk mode = mode / 4096 % 16 == 6

-- `mode & flag`, for a flag that is one bit.
abbrev pub has_flag : ℕ → ℕ → Bool
has_flag mode flag = mode / flag % 2 == 1

-- `if (test) str[i] = c;`
unfoldable pub put_if : Bool → ℕ → ℕ → Text → Text
put_if test i c str = if test then set str i c else str

unfoldable pub mode_to_letters : ℕ → Text
mode_to_letters mode =
    let str = b'-' ∷ b'-' ∷ b'-' ∷ b'-' ∷ b'-' ∷ b'-' ∷ b'-' ∷ b'-' ∷ b'-' ∷ b'-' ∷ [] in
    let str = put_if (is_dir mode) 0 b'd' str in
    let str = put_if (is_chr mode) 0 b'c' str in
    let str = put_if (is_blk mode) 0 b'b' str in
    let str = put_if (has_flag mode 0o400) 1 b'r' str in
    let str = put_if (has_flag mode 0o200) 2 b'w' str in
    let str = put_if (has_flag mode 0o100) 3 b'x' str in
    let str = put_if (has_flag mode 0o40) 4 b'r' str in
    let str = put_if (has_flag mode 0o20) 5 b'w' str in
    let str = put_if (has_flag mode 0o10) 6 b'x' str in
    let str = put_if (has_flag mode 0o4) 7 b'r' str in
    let str = put_if (has_flag mode 0o2) 8 b'w' str in put_if (has_flag mode 0o1) 9 b'x' str

-- The letter of a kind, and of a permission.
abbrev pub kind_letter : ℕ → ℕ
kind_letter mode =
    if is_blk mode then b'b' else if is_chr mode then b'c' else if is_dir mode then b'd' else b'-'

abbrev letter : ℕ → ℕ → ℕ → ℕ
letter mode flag c = if has_flag mode flag then c else b'-'

abbrev dashes : ℕ → Text
dashes zero = []
dashes (suc n) = b'-' ∷ dashes n

abbrev letters_of : ℕ → Text
letters_of mode =
    kind_letter mode
    ∷ letter mode 0o400 b'r'
    ∷ letter mode 0o200 b'w'
    ∷ letter mode 0o100 b'x'
    ∷ letter mode 0o40 b'r'
    ∷ letter mode 0o20 b'w'
    ∷ letter mode 0o10 b'x'
    ∷ letter mode 0o4 b'r'
    ∷ letter mode 0o2 b'w'
    ∷ letter mode 0o1 b'x'
    ∷ []

-- A write behind the letters `xs`.
put_at :
    (b : Bool) (xs : Text) (c x : ℕ) (ys : Text)
    → put_if b (length xs) c (xs ++ x ∷ ys) ≡ xs ++ (if b then c else x) ∷ ys
unfolding put_if
put_at true [] c x ys = refl
put_at false [] c x ys = refl
put_at true (y ∷ xs) c x ys = ap (λ (t : Text). y ∷ t) (put_at true xs c x ys)
put_at false (y ∷ xs) c x ys = refl

letters : (mode : ℕ) → mode_to_letters mode ≡ letters_of mode
unfolding mode_to_letters
letters mode = rw (
  put_at (is_dir mode) [] b'd' b'-' (dashes 9),
  put_at (is_chr mode) [] b'c' (if is_dir mode then b'd' else b'-') (dashes 9),
  put_at (is_blk mode) [] b'b' (if is_chr mode then b'c' else if is_dir mode then b'd' else b'-')
      (dashes 9),
  put_at (has_flag mode 0o400) (take 1 (letters_of mode)) b'r' b'-' (dashes 8),
  put_at (has_flag mode 0o200) (take 2 (letters_of mode)) b'w' b'-' (dashes 7),
  put_at (has_flag mode 0o100) (take 3 (letters_of mode)) b'x' b'-' (dashes 6),
  put_at (has_flag mode 0o40) (take 4 (letters_of mode)) b'r' b'-' (dashes 5),
  put_at (has_flag mode 0o20) (take 5 (letters_of mode)) b'w' b'-' (dashes 4),
  put_at (has_flag mode 0o10) (take 6 (letters_of mode)) b'x' b'-' (dashes 3),
  put_at (has_flag mode 0o4) (take 7 (letters_of mode)) b'r' b'-' (dashes 2),
  put_at (has_flag mode 0o2) (take 8 (letters_of mode)) b'w' b'-' (dashes 1),
  put_at (has_flag mode 0o1) (take 9 (letters_of mode)) b'x' b'-' (dashes 0),
)

-- Reads nine letters back, from the highest bit on.
abbrev pub read_letters : ℕ → Text → ℕ
read_letters acc [] = acc
read_letters acc (c ∷ cs) = read_letters (acc * 2 + (if c == b'-' then 0 else 1)) cs

abbrev pub tail : Text → Text
tail [] = []
tail (c ∷ cs) = cs

bit_of :
    (mode flag c : ℕ)
    → (c == b'-') ≡ false
    → (if letter mode flag c == b'-' then 0 else 1) ≡ mode / flag % 2
bit_of mode flag c e = elim (Bool-cases (has_flag mode flag)) [
  | inl on ↦ rw (on, e) (ground arith)
  | inr off ↦ rw off (ground arith)
]

bits : (mode : ℕ) → read_letters 0 (tail (letters_of mode)) ≡ mode % 512
bits mode =
    rw
      (
        bit_of mode 0o400 b'r' refl,
        bit_of mode 0o200 b'w' refl,
        bit_of mode 0o100 b'x' refl,
        bit_of mode 0o40 b'r' refl,
        bit_of mode 0o20 b'w' refl,
        bit_of mode 0o10 b'x' refl,
        bit_of mode 0o4 b'r' refl,
        bit_of mode 0o2 b'w' refl,
        bit_of mode 0o1 b'x' refl,
      )
      (omega arith)

-- Each letter is a dash or the one that the pattern has there.
abbrev pub fits_pattern : (pattern_text str : Text) → Bool
fits_pattern [] [] = true
fits_pattern [] (c ∷ cs) = false
fits_pattern (p ∷ ps) [] = false
fits_pattern (p ∷ ps) (c ∷ cs) = ((c == b'-') || (c == p)) && fits_pattern ps cs

abbrev pub rwxrwxrwx : Text
rwxrwxrwx = b'r' ∷ b'w' ∷ b'x' ∷ b'r' ∷ b'w' ∷ b'x' ∷ b'r' ∷ b'w' ∷ b'x' ∷ []

letter_fits :
    (mode flag c : ℕ)
    → (c == c) ≡ true
    → ((letter mode flag c == b'-') || (letter mode flag c == c)) ≡ true
letter_fits mode flag c e = elim (Bool-cases (has_flag mode flag)) [
  | inl on ↦ rw (on, e) (ground arith)
  | inr off ↦ rw off refl
]

pattern_fits : (mode : ℕ) → fits_pattern rwxrwxrwx (tail (letters_of mode)) ≡ true
pattern_fits mode = rw (
  letter_fits mode 0o400 b'r' refl,
  letter_fits mode 0o200 b'w' refl,
  letter_fits mode 0o100 b'x' refl,
  letter_fits mode 0o40 b'r' refl,
  letter_fits mode 0o20 b'w' refl,
  letter_fits mode 0o10 b'x' refl,
  letter_fits mode 0o4 b'r' refl,
  letter_fits mode 0o2 b'w' refl,
  letter_fits mode 0o1 b'x' refl,
)

-- The letters behind the first one are dashes or the letters of rwxrwxrwx in their places, and read
-- as bits they are the nine permission bits of the mode. The first letter is d for a directory, c for
-- a character device, b for a block device and a dash for every other kind.
pub mode_to_letters-read :
    (mode : ℕ)
    → (fits_pattern rwxrwxrwx (tail (mode_to_letters mode)) ≡ true)
      × (read_letters 0 (tail (mode_to_letters mode)) ≡ mode % 512)
      × (take 1 (mode_to_letters mode) ≡ kind_letter mode ∷ [])
mode_to_letters-read mode = rw (letters mode) (pattern_fits mode, bits mode, refl)
