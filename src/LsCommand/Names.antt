-- ===== src/LsCommand/Names.antt =====
-- The names in the records of ls_command/ls.3.c, and the columns that `dostat` prints them in.
use linux_system_code.Common.{
  ℕ, ◌+◌, ◌-◌, ◌≡◌, ◌<◌, refl, ap, ◌∙◌, List, [], ◌∷◌, ◌++◌, length, length-append, arith,
}
use linux_system_code.LsCommand.{Text, LsFile, Os}
use linux_system_code.LsCommand.Listing.{Listed}
use linux_system_code.LsCommand.Output.{column, name_loop}

-- The records from `i` on have these names.
abbrev pub Named : (ℕ → LsFile) → (i : ℕ) → List Text → Type 0
Named ls i [] = Unit
Named ls i (file ∷ files) = ((ls i).filename ≡ file) × Named ls (i + 1) files

pub Listed-Named :
    (os : Os) (dir : Text) (files : List Text) (i : ℕ) (ls : ℕ → LsFile)
    → Listed os dir files i ls
    → Named ls i files
Listed-Named os dir [] i ls l = tt
Listed-Named os dir (file ∷ files) i ls l = (l.0, Listed-Named os dir files (i + 1) ls l.3)

Named-append :
    (files : List Text) (last : Text) (i : ℕ) (ls : ℕ → LsFile)
    → Named ls i files
    → (ls (i + length files)).filename ≡ last
    → Named ls i (files ++ last ∷ [])
Named-append [] last i ls n e = (ap (λ k. (ls k).filename) (omega arith) ∙ e, tt)
Named-append (file ∷ files) last i ls (own, n) e =
    (own, Named-append files last (i + 1) ls n (ap (λ k. (ls k).filename) (omega arith) ∙ e))

abbrev pub reverse : List Text → List Text
reverse [] = []
reverse (file ∷ files) = reverse files ++ file ∷ []

pub length-reverse : (files : List Text) → length (reverse files) ≡ length files
length-reverse [] = refl
length-reverse (file ∷ files) =
    length-append (reverse files) (file ∷ []) ∙ omega (arith, length-reverse files)

-- Records turned round have the names turned round.
pub Named-reverse :
    (files : List Text) (i : ℕ) (ls turned : ℕ → LsFile)
    → Named ls i files
    → ((k : ℕ) → k < length files → turned k ≡ ls (i + length files - 1 - k))
    → Named turned 0 (reverse files)
Named-reverse [] i ls turned n e = tt
Named-reverse (file ∷ files) i ls turned (own, n) e =
    let last : turned (0 + length (reverse files)) ≡ ls i =
      ap turned (omega (arith, length-reverse files))
      ∙ e (length files) (omega arith)
      ∙ ap ls (omega arith) in
    Named-append (reverse files) file 0 turned
      (Named-reverse files (i + 1) ls turned n (λ k h. e k (omega arith) ∙ ap ls (omega arith)))
      (ap (λ (f : LsFile). f.filename) last ∙ own)

-- The names in columns.
abbrev pub columns : List Text → Text
columns [] = []
columns (file ∷ files) = column file ++ columns files

pub name_loop-columns :
    (files : List Text) (i : ℕ) (ls : ℕ → LsFile)
    → Named ls i files
    → name_loop ls (length files) i ≡ columns files
unfolding name_loop
name_loop-columns [] i ls n = refl
name_loop-columns (file ∷ files) i ls (own, n) = rw (own, name_loop-columns files (i + 1) ls n) refl
