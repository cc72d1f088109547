-- ===== src/LsCommand/Printed.antt =====
-- What the program of ls_command/ls.3.c prints for the working directory.
use linux_system_code.Common.{
  ℕ, suc, ◌+◌, ◌-◌, ◌≡◌, ◌<◌, refl, ap, ◌∙◌, true, false, Option, none, some, List, [], ◌∷◌, ◌++◌,
  ltb, length, arith,
}
use linux_system_code.LsCommand.{
  Text, Stat, LsFile, Os, State, ok, memchr, number, dot, slash, text, do_ls,
}
use linux_system_code.LsCommand.Listing.{Room, Listed, do_ls-lists}
use linux_system_code.LsCommand.Sort.{sort}
use linux_system_code.LsCommand.Sort.Reverse.{sort-mirror}
use linux_system_code.LsCommand.Output.{
  Library, long_text, long_part, show_file_info, stat_one, stat_loop, dostat, strcat_cnd, arguments,
  finish, at_start, main,
}
use linux_system_code.LsCommand.Names.{
  Named, Listed-Named, reverse, length-reverse, Named-reverse, columns, name_loop-columns,
}

finish-sorted :
    (fuel : ℕ) (os : Os) (c : Library) (s t : State)
    → do_ls fuel os (text dot) s ≡ ok t
    → finish fuel os c true s ≡ dostat os c (sort t)
unfolding finish
finish-sorted fuel os c s t e = rw e refl

sort-same : (s : State) → memchr s.cnd b's' ≡ false → memchr s.cnd b'r' ≡ false → sort s ≡ s
unfolding sort
sort-same s a b = rw (a, b) refl

sort-kept : (s : State) → ((sort s).count ≡ s.count) × ((sort s).cnd ≡ s.cnd)
unfolding sort
sort-kept s = ground arith

dostat-columns :
    (os : Os) (c : Library) (s : State) (files : List Text)
    → memchr s.cnd b'i' ≡ false
    → memchr s.cnd b'l' ≡ false
    → s.count ≡ length files
    → Named s.ls 0 files
    → dostat os c s ≡ ok (columns files)
unfolding dostat
dostat-columns os c s files i l e n = rw (i, l, e, name_loop-columns files 0 s.ls n) refl

abbrev with_option : Text → State
with_option option = record at_start { cnd = option }

main-finish :
    (fuel : ℕ) (os : Os) (c : Library) (option : Text)
    → length option < 8
    → main fuel os c ((b'-' ∷ option) ∷ []) ≡ finish fuel os c true (with_option option)
unfolding main arguments strcat_cnd
main-finish fuel os c option h =
    let room : ltb (length option) 8 ≡ true = ground arith in rw room refl

-- Without arguments, when the working directory can be opened and there is room for its names, the program
-- prints the names in the order in which readdir gives them, each in a column of ten or more and
-- between two spaces.
pub main-plain :
    (fuel : ℕ) (os : Os) (c : Library) (files : List Text)
    → os.opendir dot ≡ some files
    → Room dot 0 files
    → main (suc fuel) os c [] ≡ ok (columns files)
unfolding main arguments
main-plain fuel os c files opened room =
    let (t, ran, count, listed, _, cnd) = do_ls-lists fuel os dot files at_start opened refl room in
    finish-sorted (suc fuel) os c at_start t ran
    ∙ ap (dostat os c) (sort-same t (rw cnd refl) (rw cnd refl))
    ∙ dostat-columns os c t files (rw cnd refl) (rw cnd refl) (omega (arith, count))
        (Listed-Named os dot files 0 t.ls listed)

-- With the option r alone, when the working directory can be opened and there is room for its names, the
-- program prints the names in the reverse of the order in which readdir gives them, in columns.
pub main-reverse :
    (fuel : ℕ) (os : Os) (c : Library) (files : List Text)
    → os.opendir dot ≡ some files
    → Room dot 0 files
    → main (suc fuel) os c ((b'-' ∷ b'r' ∷ []) ∷ []) ≡ ok (columns (reverse files))
main-reverse fuel os c files opened room =
    let s = with_option (b'r' ∷ []) in
    let (t, ran, count, listed, _, cnd) = do_ls-lists fuel os dot files s opened refl room in
    let (count', cnd') = sort-kept t in
    let turned : (k : ℕ) → k < length files → (sort t).ls k ≡ t.ls (0 + length files - 1 - k) =
      λ k h.
        sort-mirror t (rw cnd refl) (rw cnd refl) k (omega (arith, count))
        ∙ ap t.ls (omega (arith, count)) in
    main-finish (suc fuel) os c (b'r' ∷ []) (omega arith)
    ∙ finish-sorted (suc fuel) os c s t ran
    ∙ dostat-columns os c (sort t) (reverse files) (rw (cnd', cnd) refl) (rw (cnd', cnd) refl)
        (omega (arith, count, count', length-reverse files))
        (Named-reverse files 0 t.ls (sort t).ls (Listed-Named os dot files 0 t.ls listed) turned)

-- The line of a file, if stat finds it.
abbrev pub long_line : Library → (size : ℕ) → (file : Text) → Option Stat → Text
long_line c size file none = []
long_line c size file (some info) = long_text c info size ++ file ++ b'\n' ∷ []

abbrev pub long_lines : Os → Library → (dir : Text) → (size : ℕ) → List Text → Text
long_lines os c dir size [] = []
long_lines os c dir size (file ∷ files) =
    long_line c size file (os.stat (slash dir file)) ++ long_lines os c dir size files

module _ (os : Os) (c : Library) (s : State) (no_i : memchr s.cnd b'i' ≡ false)
    (l : memchr s.cnd b'l' ≡ true) (room : s.count < number) where
  stat_one-line :
      (file : Text) (o : Option Stat)
      → stat_one c s file o ≡ ok (long_line c (s.ls s.count).size file o)
  unfolding stat_one show_file_info long_part
  stat_one-line file none = refl
  stat_one-line file (some info) =
      let in_array : ltb s.count number ≡ true = ground arith in rw (l, in_array, no_i) refl

  stat_loop-lines :
      (dir : Text) (files : List Text) (i : ℕ)
      → Listed os dir files i s.ls
      → stat_loop os c s (length files) i ≡ ok (long_lines os c dir (s.ls s.count).size files)
  unfolding stat_loop
  stat_loop-lines dir [] i listed = refl
  stat_loop-lines dir (file ∷ files) i (name, path, _, listed) =
      rw
        (
          name,
          path,
          stat_one-line file (os.stat (slash dir file)),
          stat_loop-lines dir files (i + 1) listed,
        )
        refl

  dostat-lines :
      (files : List Text)
      → s.count ≡ length files
      → Listed os dot files 0 s.ls
      → dostat os c s ≡ ok (long_lines os c dot (s.ls s.count).size files)
  unfolding dostat
  dostat-lines files e listed =
      rw (no_i, l) (ap (λ n. stat_loop os c s n 0) e ∙ stat_loop-lines dot files 0 listed)

Listed-last :
    (os : Os) (dir : Text) (files : List Text) (last : Text) (info : Stat) (i : ℕ) (ls : ℕ → LsFile)
    → Listed os dir (files ++ last ∷ []) i ls
    → os.lstat (slash dir last) ≡ some info
    → (ls (i + length (files ++ last ∷ []))).size ≡ info.st_size
Listed-last os dir [] last info i ls l e = l.2 info e
Listed-last os dir (file ∷ files) last info i ls l e =
    ap (λ k. (ls k).size) (omega arith) ∙ Listed-last os dir files last info (i + 1) ls l.3 e

Room-count :
    (dir : Text) (files : List Text) (last : Text) (i : ℕ)
    → Room dir i (files ++ last ∷ [])
    → i + length (files ++ last ∷ []) < number
Room-count dir [] last i r = omega (arith, r.0)
Room-count dir (file ∷ files) last i r = omega (arith, Room-count dir files last (i + 1) r.3)

-- With the option l alone, when the working directory can be opened and there is room for its names, the
-- program prints a line for each name that stat finds, in the order of readdir; but the size on
-- every line is that of the last name, when lstat finds that one.
pub main-long :
    (fuel : ℕ) (os : Os) (c : Library) (files : List Text) (last : Text) (info : Stat)
    → os.opendir dot ≡ some (files ++ last ∷ [])
    → Room dot 0 (files ++ last ∷ [])
    → os.lstat (slash dot last) ≡ some info
    → main (suc fuel) os c ((b'-' ∷ b'l' ∷ []) ∷ [])
      ≡ ok (long_lines os c dot info.st_size (files ++ last ∷ []))
main-long fuel os c files last info opened room found =
    let s = with_option (b'l' ∷ []) in
    let (t, ran, count, listed, _, cnd) =
      do_ls-lists fuel os dot (files ++ last ∷ []) s opened refl room in
    let size : (t.ls t.count).size ≡ info.st_size =
      ap (λ k. (t.ls k).size) count ∙ Listed-last os dot files last info 0 t.ls listed found in
    let lines =
      dostat-lines os c t (rw cnd refl) (rw cnd refl)
        (omega (arith, count, Room-count dot files last 0 room)) (files ++ last ∷ [])
        (omega (arith, count)) listed in
    main-finish (suc fuel) os c (b'l' ∷ []) (omega arith)
    ∙ finish-sorted (suc fuel) os c s t ran
    ∙ ap (dostat os c) (sort-same t (rw cnd refl) (rw cnd refl))
    ∙ lines
    ∙ ap (λ n. ok (long_lines os c dot n (files ++ last ∷ []))) size
