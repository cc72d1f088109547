-- ===== src/LsCommand/Tests.antt =====
-- The theorems on ls_command/ls.3.c at a small directory.
use linux_system_code.Common.{
  ℕ, zero, suc, none, ◌++◌, ◌≤◌, ◌<◌, ◌≡◌, refl, true, Option, some, [], ◌∷◌, take, arith,
  if◌then◌else◌,
}
use linux_system_code.LsCommand.{
  Text, LsFile, Stat, Os, State, ok, undefined, slash, text, dot, text_eq, each_entry, do_ls,
}
use linux_system_code.LsCommand.Sort.{sort, swap, sort_inner, sort_outer}
use linux_system_code.LsCommand.Sort.Order.{sort-ordered}
use linux_system_code.LsCommand.Sort.Rearranged.{IsRearranged, sort-IsRearranged}
use linux_system_code.LsCommand.Mode.{
  mode_to_letters, put_if, fits_pattern, rwxrwxrwx, read_letters, tail, mode_to_letters-read,
}
use linux_system_code.LsCommand.Recursion.{do_ls-undefined}
use linux_system_code.LsCommand.Listing.{Listed, do_ls-lists}
use linux_system_code.LsCommand.Output.{Library, signed, decimal, column, main}
use linux_system_code.LsCommand.Printed.{long_lines, main-reverse, main-long}

abbrev no_file : LsFile
no_file = record { filename = []; pathname = []; size = 0; time = 0 }

abbrev sized : ℕ → LsFile
sized n = record { filename = b'f' ∷ []; pathname = b'f' ∷ []; size = n; time = 0 }

abbrev three : ℕ → LsFile
three zero = sized 10
three (suc zero) = sized 30
three (suc (suc zero)) = sized 20
three (suc (suc (suc k))) = no_file

abbrev state : Text → (ℕ → LsFile) → ℕ → State
state cnd ls n = record { ls = ls; count = n; cnd = cnd }

by_size : ((sort (state (b's' ∷ []) three 3)).ls 0).size ≡ 30
unfolding sort sort_outer sort_inner swap
by_size = refl

-- `.` and one file of 7 bytes with mode 0644.
abbrev stat_of : ℕ → ℕ → Stat
stat_of mode size = record {
  st_mode = mode;
  st_size = size;
  st_mtime = 5;
  st_ino = 1;
  st_nlink = 1;
  st_uid = 0;
  st_gid = 0;
}

abbrev lookup_stat : Text → Option Stat
lookup_stat path =
    if text_eq path (slash dot dot) then some (stat_of 0o40755 4096) else some (stat_of 0o100644 7)

abbrev small_os : Os
small_os = record {
  opendir = λ path. some (dot ∷ (b'a' ∷ []) ∷ []);
  lstat = lookup_stat;
  stat = lookup_stat;
}

-- `ls -l` of a plain file's mode.
letters_0644 :
    mode_to_letters 0o100644
    ≡ b'-' ∷ b'r' ∷ b'w' ∷ b'-' ∷ b'r' ∷ b'-' ∷ b'-' ∷ b'r' ∷ b'-' ∷ b'-' ∷ []
unfolding mode_to_letters put_if
letters_0644 = refl

sort-ordered_example :
    ((sort (state (b's' ∷ []) three 3)).ls 2).size ≤ ((sort (state (b's' ∷ []) three 3)).ls 0).size
sort-ordered_example = sort-ordered (state (b's' ∷ []) three 3) refl 0 2 (omega arith) (omega arith)

sort-IsRearranged_example :
    IsRearranged 3 three (sort (state (b's' ∷ []) three 3)).ls
    × ((sort (state (b's' ∷ []) three 3)).count ≡ 3)
    × ((sort (state (b's' ∷ []) three 3)).cnd ≡ b's' ∷ [])
sort-IsRearranged_example = sort-IsRearranged (state (b's' ∷ []) three 3)

mode_to_letters-read_example :
    (fits_pattern rwxrwxrwx (tail (mode_to_letters 0o40755)) ≡ true)
    × (read_letters 0 (tail (mode_to_letters 0o40755)) ≡ 0o755)
    × (take 1 (mode_to_letters 0o40755) ≡ b'd' ∷ [])
mode_to_letters-read_example = mode_to_letters-read 0o40755

do_ls-undefined_example :
    do_ls 2 small_os (text dot) (state (b'R' ∷ []) (λ _. no_file) 0) ≡ undefined
unfolding each_entry
do_ls-undefined_example =
    do_ls-undefined 0 small_os dot [] ((b'a' ∷ []) ∷ []) ((b'a' ∷ []) ∷ []) dot dot
      (state (b'R' ∷ []) (λ _. no_file) 0) (state (b'R' ∷ []) (λ _. no_file) 0)
      (stat_of 0o40755 4096) refl refl refl refl refl refl refl

do_ls-lists_example :
    (t : State) × (do_ls 1 small_os (text dot) (state [] (λ _. no_file) 0) ≡ ok t)
    × (t.count ≡ 2)
    × Listed small_os dot (dot ∷ (b'a' ∷ []) ∷ []) 0 t.ls
    × ((k : ℕ) → k < 0 → t.ls k ≡ no_file)
    × (t.cnd ≡ [])
do_ls-lists_example =
    do_ls-lists 0 small_os dot (dot ∷ (b'a' ∷ []) ∷ []) (state [] (λ _. no_file) 0) refl refl
      (omega arith)

abbrev c_library : Library
c_library = record { getpwuid = λ n. none; getgrgid = λ n. none; ctime = λ n. b't' ∷ [] }

abbrev file_a : Text
file_a = b'a' ∷ []

numbers_printed : decimal 4096 ≡ b'4' ∷ b'0' ∷ b'9' ∷ b'6' ∷ []
numbers_printed = refl

main-reverse_example :
    main 1 small_os c_library ((b'-' ∷ b'r' ∷ []) ∷ []) ≡ ok (column file_a ++ column dot)
main-reverse_example =
    main-reverse 0 small_os c_library (dot ∷ file_a ∷ []) refl
      (omega arith, omega arith, omega arith, (omega arith, omega arith, omega arith, tt))

-- The directory `.` of 4096 bytes is given the 7 bytes of `a`.
main-long_example :
    main 1 small_os c_library ((b'-' ∷ b'l' ∷ []) ∷ [])
    ≡ ok (long_lines small_os c_library dot 7 (dot ∷ file_a ∷ []))
main-long_example =
    main-long 0 small_os c_library (dot ∷ []) file_a (stat_of 0o100644 7) refl
      (omega arith, omega arith, omega arith, (omega arith, omega arith, omega arith, tt)) refl

-- The user 4294967294, who has no name, is printed as -2.
signed_printed : signed 4294967294 ≡ b'-' ∷ b'2' ∷ []
signed_printed = refl
