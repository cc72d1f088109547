-- ===== src/LsCommand/Records.antt =====
-- The records of ls_command/ls.3.c as the calls of `do_ls` and `ls_R` leave them.
use linux_system_code.Common.{
  ◌+◌, ◌≡◌, refl, Bool, true, false, some, List, [], ◌∷◌, ◌++◌, ◌==◌, if◌then◌else◌, arith,
  if_cases, ◌⊎◌,
}
use linux_system_code.LsCommand.{
  Text, State, Stat, Os, Result, ok, undefined, out_of_fuel, ◌>>=◌, memchr, set_file, slash,
  DirName, text, pathname_of, print_pathname, print_filename, is_dir, Nested, with_stat,
  visible_entry, other_entry, each_entry,
}

-- In a directory named by the array that the next entry is printed to, the first entry is undefined
-- behaviour: `sprintf` would read what it writes.
pub nested_first :
    (os : Os) (nested : Nested) (name : Text) (names : List Text) (s : State)
    → each_entry os nested (pathname_of s.count) (name ∷ names) s ≡ undefined
unfolding each_entry visible_entry other_entry print_pathname
nested_first os nested name names s = ground arith

pub bind_assoc :
    {A B C : Type 0} (m : Result A) (f : A → Result C) (g : A → Result B) (h : B → Result C)
    → ((a : A) → f a ≡ (g a >>= h))
    → (m >>= f) ≡ ((m >>= g) >>= h)
bind_assoc (ok a) f g h e = e a
bind_assoc undefined f g h e = refl
bind_assoc out_of_fuel f g h e = refl

pub each_entry-append :
    (os : Os) (nested : Nested) (dir : DirName) (before after : List Text) (s : State)
    → each_entry os nested dir (before ++ after) s
      ≡ (each_entry os nested dir before s >>= each_entry os nested dir after)
unfolding each_entry
each_entry-append os nested dir [] after s = refl
each_entry-append os nested dir (name ∷ before) after s =
    bind_assoc _ _ _ _ (each_entry-append os nested dir before after)

-- The records after the two calls of `sprintf` for an entry, and after the one in `ls_R`.
abbrev pub printed : State → Text → State
printed s path = record s { ls = set_file s.ls s.count (record (s.ls s.count) { pathname = path }) }

abbrev pub named : State → Text → State
named s file = record s {
  ls = set_file s.ls s.count (record (s.ls s.count) { filename = file });
  count = s.count + 1;
}

pub print_pathname-cases :
    (s : State) (dir file : Text)
    → (print_pathname s (text dir) file ≡ ok (printed s (slash dir file)))
      ⊎ (print_pathname s (text dir) file ≡ undefined)
unfolding print_pathname
print_pathname-cases s dir file = if_cases _ _ _

pub print_filename-cases :
    (s : State) (file : Text)
    → (print_filename s file ≡ ok (named s file)) ⊎ (print_filename s file ≡ undefined)
unfolding print_filename
print_filename-cases s file = if_cases _ _ _

-- The records with the answer of `lstat`.
abbrev pub stored : State → Stat → State
stored s info = record s {
  ls = set_file s.ls s.count (record (s.ls s.count) { size = info.st_size; time = info.st_mtime });
}

pub with_stat_dir :
    (nested : Nested) (s : State) (info : Stat)
    → memchr s.cnd b'R' ≡ true
    → is_dir info.st_mode ≡ true
    → (s.ls s.count).filename ≡ []
    → with_stat nested s (some info) ≡ nested (pathname_of s.count) (stored s info)
unfolding with_stat
with_stat_dir nested s info r isdir empty =
    let same : (s.count == s.count) ≡ true = ground arith in
    let unnamed : ((stored s info).ls s.count).filename ≡ [] = rw same empty in
    rw (r, isdir, unnamed) refl

pub one_branch :
    (os : Os) (nested : Nested) (dir : DirName) (b : Bool) (name : Text) (s : State)
    → (if b then visible_entry os nested dir name s else other_entry os nested dir name s)
      ≡ visible_entry os nested dir name s
unfolding visible_entry other_entry
one_branch os nested dir true name s = refl
one_branch os nested dir false name s = refl
