-- ===== src/LsCommand/Listing.antt =====
-- What `do_ls` of ls_command/ls.3.c records of a directory, without the option R.
use linux_system_code.Common.{
  ℕ, suc, ◌+◌, ◌<◌, ◌≡◌, ◌≢◌, refl, ap, ◌∙◌, true, false, not, ◌&&◌, Option, none, some, List, [],
  ◌∷◌, ltb, length, arith,
}
use linux_system_code.LsCommand.{
  Text, State, Stat, Os, LsFile, ok, memchr, set_file, slash, text, overlaps, read_name,
  print_pathname, print_filename, number, max_length, Nested, in_directory, with_stat, ls_R,
  visible_entry, each_entry, do_ls,
}
use linux_system_code.LsCommand.Records.{printed, named, one_branch}

-- Each name fits into its array, the path too, and there are records for all of them and one more,
-- from record `c` on.
abbrev pub Room : Text → ℕ → List Text → Type 0
Room dir c [] = Unit
Room dir c (name ∷ names) =
    (c + 1 < number)
    × (length name < max_length)
    × (length (slash dir name) < max_length)
    × Room dir (c + 1) names

-- From record `c` on there stand the names in turn, each with its path; what `lstat` says of a name
-- stands in the record after its own.
abbrev pub Listed : Os → Text → List Text → ℕ → (ℕ → LsFile) → Type 0
Listed os dir [] c ls = Unit
Listed os dir (name ∷ names) c ls =
    ((ls c).filename ≡ name)
    × ((ls c).pathname ≡ slash dir name)
    × ((info : Stat) → os.lstat (slash dir name) ≡ some info → (ls (c + 1)).size ≡ info.st_size)
    × Listed os dir names (c + 1) ls

-- The state after one entry.
abbrev with_info : (ℕ → LsFile) → ℕ → Option Stat → ℕ → LsFile
with_info ls c none = ls
with_info ls c (some info) =
    set_file ls c (record (ls c) { size = info.st_size; time = info.st_mtime })

abbrev stored_or : State → Option Stat → State
stored_or s o = record s { ls = with_info s.ls s.count o }

abbrev third : Text → Text → State → State
third dir name s = printed (named (printed s (slash dir name)) name) (slash dir name)

abbrev entered : Os → Text → Text → State → State
entered os dir name s = stored_or (third dir name s) (os.lstat (slash dir name))

print_pathname_ok :
    (s : State) (dir name : Text)
    → s.count < number
    → length (slash dir name) < max_length
    → print_pathname s (text dir) name ≡ ok (printed s (slash dir name))
unfolding print_pathname read_name
print_pathname_ok s dir name room short =
    let fits : (ltb s.count number
          && ltb (length (slash dir name)) max_length
          && not (overlaps (text dir) s.count))
        ≡ true =
      ground arith in
    rw fits refl

print_filename_ok :
    (s : State) (name : Text)
    → s.count < number
    → length name < max_length
    → print_filename s name ≡ ok (named s name)
unfolding print_filename
print_filename_ok s name room short =
    let fits : (ltb s.count number && ltb (length name) max_length) ≡ true = ground arith in
    rw fits refl

with_stat_plain :
    (nested : Nested) (s : State) (o : Option Stat)
    → memchr s.cnd b'R' ≡ false
    → with_stat nested s o ≡ ok (stored_or s o)
unfolding with_stat
with_stat_plain nested s none r = refl
with_stat_plain nested s (some info) r = rw r refl

module _ (os : Os) (dir name : Text) (s : State) where
  third_path : ((third dir name s).ls (s.count + 1)).pathname ≡ slash dir name
  third_path = ground arith

  entry_ok :
      (nested : Nested)
      → memchr s.cnd b'R' ≡ false
      → s.count + 1 < number
      → length name < max_length
      → length (slash dir name) < max_length
      → visible_entry os nested (text dir) name s ≡ ok (entered os dir name s)
  unfolding visible_entry ls_R
  entry_ok nested no_r room short path =
      rw
        (
          print_pathname_ok s dir name (omega arith) path,
          print_filename_ok (printed s (slash dir name)) name (omega arith) short,
          print_pathname_ok (named (printed s (slash dir name)) name) dir name room path,
          third_path,
          with_stat_plain nested (third dir name s) (os.lstat (slash dir name)) no_r,
        )
        refl

  -- What one entry writes, whatever `lstat` answers.
  with_info_other :
      (ls : ℕ → LsFile) (c k : ℕ) (o : Option Stat) → c ≢ k → with_info ls c o k ≡ ls k
  with_info_other ls c k none ne = refl
  with_info_other ls c k (some info) ne = ground arith

  entered_other : (k : ℕ) → s.count ≢ k → s.count + 1 ≢ k → (entered os dir name s).ls k ≡ s.ls k
  entered_other k ne ne' =
      with_info_other _ (s.count + 1) k (os.lstat (slash dir name)) ne' ∙ ground arith

  entered_own :
      (entered os dir name s).ls s.count
      ≡ record (s.ls s.count) { filename = name; pathname = slash dir name }
  entered_own =
      with_info_other _ (s.count + 1) s.count (os.lstat (slash dir name)) (omega arith)
      ∙ ground arith

  entered_next :
      (info : Stat)
      → os.lstat (slash dir name) ≡ some info
      → ((entered os dir name s).ls (s.count + 1)).size ≡ info.st_size
  entered_next info e = rw e (ground arith)

abbrev Lists : Os → Nested → Text → List Text → State → State → Type 0
Lists os nested dir names s t =
    (each_entry os nested (text dir) names s ≡ ok t)
    × (t.count ≡ s.count + length names)
    × Listed os dir names s.count t.ls
    × ((k : ℕ) → k < s.count → t.ls k ≡ s.ls k)
    × ((t.ls s.count).size ≡ (s.ls s.count).size)
    × (t.cnd ≡ s.cnd)

each_entry-Lists :
    (os : Os) (nested : Nested) (dir : Text) (names : List Text) (s : State)
    → memchr s.cnd b'R' ≡ false
    → Room dir s.count names
    → (t : State) × Lists os nested dir names s t
unfolding each_entry
each_entry-Lists os nested dir [] s r room = (s, (refl, omega arith, tt, λ k h. refl, refl, refl))
each_entry-Lists os nested dir (name ∷ names) s r room =
    let s' = entered os dir name s in
    let (t, (runs, count, listed, before, next, cnd)) =
      each_entry-Lists os nested dir names s' r room.3 in
    let own = before s.count (omega arith) ∙ entered_own os dir name s in
    (
      t,
      (
        rw
            (
              one_branch os nested (text dir) _ name s,
              entry_ok os dir name s nested r room.0 room.1 room.2,
            )
            runs,
        omega (arith, count),
        (
          ap (λ (f : LsFile). f.filename) own,
          ap (λ (f : LsFile). f.pathname) own,
          λ info e. next ∙ entered_next os dir name s info e,
          listed,
        ),
        λ k h. before k (omega arith) ∙ entered_other os dir name s k (omega arith) (omega arith),
        ap (λ (f : LsFile). f.size) own,
        cnd,
      ),
    )

-- Without the option R, and with room in the arrays, do_ls of a directory that can be opened records
-- every name that readdir gives, hidden ones too and whether or not the option a is given, each with
-- its path; but the size that lstat gives for a name is stored in the record after that name's. The
-- records before and the options are left alone.
pub do_ls-lists :
    (fuel : ℕ) (os : Os) (dir : Text) (names : List Text) (s : State)
    → os.opendir dir ≡ some names
    → memchr s.cnd b'R' ≡ false
    → Room dir s.count names
    → (t : State) × (do_ls (suc fuel) os (text dir) s ≡ ok t)
      × (t.count ≡ s.count + length names)
      × Listed os dir names s.count t.ls
      × ((k : ℕ) → k < s.count → t.ls k ≡ s.ls k)
      × (t.cnd ≡ s.cnd)
unfolding do_ls in_directory read_name
do_ls-lists fuel os dir names s opened r room =
    let (t, (runs, count, listed, before, _, cnd)) =
      each_entry-Lists os (do_ls fuel os) dir names s r room in
    (t, rw opened runs, count, listed, before, cnd)
