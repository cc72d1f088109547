-- ===== src/LsCommand.antt =====
-- ls_command/ls.h and ls.3.c: the records of the files, the walk over directories, and the output.
-- `Sort` has the sorting, `Mode` the mode letters.
--
-- A text is the list of its bytes. The operating system is a parameter, `Os`. `ls` is the global
-- array of `number` records, `count` the number in use; a write past the end, a text longer than its
-- array and a `sprintf` whose source is its target are undefined behaviour.
pub mod Sort
pub mod Mode
pub mod Records
pub mod Depth
pub mod Recursion
pub mod Listing
pub mod Output
pub mod Names
pub mod Printed
mod Tests
use linux_system_code.Common.{
  ℕ, zero, suc, ◌+◌, ◌/◌, ◌%◌, Bool, true, false, not, ◌&&◌, ◌||◌, Option, none, some, List, [],
  ◌∷◌, ◌++◌, ltb, leb, ◌==◌, if◌then◌else◌, length,
}

abbrev pub Text : Type 0
Text = List ℕ

abbrev pub number : ℕ
number = 1024

abbrev pub max_length : ℕ
max_length = 1024

pub record LsFile : Type 0 where
  pub filename : Text
  pub pathname : Text
  pub size : ℕ
  pub time : ℕ

-- The fields of `struct stat` that are read.
pub record Stat : Type 0 where
  pub st_mode : ℕ
  pub st_size : ℕ
  pub st_mtime : ℕ
  pub st_ino : ℕ
  pub st_nlink : ℕ
  pub st_uid : ℕ
  pub st_gid : ℕ

-- What the kernel and the C library answer: the names that `readdir` gives in turn, and the two
-- `stat` calls; `none` is a failed call.
pub record Os : Type 0 where
  pub opendir : Text → Option (List Text)
  pub lstat : Text → Option Stat
  pub stat : Text → Option Stat

pub record State : Type 0 where
  pub ls : ℕ → LsFile
  pub count : ℕ
  pub cnd : Text

pub data Result (A : Type 0) : Type 0 where
  ok : A → Result A
  undefined : Result A  -- undefined behaviour
  out_of_fuel : Result A

infixl 5 ◌>>=◌
abbrev pub ◌>>=◌ : {A B : Type 0} → Result A → (A → Result B) → Result B
ok a >>= f = f a
undefined >>= f = undefined
out_of_fuel >>= f = out_of_fuel

-- `memchr(cnd, c, 7) != NULL`. `strcat_cnd` keeps `cnd` within 7 bytes and a NUL.
abbrev pub memchr : Text → ℕ → Bool
memchr [] c = false
memchr (x ∷ xs) c = (x == c) || memchr xs c

abbrev pub set_file : (ℕ → LsFile) → ℕ → LsFile → ℕ → LsFile
set_file f i v j = if i == j then v else f j

-- `%s/%s`
abbrev pub slash : Text → Text → Text
slash dir file = dir ++ b'/' ∷ file

-- The argument `dirname`: a text of the caller, or the array `ls[k].pathname`.
pub data DirName : Type 0 where
  text : Text → DirName
  pathname_of : ℕ → DirName

unfoldable pub read_name : State → DirName → Text
read_name s (text d) = d
read_name s (pathname_of k) = (s.ls k).pathname

-- Whether the argument is the array that `sprintf` writes.
abbrev pub overlaps : DirName → ℕ → Bool
overlaps (text d) count = false
overlaps (pathname_of k) count = k == count

-- `sprintf(ls[count].pathname, "%s/%s", dirname, file)`
unfoldable pub print_pathname : State → DirName → Text → Result State
unfolding read_name
print_pathname s dir file =
    let path = slash (read_name s dir) file in
    let new = record s { ls = set_file s.ls s.count (record (s.ls s.count) { pathname = path }) } in
    if ltb s.count number && ltb (length path) max_length && not (overlaps dir s.count)
    then ok new
    else undefined

-- `sprintf(ls[count++].filename, "%s", file)`
unfoldable pub print_filename : State → Text → Result State
print_filename s file =
    let new = record s {
      ls = set_file s.ls s.count (record (s.ls s.count) { filename = file });
      count = s.count + 1;
    } in
    if ltb s.count number && ltb (length file) max_length then ok new else undefined

abbrev pub text_eq : Text → Text → Bool
text_eq [] [] = true
text_eq [] (_ ∷ _) = false
text_eq (_ ∷ _) [] = false
text_eq (x ∷ xs) (y ∷ ys) = (x == y) && text_eq xs ys

abbrev pub dot : Text
dot = b'.' ∷ []

abbrev pub dot_dot : Text
dot_dot = b'.' ∷ b'.' ∷ []

-- The bits of `st_mode` that give the type of a file; a directory has 4 there.
abbrev pub is_dir : ℕ → Bool
is_dir mode = mode / 4096 % 16 == 4

abbrev pub Nested : Type 0
Nested = DirName → State → Result State

-- `ls_R` from the answer of `lstat` on, where `nested` is `do_ls`.
unfoldable pub with_stat : Nested → State → Option Stat → Result State
with_stat nested s none = ok s
with_stat nested s (some info) =
    let s' = record s {
      ls =
          set_file s.ls s.count
            (record (s.ls s.count) { size = info.st_size; time = info.st_mtime });
    } in
    let name = (s'.ls s.count).filename in
    if memchr s.cnd b'R' && is_dir info.st_mode
    then if text_eq name dot || text_eq name dot_dot then ok s' else nested (pathname_of s.count) s'
    else ok s'

unfoldable pub ls_R : Os → Nested → Text → DirName → State → Result State
ls_R os nested file dir s = do
  s ← print_pathname s dir file
  with_stat nested s (os.lstat (s.ls s.count).pathname)

-- One entry of a directory, in the branch of the test `(memchr(cnd, 'a', 7)) == NULL && …`.
unfoldable pub visible_entry : Os → Nested → DirName → Text → State → Result State
visible_entry os nested dir name s = do
  s ← print_pathname s dir name
  s ← print_filename s name
  ls_R os nested name dir s

-- The same in the other branch, whose text is that of the first.
unfoldable pub other_entry : Os → Nested → DirName → Text → State → Result State
other_entry os nested dir name s = do
  s ← print_pathname s dir name
  s ← print_filename s name
  ls_R os nested name dir s

abbrev pub starts_with_dot : Text → Bool
starts_with_dot [] = false
starts_with_dot (c ∷ _) = c == b'.'

unfoldable pub each_entry : Os → Nested → DirName → List Text → State → Result State
each_entry os nested dir [] s = ok s
each_entry os nested dir (name ∷ names) s = do
  s ←
      if not (memchr s.cnd b'a') && not (starts_with_dot name)
      then visible_entry os nested dir name s
      else other_entry os nested dir name s
  each_entry os nested dir names s

-- `do_ls` from the answer of `opendir` on.
unfoldable pub in_directory : Os → Nested → DirName → State → Option (List Text) → Result State
in_directory os nested dir s none = ok s
in_directory os nested dir s (some names) = each_entry os nested dir names s

-- `do_ls`; the fuel bounds the depth of the recursion through `ls_R`.
unfoldable pub do_ls : ℕ → Os → DirName → State → Result State
do_ls zero os dir s = out_of_fuel
do_ls (suc fuel) os dir s = in_directory os (do_ls fuel os) dir s (os.opendir (read_name s dir))
