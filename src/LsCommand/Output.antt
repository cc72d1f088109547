-- ===== src/LsCommand/Output.antt =====
-- The output of ls_command/ls.3.c: `show_file_info`, `dostat`, `uid_to_name` and `gid_to_name`, and `main`.
--
-- The output is the text that goes to `stdout`; the messages of `perror` are left out.
use linux_system_code.Common.{
  ℕ, zero, suc, ◌+◌, ◌-◌, ◌/◌, ◌%◌, ◌^◌, Bool, true, false, ◌||◌, Option, none, some, List, [], ◌∷◌,
  ◌++◌, ltb, ◌==◌, if◌then◌else◌, length, take,
}
use linux_system_code.LsCommand.{
  Text, Stat, LsFile, Os, State, Result, ok, undefined, ◌>>=◌, memchr, number, dot, text, do_ls,
}
use linux_system_code.LsCommand.Sort.{sort}
use linux_system_code.LsCommand.Mode.{mode_to_letters}

-- What the C library answers: the name of a user and of a group, if there is one, and the text of a time.
pub record Library : Type 0 where
  pub getpwuid : ℕ → Option Text
  pub getgrgid : ℕ → Option Text
  pub ctime : ℕ → Text

-- `%lu`, and `%d` and `%ld` of a number that is not negative.
abbrev digits : (fuel n : ℕ) → Text
digits zero n = []
digits (suc fuel) n =
    let rest = digits fuel (n / 10) in
    if ltb n 10 then (n + b'0') ∷ [] else rest ++ (n % 10 + b'0') ∷ []

abbrev pub decimal : ℕ → Text
decimal n = digits (suc n) n

abbrev pub spaces : ℕ → Text
spaces zero = []
spaces (suc n) = b' ' ∷ spaces n

-- `%-ws` and `%ws`: at least `w` columns wide.
abbrev pub to_left : (w : ℕ) → Text → Text
to_left w t = t ++ spaces (w - length t)

abbrev pub to_right : (w : ℕ) → Text → Text
to_right w t = spaces (w - length t) ++ t

-- `%d` of an unsigned 32-bit number: from 2^31 on it is the negative number with the same bits.
abbrev pub signed : ℕ → Text
signed n =
    let low = n % 2 ^ 32 in if ltb low (2 ^ 31) then decimal low else b'-' ∷ decimal (2 ^ 32 - low)

abbrev pub name_or_number : ℕ → Option Text → Text
name_or_number n none = signed n
name_or_number n (some name) = name

abbrev pub uid_to_name : Library → ℕ → Text
uid_to_name c uid = name_or_number uid (c.getpwuid uid)

abbrev pub gid_to_name : Library → ℕ → Text
gid_to_name c gid = name_or_number gid (c.getgrgid gid)

-- Lines 150 to 155 with this size.
abbrev pub long_text : Library → Stat → (size : ℕ) → Text
long_text c info size =
    (b' ' ∷ mode_to_letters info.st_mode)
    ++ (b' ' ∷ b' ' ∷ to_right 4 (decimal info.st_nlink))
    ++ (b' ' ∷ b' ' ∷ to_left 8 (uid_to_name c info.st_uid))
    ++ (b' ' ∷ b' ' ∷ to_left 8 (gid_to_name c info.st_gid))
    ++ (b' ' ∷ b' ' ∷ to_right 8 (decimal size))
    ++ (b' ' ∷ b' ' ∷ take 12 (c.ctime info.st_mtime))
    ++ b' ' ∷ []

-- Lines 148 to 156: the size is that of the record `count`, which may be past the array.
unfoldable pub long_part : Library → State → Stat → Result Text
long_part c s info =
    if memchr s.cnd b'l'
    then if ltb s.count number then ok (long_text c info (s.ls s.count).size) else undefined
    else ok []

abbrev pub inode_part : Text → Stat → Text
inode_part cnd info = if memchr cnd b'i' then to_left 10 (decimal info.st_ino) else []

unfoldable pub show_file_info : Library → State → (filename : Text) → Stat → Result Text
show_file_info c s filename info = do
  long ← long_part c s info
  ok (inode_part s.cnd info ++ long ++ filename ++ b'\n' ∷ [])

-- One round of the first loop of `dostat`.
unfoldable pub stat_one : Library → State → (filename : Text) → Option Stat → Result Text
stat_one c s filename none = ok []
stat_one c s filename (some info) = show_file_info c s filename info

-- The loop, with `n` rounds left.
unfoldable pub stat_loop : Os → Library → State → (n i : ℕ) → Result Text
stat_loop os c s zero i = ok []
stat_loop os c s (suc n) i = do
  line ← stat_one c s (s.ls i).filename (os.stat (s.ls i).pathname)
  rest ← stat_loop os c s n (i + 1)
  ok (line ++ rest)

-- ` %-10s `
abbrev pub column : Text → Text
column filename = (b' ' ∷ to_left 10 filename) ++ b' ' ∷ []

-- The second loop, with `n` rounds left.
unfoldable pub name_loop : (ℕ → LsFile) → (n i : ℕ) → Text
name_loop ls zero i = []
name_loop ls (suc n) i = column (ls i).filename ++ name_loop ls n (i + 1)

unfoldable pub dostat : Os → Library → State → Result Text
dostat os c s =
    if memchr s.cnd b'i' || memchr s.cnd b'l'
    then stat_loop os c s s.count 0
    else ok (name_loop s.ls s.count 0)

-- `strcat(cnd, option)`: the array has room for seven bytes and the NUL.
unfoldable pub strcat_cnd : State → Text → Result State
strcat_cnd s option =
    if ltb (length (s.cnd ++ option)) 8 then ok (record s { cnd = s.cnd ++ option }) else undefined

-- The loop of `main` over the arguments; `sign` tells whether none of them was a name.
unfoldable pub arguments :
    ℕ → Os → (args : List Text) → (sign : Bool) → State → Result (State × Bool)
arguments fuel os [] sign s = ok (s, sign)
arguments fuel os ([] ∷ args) sign s = do
  s ← do_ls fuel os (text []) s
  arguments fuel os args false s
arguments fuel os ((c ∷ cs) ∷ args) sign s =
    if c == b'-'
    then strcat_cnd s cs >>= arguments fuel os args sign
    else do_ls fuel os (text (c ∷ cs)) s >>= arguments fuel os args false

-- `main` after its loop.
unfoldable pub finish : ℕ → Os → Library → (sign : Bool) → State → Result Text
finish fuel os c sign s = do
  s ← if sign then do_ls fuel os (text dot) s else ok s
  dostat os c (sort s)

abbrev pub ended : ℕ → Os → Library → State × Bool → Result Text
ended fuel os c (s, sign) = finish fuel os c sign s

-- The variables as the program starts.
abbrev pub at_start : State
at_start = record {
  ls = λ k. record { filename = []; pathname = []; size = 0; time = 0 };
  count = 0;
  cnd = [];
}

unfoldable pub main : ℕ → Os → Library → (args : List Text) → Result Text
main fuel os c args = arguments fuel os args true at_start >>= ended fuel os c
