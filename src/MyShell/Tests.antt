-- ===== src/MyShell/Tests.antt =====
-- Lines given to the shell of myShell/myshell3.c.
use linux_system_code.Common.{ℕ, ◌≡◌, refl, true, false, none, some, [], ◌∷◌, ◌++◌, arith}
use linux_system_code.MyShell.{
  Text, start, ok, undefined, quotes, get_path, push, read_token, finish, tokens, command_split,
}
use linux_system_code.MyShell.Lines.{read_words, command_split-words}
use linux_system_code.MyShell.Words.{command_split-print}
use linux_system_code.MyShell.Run.{command_split-overflow}

abbrev newline : ℕ
newline = 10

abbrev ls : Text
ls = b'l' ∷ b's' ∷ []

abbrev wc : Text
wc = b'w' ∷ b'c' ∷ []

-- Of the line `'a b |wc` only the quoted word and its parts are left: the pipe is lost.
abbrev quoted : Text
quoted = b'\'' ∷ b'a' ∷ b' ' ∷ b'b' ∷ b' ' ∷ b'|' ∷ wc

quoted_splits :
    command_split none false (quoted ++ newline ∷ [])
    ≡ ok (record { sign = 0; arglist = (b'\'' ∷ b'a' ∷ b' ' ∷ b'b' ∷ []) ∷ (b'b' ∷ []) ∷ [] } ∷ [])
unfolding command_split tokens quotes read_token push finish
quoted_splits = refl

-- In `'a 'b |wc` the second quoted word finds the same `|`.
abbrev quoted_twice : Text
quoted_twice = b'\'' ∷ b'a' ∷ b' ' ∷ b'\'' ∷ b'b' ∷ b' ' ∷ b'|' ∷ wc

abbrev quoted_b : Text
quoted_b = b'\'' ∷ b'b' ∷ []

quoted_twice_splits :
    command_split none false (quoted_twice ++ newline ∷ [])
    ≡ ok (record { sign = 0; arglist = (b'\'' ∷ b'a' ∷ b' ' ∷ quoted_b) ∷ quoted_b ∷ [] } ∷ [])
unfolding command_split tokens quotes read_token push finish
quoted_twice_splits = refl

-- In `'a b c |wc` strtok writes a NUL behind the b, which ends the first entry too.
abbrev quoted_three : Text
quoted_three = b'\'' ∷ b'a' ∷ b' ' ∷ b'b' ∷ b' ' ∷ b'c' ∷ b' ' ∷ b'|' ∷ wc

quoted_three_splits :
    command_split none false (quoted_three ++ newline ∷ [])
    ≡ ok (
        record {
          sign = 0;
          arglist = (b'\'' ∷ b'a' ∷ b' ' ∷ b'b' ∷ []) ∷ (b'b' ∷ []) ∷ (b'c' ∷ []) ∷ [];
        }
        ∷ [])
unfolding command_split tokens quotes read_token push finish
quoted_three_splits = refl

-- A quote in a line without `|`: the loop reads past argbuf, or takes a `|` of an earlier line.
quoted_alone :
    (command_split none false (b'\'' ∷ b'a' ∷ newline ∷ []) ≡ undefined)
    × (command_split none true (b'\'' ∷ b'a' ∷ newline ∷ [])
        ≡ ok (record { sign = 0; arglist = (b'\'' ∷ b'a' ∷ b' ' ∷ []) ∷ [] } ∷ []))
unfolding command_split tokens quotes read_token push finish
quoted_alone = (refl, refl)

-- A line that begins with NUL: the byte before the array is written.
nul_first : command_split none false (0 ∷ b' ' ∷ newline ∷ []) ≡ undefined
unfolding command_split
nul_first = refl

-- `~` alone is the home directory; with a path behind it the environment is written over.
home_splits :
    command_split (some ls) false (b'~' ∷ newline ∷ [])
    ≡ ok (record { sign = 0; arglist = ls ∷ [] } ∷ [])
unfolding command_split tokens quotes read_token get_path push finish
home_splits = refl

home_overflows : command_split (some ls) false (b'~' ∷ b'/' ∷ newline ∷ []) ≡ undefined
unfolding command_split tokens quotes read_token get_path
home_overflows = refl

-- ls  | wc
abbrev ls_wc : Text
ls_wc = ls ++ b' ' ∷ b' ' ∷ b'|' ∷ b' ' ∷ wc

command_split-print_example :
    command_split none false (ls_wc ++ b'\n' ∷ [])
    ≡ ok (record { sign = 1; arglist = ls ∷ [] } ∷ record { sign = 0; arglist = wc ∷ [] } ∷ [])
command_split-print_example =
    command_split-print none false ls_wc (record { sign = 1; arglist = ls ∷ [] } ∷ []) (wc ∷ [])
      refl refl refl refl (omega arith) (omega arith)

-- The words are ls, | and wc, wherever the spaces stand.
command_split-words_example :
    command_split none false (ls_wc ++ b'\n' ∷ [])
    ≡ read_words none (ls ∷ (b'|' ∷ []) ∷ wc ∷ []) start
command_split-words_example = command_split-words none false ls_wc refl refl

abbrev three : Text
three = b'a' ∷ b' ' ∷ b'b' ∷ b' ' ∷ b'c' ∷ b' ' ∷ []

abbrev many : Text
many = three ++ (three ++ (three ++ (three ++ (three ++ (three ++ three)))))

command_split-overflow_example : command_split none false (many ++ b'\n' ∷ []) ≡ undefined
command_split-overflow_example = command_split-overflow none false many refl refl (omega arith)
