-- ===== src/MyShell.antt =====
-- myShell/myshell3.c and myshell2.h: how the shell splits a line into commands, and which of its
-- functions runs them.
--
-- A text is its bytes. `strtok` writes NULs into the line and goes on after the last one; here the rest
-- of the line is passed on. The bytes of an entry of `arglist` are those that it has when the line has
-- been split. Reads or writes out of an array's bounds, through NULL, or past the end of the string
-- that `getenv` returns are `undefined`. The processes and the pipes are left out.
pub mod Lines
pub mod Ends
pub mod Words
pub mod Execute
pub mod Perform
pub mod Pipe
pub mod Directory
pub mod Main
pub mod Shells
pub mod Session
pub mod Rounds
pub mod SessionTests
pub mod Run
mod Tests
use linux_system_code.Common.{
  ℕ, zero, suc, ◌+◌, Bool, true, false, not, ◌&&◌, ◌||◌, Option, none, some, List, [], ◌∷◌, ◌++◌,
  ◌==◌, ltb, if◌then◌else◌, length,
}

abbrev pub Text : Type 0
Text = List ℕ

pub data Result (A : Type 0) : Type 0 where
  ok : A → Result A
  undefined : Result A
  out_of_fuel : Result A

infixl 5 ◌>>=◌
abbrev pub ◌>>=◌ : {A B : Type 0} → Result A → (A → Result B) → Result B
ok a >>= f = f a
undefined >>= f = undefined
out_of_fuel >>= f = out_of_fuel

-- `MAXCMD + 1`, and the size of `L`.
abbrev pub max_arglist : ℕ
max_arglist = 21

abbrev pub max_vertices : ℕ
max_vertices = 8

-- `vertex` with its `stack`: the entries of `arglist` up to `top`, without the NULL behind them.
pub record Vertex : Type 0 where
  pub sign : ℕ
  pub arglist : List Text

-- The entries of `L` before `L[i]`, and `L[i]`.
pub record Split : Type 0 where
  pub before : List Vertex
  pub current : Vertex

abbrev pub start : Split
start = record { before = []; current = record { sign = 0; arglist = [] } }

-- `strtok` with the delimiter " ": the spaces in front, then the token up to the next space or the
-- end. It tells if there was a space, and what follows it.
abbrev pub skip_spaces : Text → Text
skip_spaces [] = []
skip_spaces (c ∷ cs) = if c == b' ' then skip_spaces cs else c ∷ cs

-- What stands in `argbuf` behind the NUL that ends what `strtok` reads: no `|` at all, one behind
-- the NUL of `fgets`, or a `|` at once.
pub data Behind : Type 0 where
  no_bar : Behind
  far_bar : Behind
  next_bar : Behind

pub record Token : Type 0 where
  pub temp : Text
  pub delimited : Bool
  pub rest : Text
  pub behind : Behind

abbrev pub token : Behind → Text → Token
token b [] = record { temp = []; delimited = false; rest = []; behind = b }
token b (c ∷ cs) =
    let t = token b cs in
    if c == b' '
    then record { temp = []; delimited = true; rest = cs; behind = b }
    else record t { temp = c ∷ t.temp }

-- What stands before the first `|`.
abbrev pub before_bar : Text → Option Text
before_bar [] = none
before_bar (c ∷ cs) =
    let more = before_bar cs in
    if c == b'|' then some [] else elim more [ none ↦ none | some t ↦ some (c ∷ t) ]

abbrev pub drop_last : Text → Text
drop_last [] = []
drop_last (c ∷ []) = []
drop_last (c ∷ d ∷ cs) = c ∷ drop_last (d ∷ cs)

-- Where a place in the line is: between tokens, in one that is quoted, or in another one.
pub data Place : Type 0 where
  gap : Place
  in_quoted : Place
  in_plain : Place

-- What is left behind the quote that ends the place, when `strtok` has gone through all of it: it writes a
-- NUL over the space behind the first token, which becomes a space again if the token is quoted.
abbrev pub left_over : Behind → Place → Text → Text
left_over far_bar in_quoted [] = b' ' ∷ []
left_over b place [] = []
left_over b gap (c ∷ cs) =
    c ∷ left_over b (if c == b' ' then gap else if c == b'\'' then in_quoted else in_plain) cs
left_over b in_quoted (c ∷ cs) = c ∷ left_over b (if c == b' ' then gap else in_quoted) cs
left_over b in_plain (c ∷ cs) =
    let more = left_over b in_plain cs in if c == b' ' then [] else c ∷ more

-- A quoted token with a space behind it, lines 48 to 52, with what stands before the next `|` in what
-- `strtok` reads. The token's NUL becomes a space, and the byte before the `|` becomes NUL, which
-- may be the token's NUL again. `strtok` goes on behind the token, up to that NUL. Without a `|` in
-- `argbuf` the loop reads past it. `temp` is what the token is when the line has been split.
abbrev pub unquoted : Token → Option Text → Result Token
unquoted t (some []) = ok t
unquoted t (some (c ∷ cs)) =
    let quoted = drop_last (c ∷ cs) in
    ok (record {
      temp = t.temp ++ b' ' ∷ left_over next_bar gap quoted;
      delimited = true;
      rest = quoted;
      behind = next_bar;
    })
unquoted t none = elim t.behind [
  | no_bar ↦ undefined
  | far_bar ↦ ok (record t { temp = t.temp ++ b' ' ∷ left_over far_bar gap t.rest })
  | next_bar ↦ ok (record t { temp = t.temp ++ b' ' ∷ left_over next_bar gap t.rest })
]

-- A quoted token at the end of what `strtok` reads.
abbrev pub unquoted_last : Token → Result Token
unquoted_last t = elim t.behind [
  | no_bar ↦ undefined
  | far_bar ↦ ok (record t { temp = t.temp ++ b' ' ∷ [] })
  | next_bar ↦ ok t
]

abbrev pub starts_with : ℕ → Text → Bool
starts_with x [] = false
starts_with x (c ∷ _) = c == x

-- Lines 47 to 53.
unfoldable pub quotes : Token → Result Token
quotes t =
    if starts_with b'\'' t.temp
    then if t.delimited then unquoted t (before_bar t.rest) else unquoted_last t
    else ok t

abbrev pub is_operator : ℕ → Bool
is_operator c = (c == b'|') || (c == b'>') || (c == b'<') || (c == b'&')

-- `L[i].sign` after the comparisons with the operators; another word leaves it alone.
abbrev pub sign_of : Text → ℕ → ℕ
sign_of (a ∷ []) sign =
    if a == b'|'
    then 1
    else if a == b'>'
    then 2
    else if a == b'<'
    then 3
    else if a == b'&'
    then 5
    else sign
sign_of (a ∷ b ∷ []) sign = if (a == b'>') && (b == b'>') then 4 else sign
sign_of _ sign = sign

-- `GetPATH`: `strcat` behind the string that `getenv("HOME")` returns. It has no room for a single
-- byte more; NULL when HOME is not set.
unfoldable pub get_path : Option Text → Text → Result Text
get_path none temp = undefined
get_path (some home) [] = ok home
get_path (some home) (_ ∷ []) = ok home
get_path (some home) (_ ∷ _ ∷ _) = undefined

-- `L[i].stack.arglist[++L[i].stack.top] = temp`
unfoldable pub push : Text → Split → Result Split
push temp p =
    if ltb (length p.current.arglist) max_arglist
    then ok (record p { current = record (p.current) { arglist = p.current.arglist ++ temp ∷ [] } })
    else undefined

-- Lines 55 to 62.
unfoldable pub next_vertex : Text → Split → Result Split
next_vertex temp p =
    let ended = record (p.current) { sign = sign_of temp p.current.sign } in
    if ltb (length p.current.arglist) max_arglist && ltb (length p.before + 1) max_vertices
    then ok
        (record { before = p.before ++ ended ∷ []; current = record { sign = 0; arglist = [] } })
    else undefined

-- One token, lines 54 to 69.
unfoldable pub read_token : Option Text → Text → Split → Result Split
read_token home [] p = push [] p
read_token home (c ∷ cs) p =
    if is_operator c
    then next_vertex (c ∷ cs) p
    else if c == b'~'
    then get_path home (c ∷ cs) >>= (λ temp. push temp p)
    else push (c ∷ cs) p

-- Line 72: the entries of `L` in use.
unfoldable pub finish : Split → Result (List Vertex)
finish p =
    if ltb (length p.current.arglist) max_arglist
    then ok (p.before ++ p.current ∷ [])
    else undefined

-- The loop over the tokens, with the token that starts the line if there is one.
unfoldable pub tokens : ℕ → Option Text → Behind → Text → Split → Result (List Vertex)
tokens zero home b line p = out_of_fuel
tokens (suc fuel) home b line p = elim (skip_spaces line) [
  | [] ↦ finish p
  | c ∷ cs ↦
      quotes (token b (c ∷ cs))
      >>= (λ t. read_token home t.temp p >>= (λ p. tokens fuel home t.behind t.rest p))
]

-- A string up to its NUL.
abbrev pub c_string : Text → Text
c_string [] = []
c_string (c ∷ cs) = let more = c_string cs in if c == 0 then [] else c ∷ more

abbrev pub bar_or_none : Bool → Behind
bar_or_none true = far_bar
bar_or_none false = no_bar

-- The string without its last byte, as a rule the newline. An empty one is written to before the array.
abbrev pub split_string : Option Text → Behind → Text → Result (List Vertex)
split_string home b [] = undefined
split_string home b (c ∷ cs) = tokens (length (c ∷ cs)) home b (drop_last (c ∷ cs)) start

-- `command_split`, with the bytes that `fgets` has read; `bar_behind` says if what else is in `argbuf`,
-- behind the string, has a `|`.
unfoldable pub command_split : Option Text → (bar_behind : Bool) → Text → Result (List Vertex)
command_split home bar_behind arglist =
    split_string home (bar_or_none bar_behind) (c_string arglist)
