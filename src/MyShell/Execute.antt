-- ===== src/MyShell/Execute.antt =====
-- `execute` and `execute_cmd` of myShell/myshell3.c: which function runs a line.
use linux_system_code.Common.{
  Bool, true, false, ◌&&◌, ◌||◌, Option, List, [], ◌∷◌, ◌==◌, if◌then◌else◌,
}
use linux_system_code.MyShell.{Text, Result, ok, undefined, ◌>>=◌, Vertex, command_split}

-- What `execute` has done.
pub data Action : Type 0 where
  cddir : (path : Text) → Action
  exit : Action
  exe : Vertex → Action
  pipe : List Vertex → Action
  redir_r : List Vertex → Action
  redir_a : List Vertex → Action
  nothing : Action

-- `memcmp(prefix, temp, n) == 0`, with `n` the length of `prefix`.
abbrev pub memcmp_eq : Text → Text → Bool
memcmp_eq [] temp = true
memcmp_eq (c ∷ cs) [] = false
memcmp_eq (c ∷ cs) (d ∷ ds) = (c == d) && memcmp_eq cs ds

-- `execute_cddir` reads its path, which is NULL when there is no second word.
abbrev pub change_directory : List Text → Result Action
change_directory [] = undefined
change_directory (path ∷ _) = ok (cddir path)

abbrev pub execute_words : Vertex → List Text → Result Action
execute_words v [] = undefined
execute_words v (a ∷ more) =
    if memcmp_eq (b'c' ∷ b'd' ∷ []) a
    then change_directory more
    else if memcmp_eq (b'e' ∷ b'x' ∷ b'i' ∷ b't' ∷ []) a
    then ok exit
    else ok (exe v)

unfoldable pub execute_cmd : Vertex → Result Action
execute_cmd v = execute_words v v.arglist

-- `execute`, by the sign of the first entry.
unfoldable pub execute : List Vertex → Result Action
execute [] = undefined
execute (v ∷ vs) =
    if (v.sign == 0) || (v.sign == 5)
    then execute_cmd v
    else if (v.sign == 1) || (v.sign == 3)
    then ok (pipe (v ∷ vs))
    else if v.sign == 2
    then ok (redir_r (v ∷ vs))
    else if v.sign == 4
    then ok (redir_a (v ∷ vs))
    else ok nothing

-- A line of `main`'s loop.
unfoldable pub run_line : Option Text → (bar_behind : Bool) → Text → Result Action
run_line home bar argbuf = do vertices ← command_split home bar argbuf; execute vertices
