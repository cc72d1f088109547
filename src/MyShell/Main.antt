-- ===== src/MyShell/Main.antt =====
-- `main` of myShell/myshell3.c: a line is split and run, and the processes that return go on with the next
-- line.
use linux_system_code.Common.{ℕ, zero, suc, Bool, Option, List, [], ◌∷◌, ◌==◌, if◌then◌else◌}
use linux_system_code.Processes.{returns, exits, undefined, out_of_fuel, ◌>>=◌}
use linux_system_code.MyShell.{Text, Vertex, Result, ok, max_vertices}
use linux_system_code.MyShell.Execute.{
  Action, cddir, exit, exe, pipe, redir_r, redir_a, nothing, run_line,
}
use linux_system_code.MyShell.Perform.{
  truncate, append, Shell, Os, Process, execute_exe, execute_redir,
}
use linux_system_code.MyShell.Pipe.{entries, execute_pipe}
use linux_system_code.MyShell.Directory.{execute_cddir}

-- The function that `execute` calls. `old` is what earlier lines have left in `L`. The loop of
-- `execute_pipe` makes at most one round for each entry in the shell itself.
unfoldable pub perform : Os → (old : ℕ → Vertex) → Shell → Action → Process
perform os old s (cddir path) = execute_cddir os path s
perform os old s exit = exits 1
perform os old s (exe v) = execute_exe os v s
perform os old s (pipe vs) = execute_pipe max_vertices os (entries vs old) s
perform os old s (redir_r vs) = execute_redir truncate os (entries vs old 0) (entries vs old 1) s
perform os old s (redir_a vs) = execute_redir append os (entries vs old 0) (entries vs old 1) s
perform os old s nothing = returns s

abbrev pub performed : Os → (old : ℕ → Vertex) → Shell → Result Action → Process
performed os old s (ok a) = perform os old s a
performed os old s Result.undefined = undefined
performed os old s Result.out_of_fuel = out_of_fuel

-- What the kernel answers while a line is run, what the line finds in `L`, and if there is a `|` in
-- `argbuf` behind the line.
pub record Round : Type 0 where
  pub os : Os
  pub old : ℕ → Vertex
  pub bar_behind : Bool

-- `LEN - 1`
abbrev pub room : ℕ
room = 99

-- `fgets` with room for `n` bytes, and what it leaves: the bytes up to the newline. The first text is
-- empty at the end of the input, where it returns NULL.
unfoldable pub fgets : ℕ → Text → Text × Text
fgets zero stdin = ([], stdin)
fgets (suc n) [] = ([], [])
fgets (suc n) (c ∷ cs) =
    let more = fgets n cs in if c == b'\n' then (c ∷ [], cs) else (c ∷ more.0, more.1)

-- The body of the loop for what `fgets` has read.
abbrev pub run_input : Option Text → Round → Text → Shell → Process
run_input home r [] s = returns s
run_input home r (c ∷ cs) s =
    if c == b'\n' then returns s else performed r.os r.old s (run_line home r.bar_behind (c ∷ cs))

-- So many rounds of the loop. When a line leaves two shells, each goes on with the input that is left.
unfoldable pub main_loop : Option Text → List Round → (stdin : Text) → Shell → Process
main_loop home [] stdin s = returns s
main_loop home (r ∷ more) stdin s =
    let read = fgets room stdin in run_input home r read.0 s >>= main_loop home more read.1
