-- ===== src/MyShell/Shells.antt =====
-- How many processes go on as shells after a line in myShell/myshell3.c, and what they read.
use linux_system_code.Common.{
  ℕ, zero, suc, ◌+◌, ◌≡◌, refl, Bool, true, false, List, [], ◌∷◌, ◌++◌, ◌==◌, ltb, if◌then◌else◌,
  if_elim, arith,
}
use linux_system_code.Processes.{exits, execs, undefined, out_of_fuel, forks, going_on, repeated}
use linux_system_code.MyShell.{Text, Vertex, max_vertices}
use linux_system_code.MyShell.Perform.{
  Mode, read_write, file, Shell, Event, Os, Process, execute_exe, execute_redir,
}
use linux_system_code.MyShell.Pipe.{entries, after_loop, next_entry, piped, pipe_loop, execute_pipe}

-- When fork does not fail, execute_exe lets the shell alone go on, whether execvp fails or not.
pub execute_exe-going_on :
    (os : Os) (v : Vertex) (s : Shell)
    → os.fork_fails 0 ≡ false
    → going_on (execute_exe os v s) ≡ s ∷ []
unfolding execute_exe
execute_exe-going_on os v s e = rw e (
    if_elim (λ (r : Process). going_on r ++ s ∷ [] ≡ s ∷ []) (os.exec_fails v.arglist) (exits 2)
      (execs (v.arglist, s)) (λ _. refl) (λ _. refl))

-- When fork does not fail and the file can be opened, but execvp fails, a redirection leaves two
-- shells that go on with the same input: the child writes its output to the file.
pub execute_redir-two_shells :
    (mode : Mode) (os : Os) (v next : Vertex) (path : Text) (more : List Text) (s : Shell)
    → next.arglist ≡ path ∷ more
    → os.fork_fails 0 ≡ false
    → os.opens path mode ≡ true
    → os.exec_fails v.arglist ≡ true
    → going_on (execute_redir mode os v next s) ≡ record s { stdout = file path mode } ∷ s ∷ []
unfolding execute_redir
execute_redir-two_shells mode os v next path more s a e o x = rw (a, e, o, x) refl

going_on-repeated : (n : ℕ) (e : Event) (r : Process) → going_on (repeated n e r) ≡ going_on r
going_on-repeated zero e r = refl
going_on-repeated (suc n) e r = going_on-repeated n e r

-- After `command < path`, when the file can be opened and neither fork nor execvp fails, the shell
-- goes on with the file as its own input: dup2 is not taken back, and its next lines are the file's.
pub execute_pipe-input_kept :
    (os : Os) (old : ℕ → Vertex) (s : Shell) (command : List Text) (path : Text) (more : List Text)
    (sign fuel : ℕ)
    → os.opens path read_write ≡ true
    → os.fork_fails 0 ≡ false
    → os.exec_fails command ≡ false
    → going_on (
        execute_pipe
          (suc fuel)
          os
          (entries
            (record { sign = 3; arglist = command }
              ∷ record { sign = sign; arglist = path ∷ more }
              ∷ [])
            old)
          s)
      ≡ record s { stdin = file path read_write } ∷ []
unfolding execute_pipe pipe_loop after_loop
execute_pipe-input_kept os old s command path more sign fuel o e x = rw (o, e, x) refl

-- A chain of `n` processes each of which has made the next one.
abbrev pub Descends : ℕ → Process → Type 0
Descends zero r = r ≡ out_of_fuel
Descends (suc n) r =
    (child : Process) × (parent : Process) × (r ≡ forks child parent) × Descends n child

pipe_loop-failed :
    (fuel : ℕ) (os : Os) (L : ℕ → Vertex) (with_fd : Bool) (k i : ℕ) (s : Shell)
    → ((L k).sign == 1) ≡ true
    → os.fork_fails i ≡ false
    → os.exec_fails (L k).arglist ≡ true
    → (parent : Process) × (pipe_loop (suc fuel) os L with_fd k i s
        ≡ forks (pipe_loop fuel os L with_fd k i (piped s i)) parent)
unfolding pipe_loop
pipe_loop-failed fuel os L with_fd k i s one e x =
    let j : ℕ = next_entry L k in
    (
      (if ltb j max_vertices
          then (if (L j).sign == 1
              then pipe_loop fuel os L with_fd j (i + 1) s
              else after_loop os L with_fd j (i + 1) s)
          else undefined),
      rw (e, x, one) refl,
    )

-- When the execvp of a command that | ends fails, and no fork does, the child goes on with the loop of
-- execute_pipe and forks again, and so does its child: with fuel for any number of rounds, that many
-- processes are made, each by the one before.
pub pipe_loop-Descends :
    (fuel : ℕ) (os : Os) (L : ℕ → Vertex) (with_fd : Bool) (k i : ℕ) (s : Shell)
    → (L k).sign ≡ 1
    → os.fork_fails i ≡ false
    → os.exec_fails (L k).arglist ≡ true
    → Descends fuel (pipe_loop fuel os L with_fd k i s)
unfolding pipe_loop
pipe_loop-Descends zero os L with_fd k i s one e x = refl
pipe_loop-Descends (suc fuel) os L with_fd k i s one e x =
    let (parent, forked) = pipe_loop-failed fuel os L with_fd k i s (ground arith) e x in
    (
      pipe_loop fuel os L with_fd k i (piped s i),
      parent,
      forked,
      pipe_loop-Descends fuel os L with_fd k i (piped s i) one e x,
    )
