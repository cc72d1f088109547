-- ===== src/MyShell/Pipe.antt =====
-- `execute_pipe` of myShell/myshell3.c.
--
-- `L` is the global array from the entry that `execute` was given on: the entries of the line, and
-- behind them what earlier lines have left.
pub mod Stages
use linux_system_code.Common.{
  ℕ, zero, suc, ◌+◌, Bool, true, false, Option, none, some, List, [], ◌∷◌, ◌++◌, ◌==◌, ltb,
  if◌then◌else◌,
}
use linux_system_code.Processes.{
  Run, returns, exits, execs, undefined, out_of_fuel, does, forks, repeated,
}
use linux_system_code.MyShell.{Text, Vertex, max_vertices}
use linux_system_code.MyShell.Perform.{
  Mode, read_write, truncate, append, File, file, read_end, write_end, Shell, Event, waited, wrote,
  Os, Process, open_first, opening,
}

-- The entries `vs`, and behind them those of `old`.
abbrev pub entries : List Vertex → (ℕ → Vertex) → ℕ → Vertex
entries [] old k = old k
entries (v ∷ vs) old zero = v
entries (v ∷ vs) old (suc k) = entries vs (λ j. old (suc j)) k

-- What a `read` gave is written, and the loop goes on; without it the loop stops.
abbrev pub copy_one : File → Text → (stop more : Process) → Process
copy_one out [] stop more = stop
copy_one out (c ∷ cs) stop more = does (wrote out (c ∷ cs)) more

-- `while ((n = read(pipes[--i][0], buf, sizeof(buf))) > 0) write(out, buf, n);` from the n-th read on,
-- and `rest` with the `i` it leaves. Each round takes the pipe before; there is none before the first.
abbrev pub copy_pipes : Os → File → (n i : ℕ) → (ℕ → Process) → Process
copy_pipes os out n zero rest = undefined
copy_pipes os out n (suc i) rest =
    copy_one out (os.reads n i) (rest i) (copy_pipes os out (n + 1) i rest)

-- Lines 176 and 177.
abbrev pub wait_all : Shell → (i : ℕ) → Process
wait_all s i = repeated (i + 1) waited (returns s)

-- Lines 150 to 157 and 161 to 168. `sys_err` exits with the status 0.
abbrev pub copy_to_file : Os → Shell → (i : ℕ) → List Text → Mode → Option File → Process
copy_to_file os s i words mode none = opening words mode (exits 0)
copy_to_file os s i words mode (some f) = opening words mode (copy_pipes os f 0 i (wait_all s))

-- What reads the entry behind `k`, the last one of `L` at most.
abbrev pub in_range : (k : ℕ) → Process → Process
in_range k r = if ltb (k + 1) max_vertices then r else undefined

-- From line 143 on, with `L` at the entry `k`. Without a `<` in front `fd` has no value for line 172.
unfoldable pub after_loop : Os → (ℕ → Vertex) → (with_fd : Bool) → (k i : ℕ) → Shell → Process
after_loop os L with_fd k i s =
    let words = (L (k + 1)).arglist in
    if (L k).sign == 0
    then copy_pipes os s.stdout 0 i (wait_all s)
    else if (L k).sign == 2
    then in_range k (copy_to_file os s i words truncate (open_first os words truncate))
    else if (L k).sign == 4
    then in_range k (copy_to_file os s i words append (open_first os words append))
    else if (L k).sign == 3
    then if with_fd then wait_all s i else undefined
    else wait_all s i

-- Where `L` stands for the parent's next round, lines 136 and 137.
abbrev pub next_entry : (ℕ → Vertex) → ℕ → ℕ
next_entry L k =
    let k' = if (L k).sign == 1 then k + 1 else k in if (L k').sign == 2 then k' + 2 else k'

-- The streams of the i-th child.
abbrev pub piped : Shell → ℕ → Shell
piped s zero = record s { stdout = write_end 0 }
piped s (suc i) = record s { stdin = read_end i; stdout = write_end (suc i) }

-- The loop, whose variable `sign` is 0 at its end in each round. A child whose `execvp` fails goes on
-- with the loop itself, where it stands. The number of a pipe is its place in the array `pipes` of the
-- process that made it.
unfoldable pub pipe_loop : ℕ → Os → (ℕ → Vertex) → (with_fd : Bool) → (k i : ℕ) → Shell → Process
pipe_loop zero os L with_fd k i s = out_of_fuel
pipe_loop (suc fuel) os L with_fd k i s =
    let again = pipe_loop fuel os L with_fd k i (piped s i) in
    let on = pipe_loop fuel os L with_fd (next_entry L k) (i + 1) s in
    let over = after_loop os L with_fd k i (piped s i) in
    let past = after_loop os L with_fd (next_entry L k) (i + 1) s in
    let failed_child = if (L k).sign == 1 then again else over in
    let parent = if (L (next_entry L k)).sign == 1 then on else past in
    if os.fork_fails i
    then exits 1
    else forks
        (if os.exec_fails (L k).arglist then failed_child else execs ((L k).arglist, piped s i))
        (if ltb (next_entry L k) max_vertices then parent else undefined)

-- Lines 108 to 111: the shell's own standard input becomes the file, if that can be opened.
abbrev pub read_from : Shell → Option File → Shell
read_from s none = s
read_from s (some f) = record s { stdin = f }

unfoldable pub execute_pipe : ℕ → Os → (ℕ → Vertex) → Shell → Process
execute_pipe fuel os L s =
    let words = (L 1).arglist in
    if (L 0).sign == 3
    then opening words read_write
        (pipe_loop fuel os L true 0 0 (read_from s (open_first os words read_write)))
    else pipe_loop fuel os L false 0 0 s
