-- ===== src/MyShell/Pipe/Stages.antt =====
-- What `execute_pipe` of myShell/myshell3.c does with a line of commands joined by `|`.
use linux_system_code.Common.{
  ℕ, zero, suc, ◌+◌, ◌≡◌, ◌≢◌, ◌<◌, ◌≤◌, refl, ap, ◌∙◌, Bool, true, false, List, [], ◌∷◌, ◌++◌,
  ◌==◌, ◌&&◌, ltb, length, arith, if◌then◌else◌,
}
use linux_system_code.Processes.{returns, execs, undefined, forks, programs, ending, repeated}
use linux_system_code.MyShell.{Text, Vertex, max_vertices}
use linux_system_code.MyShell.Perform.{read_end, write_end, File, Shell, Event, waited, Os, Process}
use linux_system_code.MyShell.Pipe.{
  entries, copy_one, copy_pipes, wait_all, after_loop, next_entry, piped, pipe_loop, execute_pipe,
}

-- The kernel lets every fork and every `execvp` of these commands succeed.
pub record Works (os : Os) : Type 0 where
  pub forks_ok : (n : ℕ) → os.fork_fails n ≡ false
  pub execs_ok : (argv : List Text) → os.exec_fails argv ≡ false

-- Entries that `|` ends.
abbrev pub all_piped : List Vertex → Bool
all_piped [] = true
all_piped (c ∷ cs) = (c.sign == 1) && all_piped cs

-- The streams of the i-th command: the pipe before it, or the shell's input for the first, and its own
-- pipe.
abbrev pub input_of : Shell → ℕ → File
input_of s zero = s.stdin
input_of s (suc i) = read_end i

abbrev pub streams : Shell → ℕ → Shell
streams s i = record s { stdin = input_of s i; stdout = write_end i }

piped-streams : (s : Shell) (i : ℕ) → piped s i ≡ streams s i
piped-streams s zero = refl
piped-streams s (suc i) = refl

-- The processes that are made for them from the i-th on, and the copying after.
abbrev pub pipeline : Os → Shell → (i : ℕ) → List Vertex → Process
pipeline os s i [] = copy_pipes os s.stdout 0 i (wait_all s)
pipeline os s i (c ∷ cs) = forks (execs (c.arglist, streams s i)) (pipeline os s (i + 1) cs)

-- The programs that are run for these entries.
abbrev pub stages : Shell → (i : ℕ) → List Vertex → List (List Text × Shell)
stages s i [] = []
stages s i (c ∷ cs) = (c.arglist, streams s i) ∷ stages s (i + 1) cs

-- `L` has these entries from `k` on, and then `v`.
abbrev Holds : (ℕ → Vertex) → (k : ℕ) → List Vertex → Vertex → Type 0
Holds L k [] v = L k ≡ v
Holds L k (c ∷ cs) v = (L k ≡ c) × Holds L (k + 1) cs v

module _ (os : Os) (works : Works os) (L : ℕ → Vertex) (s : Shell) (v : Vertex)
    (last : v.sign ≡ 0) where
  past_last :
      (k i : ℕ) → L k ≡ v → after_loop os L false k i s ≡ copy_pipes os s.stdout 0 i (wait_all s)
  unfolding after_loop
  past_last k i e = let z : (L k).sign ≡ 0 = ap (λ w. w.sign) e ∙ last in rw z refl

  next_of_last : (k : ℕ) → (L k).sign ≡ 1 → (L (k + 1)).sign ≢ 2 → next_entry L k ≡ k + 1
  next_of_last k e n = ground arith

  round :
      (fuel k i : ℕ)
      → next_entry L k ≡ k + 1
      → ltb (k + 1) max_vertices ≡ true
      → pipe_loop (suc fuel) os L false k i s
        ≡ forks (execs ((L k).arglist, streams s i)) (
            if (L (k + 1)).sign == 1
            then pipe_loop fuel os L false (k + 1) (i + 1) s
            else after_loop os L false (k + 1) (i + 1) s)
  unfolding pipe_loop
  round fuel k i next room =
      rw (next, works.forks_ok i, works.execs_ok (L k).arglist, room)
        (ap
          (λ (child : Shell). forks (execs ((L k).arglist, child)) (
            if (L (k + 1)).sign == 1
            then pipe_loop fuel os L false (k + 1) (i + 1) s
            else after_loop os L false (k + 1) (i + 1) s))
          (piped-streams s i))

  loop-pipeline :
      (fuel k i : ℕ) (c : Vertex) (cs : List Vertex)
      → Holds L k (c ∷ cs) v
      → all_piped (c ∷ cs) ≡ true
      → length cs < fuel
      → k + length cs + 1 < max_vertices
      → pipe_loop fuel os L false k i s ≡ pipeline os s i (c ∷ cs)
  loop-pipeline zero k i c cs h a f b = absurd (omega arith)
  loop-pipeline (suc fuel) k i c [] (e, l) a f b =
      let one : (L k).sign ≡ 1 = ap (λ w. w.sign) e ∙ ground arith in
      let z : (L (k + 1)).sign ≡ 0 = ap (λ w. w.sign) l ∙ last in
      let next : next_entry L k ≡ k + 1 = next_of_last k one (omega (arith, z)) in
      let stop : ((L (k + 1)).sign == 1) ≡ false = ground arith in
      round fuel k i next (ground arith)
      ∙ rw (stop, e)
          (ap (λ r. forks (execs (c.arglist, streams s i)) r) (past_last (k + 1) (i + 1) l))
  loop-pipeline (suc fuel) k i c (d ∷ cs) (e, h) a f b =
      let one : (L k).sign ≡ 1 = ap (λ w. w.sign) e ∙ ground arith in
      let two : (L (k + 1)).sign ≡ 1 = ap (λ w. w.sign) (h.0) ∙ ground arith in
      let next : next_entry L k ≡ k + 1 = next_of_last k one (omega (arith, two)) in
      let more : ((L (k + 1)).sign == 1) ≡ true = ground arith in
      let rest : all_piped (d ∷ cs) ≡ true = ground arith in
      round fuel k i next (ground arith)
      ∙ rw (more, e)
          (ap (λ r. forks (execs (c.arglist, streams s i)) r)
            (loop-pipeline fuel (k + 1) (i + 1) d cs h rest (omega arith) (omega arith)))

Holds-entries :
    (vs : List Vertex) (v : Vertex) (old : ℕ → Vertex) (L : ℕ → Vertex) (k : ℕ)
    → ((j : ℕ) → L (k + j) ≡ entries (vs ++ v ∷ []) old j)
    → Holds L k vs v
Holds-entries [] v old L k e = ap L (omega arith) ∙ e 0
Holds-entries (c ∷ cs) v old L k e = (
  ap L (omega arith) ∙ e 0,
  Holds-entries cs v (λ j. old (suc j)) L (k + 1) (λ j. ap L (omega arith) ∙ e (suc j)),
)

-- A line of one to seven commands that `|` ends and a last one, when no fork and no execvp fails: each of
-- the commands but the last is run, with the pipe before it as its input and its own pipe as its output.
-- The last one is not run; the shell reads once from each pipe in turn, from the last one back, as far as
-- they have something to read, and prints what it reads.
pub execute_pipe-pipeline :
    (os : Os) (old : ℕ → Vertex) (s : Shell) (c : Vertex) (cs : List Vertex) (v : Vertex) (fuel : ℕ)
    → Works os
    → all_piped (c ∷ cs) ≡ true
    → v.sign ≡ 0
    → length (c ∷ cs) < max_vertices
    → max_vertices ≤ fuel
    → execute_pipe fuel os (entries (c ∷ cs ++ v ∷ []) old) s ≡ pipeline os s 0 (c ∷ cs)
unfolding execute_pipe
execute_pipe-pipeline os old s c cs v fuel works a z b f =
    let L : ℕ → Vertex = entries (c ∷ cs ++ v ∷ []) old in
    let first : (c.sign == 3) ≡ false = ground arith in
    rw first (
      loop-pipeline os works L s v z fuel 0 0 c cs
        (Holds-entries (c ∷ cs) v old L 0 (λ j. ap L (omega arith))) a (omega arith) (omega arith))

programs-repeated : (n : ℕ) (e : Event) (r : Process) → programs (repeated n e r) ≡ programs r
programs-repeated zero e r = refl
programs-repeated (suc n) e r = programs-repeated n e r

programs-copy_one :
    (f : File) (t : Text) (stop more : Process)
    → programs stop ≡ []
    → programs more ≡ []
    → programs (copy_one f t stop more) ≡ []
programs-copy_one f [] stop more p q = p
programs-copy_one f (c ∷ cs) stop more p q = q

programs-copy_pipes :
    (os : Os) (s : Shell) (f : File) (n i : ℕ) → programs (copy_pipes os f n i (wait_all s)) ≡ []
programs-copy_pipes os s f n zero = refl
programs-copy_pipes os s f n (suc i) =
    programs-copy_one f (os.reads n i) (wait_all s i) (copy_pipes os f (n + 1) i (wait_all s))
      (programs-repeated (i + 1) waited (returns s)) (programs-copy_pipes os s f (n + 1) i)

programs-pipeline :
    (os : Os) (s : Shell) (i : ℕ) (cs : List Vertex) → programs (pipeline os s i cs) ≡ stages s i cs
programs-pipeline os s i [] = programs-copy_pipes os s s.stdout 0 i
programs-pipeline os s i (c ∷ cs) =
    ap (λ (r : List (List Text × Shell)). (c.arglist, streams s i) ∷ r)
      (programs-pipeline os s (i + 1) cs)

ending-copy_one :
    (f : File) (t : Text) (stop more : Process)
    → t ≢ []
    → ending (copy_one f t stop more) ≡ ending more
ending-copy_one f [] stop more ne = absurd (ne refl)
ending-copy_one f (c ∷ cs) stop more ne = refl

-- From the n-th read on, each pipe before the i-th, from the last one back, has something to read.
abbrev pub Flows : Os → (n i : ℕ) → Type 0
Flows os n zero = Unit
Flows os n (suc i) = (os.reads n i ≢ []) × Flows os (n + 1) i

ending-copy_pipes :
    (os : Os) (s : Shell) (n i : ℕ)
    → Flows os n i
    → ending (copy_pipes os s.stdout n i (wait_all s)) ≡ undefined
ending-copy_pipes os s n zero w = refl
ending-copy_pipes os s n (suc i) (ne, w) =
    ending-copy_one s.stdout (os.reads n i) _ _ ne ∙ ending-copy_pipes os s (n + 1) i w

ending-pipeline :
    (os : Os) (s : Shell) (i n : ℕ) (cs : List Vertex)
    → i + length cs ≡ n
    → ending (pipeline os s i cs) ≡ ending (copy_pipes os s.stdout 0 n (wait_all s))
ending-pipeline os s i n [] e =
    ap (λ k. ending (copy_pipes os s.stdout 0 k (wait_all s))) (omega arith)
ending-pipeline os s i n (c ∷ cs) e = ending-pipeline os s (i + 1) n cs (omega arith)

module _ (os : Os) (old : ℕ → Vertex) (s : Shell) (c : Vertex) (cs : List Vertex) (v : Vertex)
    (fuel : ℕ) (works : Works os) (a : all_piped (c ∷ cs) ≡ true) (z : v.sign ≡ 0)
    (b : length (c ∷ cs) < max_vertices) (f : max_vertices ≤ fuel) where
  abbrev run : Process
  run = execute_pipe fuel os (entries (c ∷ cs ++ v ∷ []) old) s

  -- For a line of one to seven commands that | ends and a last one, when no fork and no execvp fails,
  -- the programs that are run are those of the commands but the last, the i-th with the pipe i - 1 as its
  -- input, the first with the shell's, and the pipe i as its output. The last command is never run.
  pub last_command_lost : programs run ≡ stages s 0 (c ∷ cs)
  last_command_lost =
      ap programs (execute_pipe-pipeline os old s c cs v fuel works a z b f)
      ∙ programs-pipeline os s 0 (c ∷ cs)

  -- On a line of one to seven commands that | ends and a last one, when no fork and no execvp fails and
  -- each pipe in turn, from the last one back, has something for the shell to read, the shell reads
  -- past the array of the pipes.
  pub pipes_overrun : Flows os 0 (length (c ∷ cs)) → ending run ≡ undefined
  pipes_overrun w =
      ap ending (execute_pipe-pipeline os old s c cs v fuel works a z b f)
      ∙ ending-pipeline os s 0 (length (c ∷ cs)) (c ∷ cs) (omega arith)
      ∙ ending-copy_pipes os s 0 (length (c ∷ cs)) w
