-- ===== src/MyShell/Session.antt =====
-- Sessions of the shell of myShell/myshell3.c: lines one after the other.
use linux_system_code.Common.{
  ℕ, zero, suc, ◌==◌, ◌≡◌, ◌<◌, refl, ap, ◌∙◌, Bool, true, false, not, ◌&&◌, Option, List, [], ◌∷◌,
  ◌++◌, length, map, arith,
}
use linux_system_code.Processes.{returns, execs, does, forks, ◌>>=◌, programs, going_on}
use linux_system_code.MyShell.{Text, ok, max_arglist}
use linux_system_code.MyShell.Lines.{words, no_nul}
use linux_system_code.MyShell.Words.{are_plain}
use linux_system_code.MyShell.Execute.{exe, memcmp_eq, run_line}
use linux_system_code.MyShell.Run.{run_line-print, simple_action}
use linux_system_code.MyShell.Perform.{Shell, waited, Process, execute_exe}
use linux_system_code.MyShell.Main.{perform, performed, Round, room, fgets, run_input, main_loop}

-- A line of words whose first one names a program: it begins with neither cd nor exit.
abbrev pub names_program : List Text → Bool
names_program [] = false
names_program (w ∷ _) =
    not (memcmp_eq (b'c' ∷ b'd' ∷ []) w) && not (memcmp_eq (b'e' ∷ b'x' ∷ b'i' ∷ b't' ∷ []) w)

-- A line as it is typed, without the newline, and its round of the loop.
pub record Command : Type 0 where
  pub round : Round
  pub line : Text

abbrev pub one_line : Text → Bool
one_line [] = true
one_line (c ∷ cs) = not (c == b'\n') && one_line cs

-- A line that fits into `argbuf`, of plain words, not too many, for a program that the kernel can start.
pub record Starts (c : Command) : Type 0 where
  pub nul : no_nul c.line ≡ true
  pub newline : one_line c.line ≡ true
  pub short : length c.line < room
  pub plain : are_plain (words c.line) ≡ true
  pub few : length (words c.line) < max_arglist
  pub named : names_program (words c.line) ≡ true
  pub forks_ok : c.round.os.fork_fails 0 ≡ false
  pub execs_ok : c.round.os.exec_fails (words c.line) ≡ false

abbrev pub round_of : Command → Round
round_of c = c.round

-- What is typed: the lines, each with its newline.
abbrev pub typed : List Command → Text
typed [] = []
typed (c ∷ cs) = c.line ++ b'\n' ∷ typed cs

abbrev pub All : List Command → Type 0
All [] = Unit
All (c ∷ cs) = Starts c × All cs

fgets-line :
    (n : ℕ) (line more : Text)
    → one_line line ≡ true
    → length line < n
    → fgets n (line ++ b'\n' ∷ more) ≡ (line ++ b'\n' ∷ [], more)
unfolding fgets
fgets-line zero line more o h = absurd (omega arith)
fgets-line (suc n) [] more o h = refl
fgets-line (suc n) (c ∷ cs) more o h =
    let one : (c == b'\n') ≡ false = ground arith in
    let rest : one_line cs ≡ true = ground arith in
    rw (one, fgets-line n cs more rest (omega (arith, h))) refl

simple_action-named :
    (ws : List Text)
    → names_program ws ≡ true
    → simple_action ws ≡ ok (exe (record { sign = 0; arglist = ws }))
simple_action-named [] n = cc
simple_action-named (w ∷ ws) n =
    let cd : memcmp_eq (b'c' ∷ b'd' ∷ []) w ≡ false = ground arith in
    let exit : memcmp_eq (b'e' ∷ b'x' ∷ b'i' ∷ b't' ∷ []) w ≡ false = ground arith in
    rw (cd, exit) refl

simple_line :
    (home : Option Text) (bar : Bool) (line : Text)
    → no_nul line ≡ true
    → are_plain (words line) ≡ true
    → length (words line) < max_arglist
    → names_program (words line) ≡ true
    → run_line home bar (line ++ b'\n' ∷ []) ≡ ok (exe (record { sign = 0; arglist = words line }))
simple_line home bar line l p f n =
    run_line-print home bar line [] (words line) l refl refl p f (omega arith)
    ∙ simple_action-named (words line) n

run_input-line :
    (home : Option Text) (r : Round) (line : Text) (s : Shell)
    → one_line line ≡ true
    → names_program (words line) ≡ true
    → run_input home r (line ++ b'\n' ∷ []) s
      ≡ performed r.os r.old s (run_line home r.bar_behind (line ++ b'\n' ∷ []))
run_input-line home r [] s o n = cc
run_input-line home r (c ∷ cs) s o n = let one : (c == b'\n') ≡ false = ground arith in rw one refl

abbrev started : Command → Shell → Process → Process
started c s rest = forks (execs (words c.line, s)) (does waited rest)

execute_exe-Starts :
    (c : Command) (s : Shell)
    → Starts c
    → execute_exe c.round.os (record { sign = 0; arglist = words c.line }) s
      ≡ started c s (returns s)
unfolding execute_exe
execute_exe-Starts c s r = rw (r.forks_ok, r.execs_ok) refl

performed-Starts :
    (home : Option Text) (c : Command) (s : Shell)
    → Starts c
    → run_input home c.round (c.line ++ b'\n' ∷ []) s ≡ started c s (returns s)
unfolding perform
performed-Starts home c s r =
    run_input-line home c.round c.line s r.newline r.named
    ∙ ap (performed c.round.os c.round.old s)
        (simple_line home c.round.bar_behind c.line r.nul r.plain r.few r.named)
    ∙ execute_exe-Starts c s r

main_loop-next :
    (home : Option Text) (c : Command) (more : List Round) (rest : Text) (s : Shell)
    → Starts c
    → main_loop home (c.round ∷ more) (c.line ++ b'\n' ∷ rest) s
      ≡ started c s (main_loop home more rest s)
unfolding main_loop
main_loop-next home c more rest s r =
    ap (λ (read : Text × Text). run_input home c.round read.0 s >>= main_loop home more read.1)
      (fgets-line room c.line rest r.newline r.short)
    ∙ ap (λ r. r >>= main_loop home more rest) (performed-Starts home c s r)

abbrev pub runs_in : Shell → List Command → List (List Text × Shell)
runs_in s [] = []
runs_in s (c ∷ cs) = (words c.line, s) ∷ runs_in s cs

-- A session of lines of at most 98 bytes without NUL, each of at most 20 plain words, the first of
-- which names a program that the kernel can start, runs these programs in the order of the lines,
-- each with the words of its line and the shell's own streams, and one shell goes on, in the state
-- of the beginning.
pub main_loop-programs :
    (home : Option Text) (cs : List Command) (s : Shell)
    → All cs
    → (programs (main_loop home (map round_of cs) (typed cs) s) ≡ runs_in s cs)
      × (going_on (main_loop home (map round_of cs) (typed cs) s) ≡ s ∷ [])
unfolding main_loop
main_loop-programs home [] s a = (refl, refl)
main_loop-programs home (c ∷ cs) s (r, a) =
    let (p, g) = main_loop-programs home cs s a in
    let next = main_loop-next home c (map round_of cs) (typed cs) s r in
    (
      ap programs next ∙ ap (λ (l : List (List Text × Shell)). (words c.line, s) ∷ l) p,
      ap going_on next ∙ g,
    )
