-- ===== src/MyShell/SessionTests.antt =====
-- Lines that the shell of myShell/myshell3.c runs.
use linux_system_code.Common.{
  ℕ, ◌≡◌, ◌↔◌, ◌≤◌, refl, Bool, true, false, none, [], ◌∷◌, ◌++◌, length, arith,
}
use linux_system_code.Processes.{programs, going_on, ending, events, undefined}
use linux_system_code.MyShell.{Text, Vertex, max_vertices}
use linux_system_code.MyShell.Perform.{terminal, write_end, Shell, changed, Os}
use linux_system_code.MyShell.Pipe.{entries, after_loop, pipe_loop, execute_pipe}
use linux_system_code.MyShell.Pipe.Stages.{Works, last_command_lost, pipes_overrun}
use linux_system_code.MyShell.Directory.{execute_cddir}
use linux_system_code.MyShell.Directory.Dash.{cd_dash}
use linux_system_code.MyShell.Main.{Round, main_loop}
use linux_system_code.MyShell.Session.{Command, Starts, typed, main_loop-programs}

-- A kernel that starts each program, or none, whose working directory is `here`; each pipe holds one byte.
abbrev kernel : (fails : Bool) (here : Text) → Os
kernel fails here = record {
  fork_fails = λ n. false;
  exec_fails = λ argv. fails;
  opens = λ path mode. true;
  reads = λ n k. b'x' ∷ [];
  getcwd = here;
  chdir_fails = λ path. false;
}

abbrev works : Os
works = kernel false (b'/' ∷ [])

abbrev ls : Text
ls = b'l' ∷ b's' ∷ []

abbrev wc : Text
wc = b'w' ∷ b'c' ∷ []

abbrev root : Text
root = b'/' ∷ []

abbrev wc_dir : Text
wc_dir = b'/' ∷ wc

abbrev shell : Shell
shell = record { stdin = terminal; stdout = terminal; olddir = []; curdir2 = []; dirsign = 1 }

abbrev nothing_old : ℕ → Vertex
nothing_old k = record { sign = 0; arglist = [] }

abbrev ls_piped : Vertex
ls_piped = record { sign = 1; arglist = ls ∷ [] }

abbrev wc_last : Vertex
wc_last = record { sign = 0; arglist = wc ∷ [] }

works-Works : Works works
works-Works = record { forks_ok = λ n. refl; execs_ok = λ argv. refl }

-- Of `ls | wc` the shell runs `ls` alone.
last_command_lost_example :
    programs (execute_pipe max_vertices works (entries (ls_piped ∷ wc_last ∷ []) nothing_old) shell)
    ≡ (ls ∷ [], record shell { stdout = write_end 0 }) ∷ []
last_command_lost_example =
    last_command_lost works nothing_old shell ls_piped [] wc_last max_vertices works-Works refl refl
      (omega arith) (omega arith)

-- The pipe of `ls` holds a byte, and then the shell reads before the first pipe.
pipes_overrun_example :
    ending (execute_pipe max_vertices works (entries (ls_piped ∷ wc_last ∷ []) nothing_old) shell)
    ≡ undefined
pipes_overrun_example =
    pipes_overrun works nothing_old shell ls_piped [] wc_last max_vertices works-Works refl refl
      (omega arith) (omega arith) ((λ e. cc), tt)

-- `ls | wc > out`: the entry of `out` is passed over.
abbrev wc_to_file : Vertex
wc_to_file = record { sign = 2; arglist = wc ∷ [] }

redirected_pipe :
    ending (
      execute_pipe max_vertices works
        (entries (ls_piped ∷ wc_to_file ∷ wc_last ∷ []) nothing_old)
        shell)
    ≡ undefined
unfolding execute_pipe pipe_loop after_loop
redirected_pipe = refl

abbrev used_cd : Shell
used_cd = record {
  stdin = terminal;
  stdout = terminal;
  olddir = b'/' ∷ ls;
  curdir2 = b'/' ∷ wc;
  dirsign = 2;
}

abbrev went_home : Shell
went_home = record {
  stdin = terminal;
  stdout = terminal;
  olddir = b'/' ∷ wc;
  curdir2 = b'/' ∷ [];
  dirsign = 3;
}

-- From `/` after `/wc`: the name `/wc` is the longer one, so `cd -` goes to `/wc`.
cd_dash_example :
    (events (execute_cddir works (b'-' ∷ []) went_home) ≡ changed root ∷ [])
    ↔ (length wc_dir ≤ length root)
unfolding execute_cddir
cd_dash_example = cd_dash works works ls used_cd went_home [] (λ q. cc) refl (λ goal. refl)

abbrev round : Round
round = record { os = works; old = nothing_old; bar_behind = false }

-- ls wc
abbrev run_ls : Command
run_ls = record { round = round; line = ls ++ b' ' ∷ wc }

abbrev run_wc : Command
run_wc = record { round = round; line = wc }

run_ls-Starts : Starts run_ls
run_ls-Starts = record {
  nul = refl;
  newline = refl;
  short = omega arith;
  plain = refl;
  few = omega arith;
  named = refl;
  forks_ok = refl;
  execs_ok = refl;
}

run_wc-Starts : Starts run_wc
run_wc-Starts = record {
  nul = refl;
  newline = refl;
  short = omega arith;
  plain = refl;
  few = omega arith;
  named = refl;
  forks_ok = refl;
  execs_ok = refl;
}

main_loop-programs_example :
    (programs (main_loop none (round ∷ round ∷ []) (typed (run_ls ∷ run_wc ∷ [])) shell)
      ≡ (ls ∷ wc ∷ [], shell) ∷ (wc ∷ [], shell) ∷ [])
    × (going_on (main_loop none (round ∷ round ∷ []) (typed (run_ls ∷ run_wc ∷ [])) shell)
        ≡ shell ∷ [])
main_loop-programs_example =
    main_loop-programs none (run_ls ∷ run_wc ∷ []) shell (run_ls-Starts, (run_wc-Starts, tt))
