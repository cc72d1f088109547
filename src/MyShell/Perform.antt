-- ===== src/MyShell/Perform.antt =====
-- The functions of myShell/myshell3.c that `execute` calls for a line without a pipe: `execute_exe`,
-- `execute_redir_r` and `execute_redir_a`; and the states that a line leads through.
--
-- `dup2` fails on a descriptor that is not open, and only then.
use linux_system_code.Common.{ℕ, Bool, Option, none, some, List, [], ◌∷◌, ◌==◌, if◌then◌else◌}
use linux_system_code.Processes.{Run, returns, exits, execs, does, forks}
use linux_system_code.MyShell.{Text, Vertex}

-- How a file is opened: O_RDWR; O_TRUNC, with O_CREAT; O_APPEND, with O_CREAT.
pub data Mode : Type 0 where
  read_write truncate append : Mode

-- What a descriptor stands for: the stream that the shell was started with, an opened file, or an end
-- of one of the pipes.
pub data File : Type 0 where
  terminal : File
  file : Text → Mode → File
  read_end : ℕ → File
  write_end : ℕ → File

-- The standard streams of a process, and the shell's global variables for `cd`: the arrays up to their
-- NULs, and `dirsign`.
pub record Shell : Type 0 where
  pub stdin : File
  pub stdout : File
  pub olddir : Text
  pub curdir2 : Text
  pub dirsign : ℕ

pub data Event : Type 0 where
  opened : Text → Mode → Event
  waited : Event  -- wait(NULL)
  polled : Event  -- waitpid with WNOHANG
  wrote : File → Text → Event
  changed : (path : Text) → Event

-- What the kernel answers while a line is run: whether the n-th `fork` and the `execvp` of some words
-- fail, whether a file can be opened, what the n-th `read` of a pipe gives (nothing at the end, and when it
-- fails), the working directory, and whether it can be changed.
pub record Os : Type 0 where
  pub fork_fails : ℕ → Bool
  pub exec_fails : List Text → Bool
  pub opens : Text → Mode → Bool
  pub reads : (n : ℕ) (pipe : ℕ) → Text
  pub getcwd : Text
  pub chdir_fails : Text → Bool

abbrev pub Process : Type 0
Process = Run Event Shell (List Text × Shell)

-- `open` of the first word of an entry, which is NULL without words; `none` is -1.
abbrev pub open_first : Os → List Text → Mode → Option File
open_first os [] mode = none
open_first os (path ∷ _) mode = if os.opens path mode then some (file path mode) else none

abbrev pub opening : List Text → Mode → Process → Process
opening [] mode r = r
opening (path ∷ _) mode r = does (opened path mode) r

-- `execute_exe`
unfoldable pub execute_exe : Os → Vertex → Shell → Process
execute_exe os v s =
    if os.fork_fails 0
    then exits 1
    else forks (if os.exec_fails v.arglist then exits 2 else execs (v.arglist, s))
        (does (if v.sign == 0 then waited else polled) (returns s))

-- The child of a redirection, from the `dup2` on. When `execvp` fails, it returns to `main`.
abbrev pub redirected : Os → List Text → Shell → Option File → Process
redirected os argv s none = exits 0
redirected os argv s (some f) =
    let s' = record s { stdout = f } in if os.exec_fails argv then returns s' else execs (argv, s')

-- `execute_redir_r` and `execute_redir_a`, which differ in the mode alone: the file's name is the first
-- word of the next entry. Both processes open it.
unfoldable pub execute_redir : Mode → Os → Vertex → (next : Vertex) → Shell → Process
execute_redir mode os v next s =
    let fd = open_first os next.arglist mode in
    if os.fork_fails 0
    then opening next.arglist mode (exits 1)
    else forks (opening next.arglist mode (redirected os v.arglist s fd))
        (opening next.arglist mode (does waited (returns s)))
