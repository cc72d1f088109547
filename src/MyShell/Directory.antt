-- ===== src/MyShell/Directory.antt =====
-- `execute_cddir` of myShell/myshell3.c, with the arrays `olddir` and `curdir2`.
--
-- The name of the working directory is taken to be shorter than `MAXPATH`.
pub mod Dash
use linux_system_code.Common.{
  ℕ, zero, suc, ◌+◌, Bool, true, false, List, [], ◌∷◌, ◌++◌, ◌==◌, if◌then◌else◌, length,
}
use linux_system_code.Processes.{Run, returns, exits, does}
use linux_system_code.MyShell.{Text, starts_with}
use linux_system_code.MyShell.Perform.{Shell, Event, changed, Os, Process}

-- `memmove(olddir, curdir2, strlen(curdir2))`: the bytes of the new name stand in front, without a
-- NUL behind them.
abbrev pub moved_over : (name old : Text) → Text
moved_over [] old = old
moved_over (c ∷ cs) [] = c ∷ cs
moved_over (c ∷ cs) (d ∷ ds) = c ∷ moved_over cs ds

-- Lines 91 to 96.
unfoldable pub remember : Os → Shell → Shell
remember os s =
    if s.dirsign == 1 then record s { curdir2 = os.getcwd; dirsign = s.dirsign + 1 } else record s {
      olddir = moved_over s.curdir2 s.olddir;
      curdir2 = os.getcwd;
      dirsign = s.dirsign + 1;
    }

abbrev pub goal_of : Text → Shell → Text
goal_of path s = if starts_with b'-' path then s.olddir else path

unfoldable pub execute_cddir : Os → (path : Text) → Shell → Process
unfolding remember
execute_cddir os path s =
    let s' = remember os s in
    if os.chdir_fails (goal_of path s')
    then exits 3
    else does (changed (goal_of path s')) (returns s')
