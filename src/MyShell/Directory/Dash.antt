-- ===== src/MyShell/Directory/Dash.antt =====
-- Where `cd -` leads in myShell/myshell3.c.
use linux_system_code.Common.{
  ◌+◌, ◌≡◌, ◌≢◌, ◌≤◌, ◌↔◌, refl, sym, ap, ◌∙◌, false, List, [], ◌∷◌, ◌==◌, if_elim, length, arith,
}
use linux_system_code.Processes.{returns, exits, does, events, going_on}
use linux_system_code.MyShell.{Text}
use linux_system_code.MyShell.Perform.{Shell, Event, changed, Os, Process}
use linux_system_code.MyShell.Directory.{moved_over, remember, goal_of, execute_cddir}

moved_over-short : (name old : Text) → length old ≤ length name → moved_over name old ≡ name
moved_over-short [] [] h = refl
moved_over-short [] (d ∷ ds) h = absurd (omega arith)
moved_over-short (c ∷ cs) [] h = refl
moved_over-short (c ∷ cs) (d ∷ ds) h =
    ap (λ (t : Text). c ∷ t) (moved_over-short cs ds (omega arith))

length-moved_over : (name old : Text) → length old ≤ length (moved_over name old)
length-moved_over [] old = omega arith
length-moved_over (c ∷ cs) [] = omega arith
length-moved_over (c ∷ cs) (d ∷ ds) = omega (arith, length-moved_over cs ds)

remember-curdir2 : (os : Os) (s : Shell) → (remember os s).curdir2 ≡ os.getcwd
unfolding remember
remember-curdir2 os s =
    if_elim (λ (t : Shell). t.curdir2 ≡ os.getcwd) (s.dirsign == 1) _ _ (λ _. refl) (λ _. refl)

remember-dirsign : (os : Os) (s : Shell) → (remember os s).dirsign ≡ s.dirsign + 1
unfolding remember
remember-dirsign os s =
    if_elim (λ (t : Shell). t.dirsign ≡ s.dirsign + 1) (s.dirsign == 1) _ _ (λ _. refl) (λ _. refl)

remember-olddir :
    (os : Os) (s : Shell) → s.dirsign ≢ 1 → (remember os s).olddir ≡ moved_over s.curdir2 s.olddir
unfolding remember
remember-olddir os s n = let b : (s.dirsign == 1) ≡ false = ground arith in rw b refl

head_of : Shell → List Shell → Shell
head_of d [] = d
head_of d (x ∷ xs) = x

went :
    (os : Os) (path : Text) (s t : Shell)
    → going_on (execute_cddir os path s) ≡ t ∷ []
    → remember os s ≡ t
unfolding execute_cddir head_of
went os path s t =
    let s' : Shell = remember os s in
    if_elim (λ (r : Process). going_on r ≡ t ∷ [] → s' ≡ t) (os.chdir_fails (goal_of path s'))
      (exits 3) (does (changed (goal_of path s')) (returns s')) (λ _ q. cc)
      (λ _ q. ap (head_of t) q)

dash_event :
    (os : Os) (t : Shell) (dash : Text)
    → t.dirsign ≢ 1
    → ((goal : Text) → os.chdir_fails goal ≡ false)
    → events (execute_cddir os (b'-' ∷ dash) t) ≡ changed (moved_over t.curdir2 t.olddir) ∷ []
unfolding execute_cddir
dash_event os t dash n f =
    rw (f (remember os t).olddir) (ap (λ g. changed g ∷ []) (remember-olddir os t n))

path_of : Event → Text
path_of (changed p) = p
path_of _ = []

paths_of : List Event → Text
paths_of [] = []
paths_of (e ∷ es) = path_of e

-- After cd has been used, cd - leads to the directory in which cd was used last, if and only if
-- the name that olddir held before is not longer than that directory's: otherwise the longer name's
-- end stays behind it.
pub cd_dash :
    (before now : Os) (path : Text) (s t : Shell) (dash : Text)
    → s.dirsign ≢ 0
    → going_on (execute_cddir before path s) ≡ t ∷ []
    → ((goal : Text) → now.chdir_fails goal ≡ false)
    → (events (execute_cddir now (b'-' ∷ dash) t) ≡ changed before.getcwd ∷ [])
      ↔ (length t.olddir ≤ length before.getcwd)
unfolding paths_of path_of
cd_dash before now path s t dash n e f =
    let same : remember before s ≡ t = went before path s t e in
    let here : t.curdir2 ≡ before.getcwd =
      ap (λ u. u.curdir2) (sym same) ∙ remember-curdir2 before s in
    let used : t.dirsign ≡ s.dirsign + 1 =
      ap (λ u. u.dirsign) (sym same) ∙ remember-dirsign before s in
    let event : events (execute_cddir now (b'-' ∷ dash) t)
        ≡ changed (moved_over t.curdir2 t.olddir) ∷ [] =
      dash_event now t dash (omega (arith, used)) f in
    (
      λ q.
          let goal : moved_over t.curdir2 t.olddir ≡ before.getcwd = ap paths_of (sym event ∙ q) in
          omega (arith, length-moved_over t.curdir2 t.olddir, ap length goal),
      λ short.
          event
          ∙ ap (λ g. changed g ∷ [])
              (moved_over-short t.curdir2 t.olddir (omega (arith, short, ap length here)) ∙ here),
    )
