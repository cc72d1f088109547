-- ===== src/PhreadPool/Returns.antt =====
-- The sections of Pthread/phread_pool.c that give a result, and what `System` makes of it.
use linux_system_code.Common.{ℕ, ◌≡◌, ◌≢◌, refl, Bool, true, false, Option, none, some, is_none}
use linux_system_code.Store.{Cells}
use linux_system_code.PhreadPool.{
  Job, Pool, AddOutcome, wait_not_full, add_refused, added, WorkOutcome, wait_not_empty,
  exit_thread, took,
}
use linux_system_code.PhreadPool.Views.{
  AddView, asleep, refused, linked, WorkView, sleeps, exits, takes,
}
use linux_system_code.PhreadPool.System.{
  Pc, adding, working, destroying, destroy_resuming, System, add_next, work_next,
}

pub add_returns :
    {p : Pool} {cells : Cells Job} {pjob : ℕ} {job : Job} (r : Option (AddOutcome × Pool))
    → AddView p cells pjob job r
    → r ≢ none
add_returns _ (asleep f q d) e = cc
add_returns _ (refused w) e = cc
add_returns _ (linked f q d ne u l) e = cc

pub work_returns :
    {p : Pool} {cells : Cells Job} (r : Option (WorkOutcome × Pool)) → WorkView p cells r → r ≢ none
work_returns _ (sleeps q d) e = cc
work_returns _ (exits d) e = cc
work_returns _ (takes x xs cut d t) e = cc

pub work_next_returns :
    (s : System) (i : ℕ) (r : Option (WorkOutcome × Pool))
    → r ≢ none
    → is_none (work_next s i r) ≡ false
unfolding work_next
work_next_returns s i none ne = absurd (ne refl)
work_next_returns s i (some (wait_not_empty, p)) ne = refl
work_next_returns s i (some (exit_thread, p)) ne = refl
work_next_returns s i (some (took a e f, p)) ne = refl

pub add_next_returns :
    (s : System) (i : ℕ) (job : Job) (r : Option (AddOutcome × Pool))
    → r ≢ none
    → is_none (add_next s i job r) ≡ false
unfolding add_next
add_next_returns s i job none ne = absurd (ne refl)
add_next_returns s i job (some (wait_not_full, p)) ne = refl
add_next_returns s i job (some (add_refused, p)) ne = refl
add_next_returns s i job (some (added b, p)) ne = refl

-- Before a section.
abbrev pub in_section : Pc → Bool
in_section (adding job) = true
in_section working = true
in_section destroying = true
in_section destroy_resuming = true
in_section _ = false
