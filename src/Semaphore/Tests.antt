-- ===== src/Semaphore/Tests.antt =====
-- The semaphores of Pthread/信号量.c with the values of `main`, 5 and 2, and with 5 and 0.
use linux_system_code.Common.{ℕ, ◌≡◌, ◌≢◌, arith, refl, ◌≤◌, length}
use linux_system_code.Store.{Cells, null, first, Chain}
use linux_system_code.Semaphore.Defs.{
  State, Event, blocked, fault, producer_section, step, init, Reach, start, later, producer_wait,
  producer_runs,
}
use linux_system_code.Semaphore.Balance.{room_bound}
use linux_system_code.Semaphore.Progress.{no_deadlock}

abbrev waited : State
waited = record (init 5 0 5) { psem = 4; producers = 4; producing = 1 }

waited-Reach : Reach 5 0 5 waited
unfolding step
waited-Reach = later producer_wait start refl

room_bound_example :
    (cells : Cells ℕ) × Chain waited.nodes cells × (waited.head ≡ first cells) × (length cells ≤ 5)
room_bound_example = room_bound waited-Reach

waited-faults : step waited (producer_runs null 7) ≡ fault
unfolding step producer_section
waited-faults = refl

no_deadlock_example : (e : Event) × (step waited e ≢ blocked)
no_deadlock_example = no_deadlock 10 waited-Reach (omega arith) (omega arith) refl
