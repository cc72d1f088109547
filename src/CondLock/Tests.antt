-- ===== src/CondLock/Tests.antt =====
-- Runs of Pthread/condlock.c with two threads in `proccess_msg`: both sleep, then a message is enqueued.
use linux_system_code.Common.{◌≡◌, refl, none, some, arith}
use linux_system_code.Store.{null, node, write}
use linux_system_code.Steps.{ok, fault}
use linux_system_code.CondLock.{
  msg, State, enqueue_msg, proccess_msg, signal, enqueue, signals, process, step, init, Reach,
  start, later,
}
use linux_system_code.CondLock.Safety.{message_taken}

abbrev asleep : State
asleep = record (init 2) { ready = 0; sleeping = 2 }

asleep-Reach : Reach 2 asleep
unfolding step proccess_msg
asleep-Reach =
    later {s = record (init 2) { ready = 1; sleeping = 1 }} process (later process start refl) refl

abbrev queued : State
queued = record asleep {
  workq = 10;
  msgs = write (λ _. none) 10 (some (node msg null));
  signalling = 1;
}

queued-Reach : Reach 2 queued
unfolding step enqueue_msg
queued-Reach = later (enqueue 10) asleep-Reach refl

abbrev signalled : State
signalled = record queued { signalling = 0; sleeping = 1; ready = 1 }

signalled-Reach : Reach 2 signalled
unfolding step signal
signalled-Reach = later signals queued-Reach refl

message_taken_example : (t : State) × (step signalled process ≡ ok t) × (t.msgs 10 ≡ none)
message_taken_example = message_taken signalled-Reach (λ e. omega arith) (λ e. omega arith) refl

queued-faults : step queued (enqueue null) ≡ fault
unfolding step enqueue_msg write
queued-faults = refl
