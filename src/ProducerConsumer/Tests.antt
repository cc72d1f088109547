-- ===== src/ProducerConsumer/Tests.antt =====
-- Runs of Pthread/生产与消费.c with five threads of each kind, as `main` starts them: a consumer sleeps,
-- then a producer makes the number 7 and wakes it.
use linux_system_code.Common.{ℕ, ◌+◌, ◌≡◌, refl, Bool, none, some, [], ◌∷◌, arith}
use linux_system_code.Store.{Cells, null, node, write, first, values, Chain}
use linux_system_code.Steps.{ok, fault}
use linux_system_code.ProducerConsumer.{
  State, producer_section, consumer_section, producer_runs, broadcast, consumer_runs, step, init,
  count, Reach, start, later,
}
use linux_system_code.ProducerConsumer.Safety.{consumer_proceeds, none_lost}

abbrev asleep : State
asleep = record (init 5) { consuming = 4; sleeping = 1 }

asleep-Reach : Reach 5 asleep
unfolding step consumer_section
asleep-Reach = later consumer_runs start refl

abbrev made : State
made = record asleep {
  head = 10;
  nodes = write (λ _. none) 10 (some (node 7 null));
  producing = 4;
  waking = 1;
  made = 1;
  made_numbers = 7 ∷ [];
}

made-Reach : Reach 5 made
unfolding step producer_section
made-Reach = later (producer_runs 10 7) asleep-Reach refl

abbrev woken : State
woken = record made { producing = 5; waking = 0; consuming = 5; sleeping = 0 }

woken-Reach : Reach 5 woken
unfolding step
woken-Reach = later broadcast made-Reach refl

consumer_proceeds_example : (t : State) × (step woken consumer_runs ≡ ok t) × (t.consumed ≡ 1)
consumer_proceeds_example = consumer_proceeds woken-Reach (λ e. omega arith) (λ e. omega arith) refl

none_lost_example :
    (cells : Cells ℕ) × Chain woken.nodes cells
    × (woken.head ≡ first cells)
    × ((t : ℕ → Bool)
        → count t woken.consumed_numbers + count t (values cells) ≡ count t woken.made_numbers)
none_lost_example = none_lost woken-Reach

woken-faults : step woken (producer_runs null 7) ≡ fault
unfolding step producer_section write
woken-faults = refl
