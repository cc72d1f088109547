-- ===== src/HashLock/Tests.antt =====
-- The table of Pthread/hashlock.c: an object with the identifier -1 is made and held.
use linux_system_code.Common.{◌≤◌, ◌∷◌, ◌≢◌, List, ◌+◌, false, true, ℕ, ◌≡◌, ◌<◌, refl, [], arith}
use linux_system_code.Store.{Cells}
use linux_system_code.HashLock.{nhash, hash, Foo, State, foo_alloc}
use linux_system_code.HashLock.Counter.{
  Counter, Event, insert, read_number, write_number, write_back, count_step, one_by_one,
  number_bounds,
}
use linux_system_code.HashLock.Table.{IsTable, IsTable-empty, empty, inserted, foo_alloc-inserts}

-- The 32 bits of -1.
abbrev minus_one : ℕ
minus_one = 4294967295

-- (2 ^ 64 - 1) % 29
minus_one_bucket : hash minus_one ≡ 23
minus_one_bucket = refl

abbrev one_foo : ℕ → Cells Foo
one_foo = inserted empty (λ _. []) IsTable-empty 10 minus_one (λ e. omega arith) refl

foo_alloc-inserts_example :
    (hash minus_one < nhash)
    × (t : State) × (foo_alloc empty 10 0 minus_one ≡ (10, t))
    × IsTable t one_foo
foo_alloc-inserts_example =
    foo_alloc-inserts empty (λ _. []) IsTable-empty 10 minus_one (λ e. omega arith) refl

-- The state after the call.
abbrev one_made : State
one_made = (foo_alloc-inserts empty (λ _. []) IsTable-empty 10 minus_one (λ e. omega arith) refl).1

-- Two callers read the same value, and one count is lost.
abbrev both_read : List Event
both_read = insert ∷ insert ∷ read_number ∷ read_number ∷ write_number 0 ∷ write_number 0 ∷ []

abbrev lost_count : Counter
lost_count = record { number = 2; inserted = 0; read = []; counted = 2 }

number_bounds_example :
    (lost_count.number ≤ lost_count.counted + 1)
    × (lost_count.counted ≢ 0 → 2 ≤ lost_count.number)
    × (one_by_one false both_read ≡ true → lost_count.number ≡ lost_count.counted + 1)
unfolding count_step write_back
number_bounds_example = number_bounds both_read lost_count refl
