-- ===== src/HashLock.antt =====
-- Pthread/hashlock.c: counted objects in a table of 29 linked lists.
--
-- The table is read and written under `hashlock` alone. The sections are those of `foo_alloc` and
-- `foo_hold`; `Counter` has `number`, which `foo_alloc` counts up under the lock of the new object alone.
-- An `int` is given by its 32 bits.
pub mod Table
pub mod Counter
mod Tests
use linux_system_code.Common.{
  ℕ, ◌+◌, ◌-◌, ◌%◌, ◌^◌, Option, none, some, Bool, ltb, ◌==◌, if◌then◌else◌, ◌>>=◌,
}
use linux_system_code.Store.{Node, Store, null, node, write, load}

abbrev pub nhash : ℕ
nhash = 29

-- `HASH`: the conversion to `unsigned long`, of 64 bits, extends the sign.
abbrev pub hash : (id : ℕ) → ℕ
hash id = (if ltb id (2 ^ 31) then id else id + (2 ^ 64 - 2 ^ 32)) % nhash

-- `f_next` is that of the store's node, `f_lock` is free outside the sections.
pub record Foo : Type 0 where
  pub f_count : ℕ
  pub f_id : ℕ

pub record State : Type 0 where
  pub fh : ℕ → ℕ
  pub foos : Store Foo

abbrev pub set_bucket : (ℕ → ℕ) → ℕ → ℕ → ℕ → ℕ
set_bucket fh idx fp i = if idx == i then fp else fh i

-- `foo_alloc`, where `fp` is what `malloc` returns and `code` what `pthread_mutex_init` does. It
-- returns an address.
unfoldable pub foo_alloc : State → (fp code id : ℕ) → ℕ × State
foo_alloc s fp code id =
    if fp == null
    then (null, s)
    else if code == 0
    then (
      fp,
      record {
        fh = set_bucket s.fh (hash id) fp;
        foos = write s.foos fp (some (node (record { f_count = 1; f_id = id }) (s.fh (hash id))));
      },
    )
    else (null, s)

abbrev pub hold : Foo → Foo
hold foo = record foo { f_count = foo.f_count + 1 }

-- `foo_hold`; `none` is a fault.
unfoldable pub foo_hold : State → (fp : ℕ) → Option State
foo_hold s fp = do
  foo ← load s.foos fp
  some (record s { foos = write s.foos fp (some (node (hold foo.value) foo.next)) })
