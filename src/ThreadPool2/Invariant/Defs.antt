-- ===== src/ThreadPool2/Invariant/Defs.antt =====
-- The invariant of Pthread/pthread_pool2.0.c.
use linux_system_code.Common.{
  ℕ, ◌+◌, ◌≡◌, refl, ◌∙◌, Bool, true, false, [], arith, length, if◌then◌else◌,
}
use linux_system_code.Store.{Cells, values}
use linux_system_code.ThreadPool2.{Task, ThreadPool}
use linux_system_code.ThreadPool2.Queue.{IsQueue}
use linux_system_code.ThreadPool2.System.{
  Manager, adds, removes, System, Result, ok, blocked, fault, gone,
}

-- The number of queued tasks that the manager has read.
abbrev pub queue_read : Manager → ℕ
queue_read (adds q l) = q
queue_read (removes q l) = q
queue_read _ = 0

pub record Inv (min : ℕ) (s : System) : Type 0 where
  pub cells : Cells Task
  pub queue : IsQueue s.pool cells
  pub log : s.accepted ≡ values cells
  pub idle : s.taken ≡ []
  pub size : s.pool.queue_size ≡ 0
  pub minimum : s.pool.minnum ≡ min
  pub lives : s.pool.livenum + s.retired ≡ min + length s.accepted
  pub none_read : queue_read s.manager ≡ 0
  pub none_starts : s.to_start ≡ 0
  pub none_ends : s.to_end ≡ 0
  pub none_busy : s.pool.busynum ≡ 0

-- A step that ends well keeps the invariant, and it does not fault.
abbrev pub Good : ℕ → Result → Type 0
Good min (ok t) = Inv min t
Good min blocked = Unit
Good min fault = ⊥
Good min (gone left) = Unit

module _ (min : ℕ) (s : System) (inv : Inv min s) where
  open inv use {cells}

  pub if-Good :
      (b : Bool) (r : Result) → (b ≡ true → Good min r) → Good min (if b then r else blocked)
  if-Good true r k = k refl
  if-Good false r k = tt

  -- A new pool that differs from the old one in nothing that the invariant reads.
  pub same :
      (p : ThreadPool)
      → IsQueue p cells
      → p.queue_size ≡ s.pool.queue_size
      → p.minnum ≡ s.pool.minnum
      → p.livenum ≡ s.pool.livenum
      → p.busynum ≡ s.pool.busynum
      → Inv min (record s { pool = p })
  same p q a b c d = record {
    cells = cells;
    queue = q;
    log = inv.log;
    idle = inv.idle;
    size = a ∙ inv.size;
    minimum = b ∙ inv.minimum;
    lives = omega (arith, inv.lives, c);
    none_read = inv.none_read;
    none_starts = inv.none_starts;
    none_ends = inv.none_ends;
    none_busy = d ∙ inv.none_busy;
  }
