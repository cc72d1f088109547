-- ===== src/PhreadPool/Invariant/Moves.antt =====
-- A step moves one thread and wakes others: what this does to the parts of the invariant that speak
-- of every thread.
use mathlib.Core.Path.{subst}
use linux_system_code.Common.{
  ℕ, ◌≡◌, ◌≢◌, refl, ap, sym, ◌∙◌, ◌<◌, ◌≤◌, ◌++◌, ◌⊎◌, Bool, true, ltb, arith, inl, inr, ◌==◌,
  Bool-cases,
}
use linux_system_code.PhreadPool.System.{
  System, Pc, add_waiting, work_waiting, busy, exited, closing, set_pc, wake_not_empty,
  wake_not_full, wake_empty,
}
use linux_system_code.PhreadPool.Invariant.Defs.{Fits, is_worker, Inv}
use linux_system_code.Store.{Cells, values}
use linux_system_code.PhreadPool.{Pool, Job}
use linux_system_code.PhreadPool.Queue.{IsQueue}

-- `w` wakes sleepers, and changes no other thread.
pub record Wakes (w : Pc → Pc) : Type 0 where
  pub busy_of : (x : Pc) (a : ℕ) → w x ≡ busy a → x ≡ busy a
  pub worker_of : (x : Pc) → is_worker (w x) ≡ is_worker x
  pub exited_of : w exited ≡ exited
  pub closing_of : w closing ≡ closing

pub Wakes-not_empty : (b : Bool) → Wakes (wake_not_empty b)
Wakes-not_empty b = record {
  busy_of = λ x a. ground arith;
  worker_of = λ x. ground arith;
  exited_of = refl;
  closing_of = refl;
}

pub Wakes-not_full : (b : Bool) → Wakes (wake_not_full b)
Wakes-not_full b = record {
  busy_of = λ x a. ground arith;
  worker_of = λ x. ground arith;
  exited_of = refl;
  closing_of = refl;
}

pub Wakes-empty : (b : Bool) → Wakes (wake_empty b)
Wakes-empty b = record {
  busy_of = λ x a. ground arith;
  worker_of = λ x. ground arith;
  exited_of = refl;
  closing_of = refl;
}

pub Wakes-none : Wakes (λ x. x)
Wakes-none = record {
  busy_of = λ x a e. e;
  worker_of = λ x. refl;
  exited_of = refl;
  closing_of = refl;
}

pub Wakes-both : {v w : Pc → Pc} → Wakes v → Wakes w → Wakes (λ x. v (w x))
Wakes-both {v} {w} vs ws = record {
  busy_of = λ x a e. ws.busy_of x a (vs.busy_of (w x) a e);
  worker_of = λ x. vs.worker_of (w x) ∙ ws.worker_of x;
  exited_of = ap v ws.exited_of ∙ vs.exited_of;
  closing_of = ap v ws.closing_of ∙ vs.closing_of;
}

abbrev pub moved : (Pc → Pc) → (ℕ → Pc) → ℕ → Pc → ℕ → Pc
moved w pc i new = set_pc (λ j. w (pc j)) i new

module _ (w : Pc → Pc) (pc : ℕ → Pc) (i : ℕ) (new : Pc) where
  pub moved-all :
      (P : ℕ → Pc → Type 0)
      → ((k : ℕ) → i ≢ k → P k (w (pc k)))
      → P i new
      → (k : ℕ) → P k (moved w pc i new k)
  moved-all P others own k = elim (Bool-cases (i == k)) [
    | inl same ↦ rw same (let e : i ≡ k = ground arith in rw (← e) own)
    | inr other ↦ rw other (others k (ground arith))
  ]

  module _ (ws : Wakes w) where
    moved-busy :
        (a k : ℕ) → moved w pc i new k ≡ busy a → ((i ≡ k) × (new ≡ busy a)) ⊎ (pc k ≡ busy a)
    moved-busy a =
        moved-all (λ k x. x ≡ busy a → ((i ≡ k) × (new ≡ busy a)) ⊎ (pc k ≡ busy a))
          (λ k ne e. inr (ws.busy_of (pc k) a e)) (λ e. inl (refl, e))

    pub moved_unique :
        ((a : ℕ) → new ≡ busy a → (j : ℕ) → pc j ≢ busy a)
        → ((k l a : ℕ) → pc k ≡ busy a → pc l ≡ busy a → k ≡ l)
        → (k l a : ℕ) → moved w pc i new k ≡ busy a
        → moved w pc i new l ≡ busy a
        → k ≡ l
    moved_unique fresh old k l a p q = elim (moved-busy a k p) [
      | inl (ek, n) ↦ elim (moved-busy a l q) [
        | inl (el, _) ↦ sym ek ∙ el
        | inr pl ↦ absurd (fresh a n l pl)
      ]
      | inr pk ↦ elim (moved-busy a l q) [
        | inl (_, n) ↦ absurd (fresh a n k pk)
        | inr pl ↦ old k l a pk pl
      ]
    ]

    -- The thread that is about to broadcast is still there.
    pub moved-closing : (o : ℕ) → pc i ≢ closing → pc o ≡ closing → moved w pc i new o ≡ closing
    moved-closing o ne =
        moved-all (λ k x. pc k ≡ closing → x ≡ closing) (λ k apart e. ap w e ∙ ws.closing_of)
          (λ e. absurd (ne e)) o

    pub moved-role :
        (n : ℕ)
        → is_worker new ≡ is_worker (pc i)
        → ((k : ℕ) → is_worker (pc k) ≡ ltb k n)
        → (k : ℕ) → is_worker (moved w pc i new k) ≡ ltb k n
    moved-role n same old =
        moved-all (λ k x. is_worker x ≡ ltb k n) (λ k ne. ws.worker_of (pc k) ∙ old k)
          (same ∙ old i)

    pub moved-gone :
        (n : ℕ)
        → pc i ≢ exited
        → ((k : ℕ) → k < n → pc k ≡ exited)
        → (k : ℕ) → k < n
        → moved w pc i new k ≡ exited
    moved-gone n ne old k h = elim (Bool-cases (i == k)) [
      | inl same ↦ let e : i ≡ k = ground arith in absurd (ne (ap pc e ∙ old k h))
      | inr other ↦ rw other (ap w (old k h) ∙ ws.exited_of)
    ]

-- While the pool is as before, a place fits as before, if the closing thread is still there.
pub Fits-quiet :
    (p : Pool) (cells : Cells Job) (o k : ℕ) (q q' : Pc) (x : Pc)
    → (q ≡ closing → q' ≡ closing)
    → Fits p cells o q k x
    → Fits p cells o q' k x
Fits-quiet p cells o k q q' (add_waiting job) still f = (f.0, λ c. still (f.1 c))
Fits-quiet p cells o k q q' work_waiting still f = (f.0, λ c. still (f.1 c))
Fits-quiet p cells o k q q' _ still f = f

-- A step of thread `i`, which then stands at `new`, while `w` wakes others: it keeps the invariant
-- if the queue stays a queue, the history agrees with it, and the places of the threads fit.
module _ {s : System} (inv : Inv s) {w : Pc → Pc} (ws : Wakes w) (i : ℕ) (new : Pc) (t : System)
    (cells : Cells Job) where
  abbrev after : System
  after = record t { pc = moved w s.pc i new; freed = s.freed }

  pub Inv-moved :
      s.pc i ≢ exited
      → is_worker new ≡ is_worker (s.pc i)
      → ((a : ℕ) → new ≡ busy a → (j : ℕ) → s.pc j ≢ busy a)
      → t.pool.thread_num ≡ s.pool.thread_num
      → IsQueue t.pool cells
      → t.pool.queue_cur_num ≤ t.pool.queue_max_num
      → t.accepted ≡ t.taken ++ values cells
      → (t.pool.pool_close ≡ true → (t.pool.queue_close ≡ true) × (t.pool.queue_cur_num ≡ 0))
      → ((k : ℕ) → i ≢ k → Fits t.pool cells t.owner (after.pc t.owner) k (w (s.pc k)))
      → Fits t.pool cells t.owner (after.pc t.owner) i new
      → Inv after
  Inv-moved alive kind fresh threads queue bound log closed others own = record {
    cells = cells;
    queue = queue;
    bound = bound;
    log = log;
    closed = closed;
    fits = moved-all w s.pc i new (Fits t.pool cells t.owner (after.pc t.owner)) others own;
    unique = moved_unique w s.pc i new ws fresh inv.unique;
    role = moved-role w s.pc i new ws t.pool.thread_num kind (λ k. rw threads (inv.role k));
    gone = λ free k h.
        moved-gone w s.pc i new ws s.pool.thread_num alive (inv.gone free) k (rw threads at h);
  }

  pub others-quiet :
      s.pc i ≢ closing
      → (k : ℕ) → i ≢ k
      → Fits s.pool inv.cells s.owner (after.pc s.owner) k (s.pc k)
  others-quiet ne k apart =
      Fits-quiet s.pool inv.cells s.owner k (s.pc s.owner) (after.pc s.owner) (s.pc k)
        (moved-closing w s.pc i new ws s.owner ne) (inv.fits k)

-- What the place of a thread says, when it is known.
pub Fits-at :
    {s : System} (inv : Inv s) {i : ℕ} {x : Pc}
    → s.pc i ≡ x
    → Fits s.pool inv.cells s.owner (s.pc s.owner) i x
Fits-at {s} inv {i} e = subst (Fits s.pool inv.cells s.owner (s.pc s.owner) i) e (inv.fits i)
