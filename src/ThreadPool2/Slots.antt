-- ===== src/ThreadPool2/Slots.antt =====
-- The slots of `threadIDs` in Pthread/pthread_pool2.0.c: `threadExit` empties one, `threadPoolDestroy`
-- joins the others, and the manager is to fill the empty ones.
use mathlib.Core.Path.{subst}
use linux_system_code.Common.{
  ℕ, ◌+◌, ◌≡◌, ◌≢◌, refl, none, some, Option, List, [], ◌∷◌, ◌==◌, ◌&&◌, ltb, arith, if◌then◌else◌,
  if_elim,
}
use linux_system_code.ThreadPool2.{
  ThreadPool, adds_threads, manager_adds, thread_exit, empty_slot, joined,
}

-- The list without the first `x` in it.
abbrev pub remove : ℕ → List ℕ → List ℕ
remove x [] = []
remove x (y ∷ ys) = if y == x then ys else y ∷ remove x ys

empty_slot-remove :
    (tid : ℕ) (ids : List ℕ) → tid ≢ 0 → joined (empty_slot tid ids) ≡ remove tid (joined ids)
empty_slot-remove tid [] ne = refl
empty_slot-remove tid (x ∷ ids) ne = ground (arith, empty_slot-remove tid ids ne)

-- After threadExit of the thread tid, threadPoolDestroy joins the same threads as before in the same
-- order, but for the first one with that id.
pub thread_exit-joined :
    (p : ThreadPool) (tid : ℕ)
    → tid ≢ 0
    → joined (thread_exit p tid).thread_ids ≡ remove tid (joined p.thread_ids)
unfolding thread_exit
thread_exit-joined p tid ne = empty_slot-remove tid p.thread_ids ne

-- A result that, if there is one, is `p`.
abbrev IsSame : ThreadPool → Option ThreadPool → Type 0
IsSame p none = Unit
IsSame p (some t) = t ≡ p

IsSame-adds_threads :
    (ids : List ℕ) (i q l m : ℕ) (p : ThreadPool) → IsSame p (adds_threads ids i q l m p)
unfolding adds_threads
IsSame-adds_threads [] i q l m p =
    if_elim (IsSame p) (ltb (i + l) q && ltb (i + l) m) none (some p) (λ _. tt) (λ _. refl)
IsSame-adds_threads (tid ∷ ids) i q l m p =
    let rest : Option ThreadPool = adds_threads ids (i + 1) q l m p in
    let here : Option ThreadPool = if tid == 0 then none else rest in
    if_elim (IsSame p) (ltb (i + l) q && ltb (i + l) m) here (some p)
      (λ _.
        if_elim (IsSame p) (tid == 0) none rest (λ _. tt)
          (λ _. IsSame-adds_threads ids (i + 1) q l m p))
      (λ _. refl)

-- The manager adds no thread, whatever numbers it has read: if the part of its round that is to
-- create threads does not fault, it leaves the pool as it was.
pub manager_adds-same :
    (q l : ℕ) (p : ThreadPool) {t : ThreadPool} → manager_adds q l p ≡ some t → t ≡ p
unfolding manager_adds
manager_adds-same q l p {t} e =
    let rest : Option ThreadPool = adds_threads p.thread_ids 0 q l p.maxnum p in
    subst (IsSame p) e (
      if_elim (IsSame p) (ltb l q && ltb l p.maxnum) rest (some p)
        (λ _. IsSame-adds_threads p.thread_ids 0 q l p.maxnum p) (λ _. refl))
