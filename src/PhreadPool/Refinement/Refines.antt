-- ===== src/PhreadPool/Refinement/Refines.antt =====
-- The threads of Pthread/phread_pool.c refine a bounded queue.
use mathlib.Core.List.{append_assoc, append_cancel_left}
use mathlib.Core.Path.{subst}
use linux_system_code.Common.{
  ℕ, ◌≡◌, ◌≤◌, sym, ap, ◌∙◌, some, List, [], ◌∷◌, ◌++◌, length, length-append, arith,
}
use linux_system_code.PhreadPool.{Job, InitCalls}
use linux_system_code.PhreadPool.System.{System, Event, step, Reach, start, later}
use linux_system_code.PhreadPool.Invariant.{Reach-Inv, init_pool}
use linux_system_code.PhreadPool.Safety.{jobs_in_order}
use linux_system_code.PhreadPool.Refinement.{
  Operation, put, take, nothing, Does, puts, takes_first, stays, in_of, out_of,
}
use linux_system_code.PhreadPool.Refinement.Histories.{Tells, append-none, step-Told}

module _ (bound : ℕ) (s t : System) (q q' : List Job) (before : s.accepted ≡ s.taken ++ q)
    (after : t.accepted ≡ t.taken ++ q') (room : length q' ≤ bound) where
  -- What the histories tell of the queue.
  told-Does : (o : Operation) → Tells s t o → Does bound q o q'
  told-Does nothing (a, k, _) =
      let e : s.taken ++ q ≡ s.taken ++ q' =
        sym before
        ∙ append-none s.accepted
        ∙ sym a
        ∙ after
        ∙ ap (λ l. l ++ q') (k ∙ sym (append-none s.taken)) in
      subst (Does bound q nothing) (append_cancel_left s.taken q q' e) stays
  told-Does (put job) (a, k, _) =
      let e : s.taken ++ (q ++ job ∷ []) ≡ s.taken ++ q' =
        sym (append_assoc s.taken q (job ∷ []))
        ∙ ap (λ l. l ++ job ∷ []) (sym before)
        ∙ sym a
        ∙ after
        ∙ ap (λ l. l ++ q') (k ∙ sym (append-none s.taken)) in
      let grown : q ++ job ∷ [] ≡ q' = append_cancel_left s.taken (q ++ job ∷ []) q' e in
      subst (Does bound q (put job)) grown
        (puts (omega (arith, room, ap length grown, length-append q (job ∷ []))))
  told-Does (take job) (a, k, _) =
      let e : s.taken ++ q ≡ s.taken ++ job ∷ q' =
        sym before
        ∙ append-none s.accepted
        ∙ sym a
        ∙ after
        ∙ ap (λ l. l ++ q') k
        ∙ append_assoc s.taken (job ∷ []) q' in
      subst (λ l. Does bound l (take job) q') (sym (append_cancel_left s.taken q (job ∷ q') e))
        takes_first

bound_kept : (c : InitCalls) (n m : ℕ) {s : System} → Reach c n m s → s.pool.queue_max_num ≡ m
bound_kept c n m (start e) = (init_pool c n m e).max
bound_kept c n m (later {s} e r d) =
    let (_, (_, _, same_bound)) = step-Told s e (Reach-Inv c n m r) d in
    same_bound ∙ bound_kept c n m r

-- Every step of every thread does what a first-in first-out queue of at most queue_max_num jobs can do: it puts
-- an accepted job behind the others when there is room, takes the first one, or leaves the queue. What is
-- put and taken is what the step accepts and what a worker takes.
pub refines :
    (c : InitCalls) (n m : ℕ) {s t : System} (e : Event)
    → Reach c n m s
    → step s e ≡ some t
    → (q : List Job) × (q' : List Job) × (o : Operation) × (s.accepted ≡ s.taken ++ q)
      × (t.accepted ≡ t.taken ++ q')
      × Does m q o q'
      × (t.accepted ≡ s.accepted ++ in_of o)
      × (t.taken ≡ s.taken ++ out_of o)
refines c n m {s} {t} e r d =
    let (q, before, _, _) = jobs_in_order c n m r in
    let next : Reach c n m t = later e r d in
    let (q', after, size, room) = jobs_in_order c n m next in
    let (o, told) = step-Told s e (Reach-Inv c n m r) d in
    let fits : length q' ≤ m = omega (arith, size, room, bound_kept c n m next) in
    (q, q', o, before, after, told-Does m s t q q' before after fits o told, told.0, told.1)
