-- ===== src/PhreadPool1/Threads/Histories.antt =====
-- What the operations of Pthread/phread_pool1.0.c on the queue add to the histories of its jobs.
use linux_system_code.Common.{
  ℕ, ◌+◌, ◌≡◌, refl, sym, ap, ◌∙◌, true, false, not, ◌&&◌, Option, none, some, [], ◌∷◌, ◌++◌, ◌==◌,
  if_elim, length, length-append, arith,
}
use linux_system_code.Store.{
  Store, Node, null, node, write, load, malloc_can_return, first, values, Cells, Chain,
}
use linux_system_code.Steps.{ok, fault, Keeps}
use linux_system_code.PhreadPool1.{
  Job, Pool, link_last, thread_pool_init, thread_pool_enqueue, take_job, thread_function,
}
use linux_system_code.PhreadPool1.Queue.{Reach-Inv}
use linux_system_code.PhreadPool1

-- What the operations on the queue do to the histories and the flag.
abbrev pub Enqueued : Pool → Pool → Type 0
Enqueued p q =
    (length q.enqueued ≡ length p.enqueued + 1)
    × (q.taken ≡ p.taken)
    × (q.is_shutdown ≡ p.is_shutdown)

abbrev pub Took : Pool → Pool → Type 0
Took p q =
    (q.enqueued ≡ p.enqueued)
    × (length q.taken ≡ length p.taken + 1)
    × (q.is_shutdown ≡ p.is_shutdown)

pub link_last-Enqueued :
    (p : Pool) (new_job : ℕ) (job : Job) (jobs : Store Job) (o : Option (Node Job))
    → Keeps (Enqueued p) (link_last p new_job job jobs o)
link_last-Enqueued p new_job job jobs none = tt
link_last-Enqueued p new_job job jobs (some n) = (length-append p.enqueued (job ∷ []), refl, refl)

pub thread_pool_enqueue-Enqueued :
    (p : Pool) (new_job : ℕ) (job : Job) → Keeps (Enqueued p) (thread_pool_enqueue p new_job job)
unfolding thread_pool_enqueue
thread_pool_enqueue-Enqueued p new_job job =
    if_elim (Keeps (Enqueued p)) (new_job == null) fault _ (λ _. tt)
      (λ _.
        if_elim (Keeps (Enqueued p)) (p.queue_tail == null) (ok _) _
          (λ _. (length-append p.enqueued (job ∷ []), refl, refl))
          (λ _.
            link_last-Enqueued p new_job job _
              (load (write p.jobs new_job (some (node job null))) p.queue_tail)))

pub take_job-Took : (p : Pool) (o : Option (Node Job)) → Keeps (Took p) (take_job p o)
take_job-Took p none = tt
take_job-Took p (some n) = (refl, length-append p.taken (n.value ∷ []), refl)

pub counts :
    (p : Pool) → PhreadPool1.Reach p → p.queue_head ≡ null → length p.enqueued ≡ length p.taken
counts p r e = let inv = Reach-Inv r in no_cells inv.cells inv.chain (sym inv.head ∙ e) inv.log
  where
    no_cells :
        (cells : Cells Job)
        → Chain p.jobs cells
        → first cells ≡ null
        → p.enqueued ≡ p.taken ++ values cells
        → length p.enqueued ≡ length p.taken
    no_cells [] c z log = ap length log ∙ length-append p.taken [] ∙ omega arith
    no_cells (x ∷ xs) c z log = absurd (c.0 z)

pub enqueue-Reach :
    (p : Pool) (new_job : ℕ) (job : Job)
    → PhreadPool1.Reach p
    → malloc_can_return p.jobs new_job ≡ true
    → (q : Pool) → thread_pool_enqueue p new_job job ≡ ok q
    → PhreadPool1.Reach q
unfolding PhreadPool1.step
enqueue-Reach p new_job job r may q e =
    PhreadPool1.later (PhreadPool1.enqueue new_job job) r (rw may e)

pub take_job-Reach :
    (p : Pool)
    → PhreadPool1.Reach p
    → ((p.queue_head == null) && not p.is_shutdown) ≡ false
    → p.is_shutdown ≡ false
    → (q : Pool) → take_job p (load p.jobs p.queue_head) ≡ ok q
    → PhreadPool1.Reach q
unfolding PhreadPool1.step thread_function
take_job-Reach p r some_job open_pool q e =
    let some_head : (p.queue_head == null) ≡ false = ground arith in
    let here : PhreadPool1.step p (PhreadPool1.work false) ≡ take_job p (load p.jobs p.queue_head) =
      rw some_head refl in
    PhreadPool1.later (PhreadPool1.work false) r (here ∙ e)

pub shut_down-Reach :
    (p : Pool) → PhreadPool1.Reach p → PhreadPool1.Reach (record p { is_shutdown = true })
unfolding PhreadPool1.step
shut_down-Reach p r = PhreadPool1.later PhreadPool1.shut_down r refl
