-- ===== src/PhreadPool1/Queue.antt =====
-- What every step of Pthread/phread_pool1.0.c keeps.
use mathlib.Core.Path.{subst}
use mathlib.Core.List.{append_assoc}
use linux_system_code.Common.{
  ℕ, ◌≡◌, ◌≢◌, refl, sym, ap, ◌∙◌, Bool, true, false, not, ◌&&◌, Option, none, some, List, [], ◌∷◌,
  ◌++◌, ◌==◌, if◌then◌else◌, if_elim, arith,
}
use linux_system_code.Store.{
  Node, Store, Cells, null, node, write, load, first, last, has, values, Chain, malloc_can_return,
}
use linux_system_code.Store.Chains.{
  Chain-write, Chain-snoc, not-has_of_none, write_self, load-last, last-append, values-append,
}
use linux_system_code.Steps.{ok, blocked, fault, Keeps, Keeps-if, Keeps-ok}
use linux_system_code.PhreadPool1.{
  Job, Pool, link_last, thread_pool_enqueue, take_job, thread_function, Event, enqueue, work,
  shut_down, step, Reach, start, later,
}

pub record Inv (p : Pool) : Type 0 where
  pub cells : Cells Job
  pub chain : Chain p.jobs cells
  pub head : p.queue_head ≡ first cells
  pub tail : p.queue_tail ≡ last cells
  pub log : p.enqueued ≡ p.taken ++ values cells

-- The tail is reset when the last job is taken.
next_tail :
    (jobs : Store Job) (old : ℕ) (x : ℕ × Job) (xs : Cells Job)
    → Chain jobs (x ∷ xs)
    → old ≡ last (x ∷ xs)
    → (if first xs == null then null else old) ≡ last xs
next_tail jobs old x [] k t = refl
next_tail jobs old x ((b, w) ∷ ys) k t =
    let nonnull : (b == null) ≡ false = ground arith in rw nonnull t

module _ (p : Pool) (inv : Inv p) where
  open inv use {cells}

  logged :
      (new_job : ℕ) (job : Job)
      → p.enqueued ++ job ∷ [] ≡ p.taken ++ values (cells ++ (new_job, job) ∷ [])
  logged new_job job =
      ap (λ (t : List Job). t ++ job ∷ []) inv.log
      ∙ append_assoc p.taken (values cells) (job ∷ [])
      ∙ ap (λ (t : List Job). p.taken ++ t) (sym (values-append cells new_job job))

  module _ (new_job : ℕ) (job : Job) (nonnull : new_job ≢ null)
      (unused : p.jobs new_job ≡ none) where
    abbrev filled : Store Job
    filled = write p.jobs new_job (some (node job null))

    abbrev alone : Pool
    alone = record p {
      queue_head = new_job;
      queue_tail = new_job;
      jobs = filled;
      enqueued = p.enqueued ++ job ∷ [];
    }

    behind :
        (x : ℕ × Job) (xs : Cells Job)
        → cells ≡ x ∷ xs
        → (w : Job) → has new_job (x ∷ xs) ≡ false
        → Chain filled (x ∷ xs)
        → load filled (last (x ∷ xs)) ≡ some (node w null)
        → p.queue_tail ≡ last (x ∷ xs)
        → Keeps Inv (link_last p new_job job filled (some (node w null)))
    behind x xs cut w out old last_node t = record {
      cells = (x ∷ xs) ++ (new_job, job) ∷ [];
      chain =
          subst
            (λ b. Chain (write filled b (some (node w new_job))) ((x ∷ xs) ++ (new_job, job) ∷ []))
            (sym t)
            (Chain-snoc filled x xs new_job job w nonnull (write_self p.jobs new_job _) out
              last_node old);
      head = inv.head ∙ ap first cut;
      tail = sym (last-append (x ∷ xs) new_job job);
      log =
          logged new_job job
          ∙ ap (λ (c : Cells Job). p.taken ++ values (c ++ (new_job, job) ∷ [])) cut;
    }

    linked :
        (xs : Cells Job)
        → cells ≡ xs
        → Keeps Inv (
            if p.queue_tail == null
            then ok alone
            else link_last p new_job job filled (load filled p.queue_tail))
    linked [] cut =
        let empty : (p.queue_tail == null) ≡ true =
          let t : p.queue_tail ≡ null = inv.tail ∙ ap last cut in ground arith in
        rw empty (record {
          cells = (new_job, job) ∷ [];
          chain = (nonnull, write_self p.jobs new_job _, refl, tt);
          head = refl;
          tail = refl;
          log = rw cut at (logged new_job job);
        })
    linked (x ∷ xs) cut =
        let k : Chain p.jobs (x ∷ xs) = rw cut at inv.chain in
        let out : has new_job (x ∷ xs) ≡ false = not-has_of_none p.jobs (x ∷ xs) new_job unused k in
        let old : Chain filled (x ∷ xs) =
          Chain-write p.jobs (x ∷ xs) new_job (some (node job null)) out k in
        let (w, last_node) = load-last filled x xs old in
        let t : p.queue_tail ≡ last (x ∷ xs) = inv.tail ∙ ap last cut in
        let l : load filled p.queue_tail ≡ some (node w null) = ap (load filled) t ∙ last_node in
        let more : (p.queue_tail == null) ≡ false = ground arith in
        if_elim (Keeps Inv) (p.queue_tail == null) (ok alone)
          (link_last p new_job job filled (load filled p.queue_tail)) (λ e. absurd (ground arith))
          (λ _.
            subst (λ o. Keeps Inv (link_last p new_job job filled o)) (sym l)
              (behind x xs cut w out old last_node t))

  enqueue-Keeps :
      (new_job : ℕ) (job : Job)
      → malloc_can_return p.jobs new_job ≡ true
      → Keeps Inv (thread_pool_enqueue p new_job job)
  unfolding thread_pool_enqueue
  enqueue-Keeps new_job job may =
      let filled : Store Job = write p.jobs new_job (some (node job null)) in
      let alone : Pool = record p {
        queue_head = new_job;
        queue_tail = new_job;
        jobs = filled;
        enqueued = p.enqueued ++ job ∷ [];
      } in
      if_elim (Keeps Inv) (new_job == null) fault
        (if p.queue_tail == null
          then ok alone
          else link_last p new_job job filled (load filled p.queue_tail))
        (λ _. tt) (λ nz. linked new_job job (ground arith) (ground arith) cells refl)

  took :
      (xs : Cells Job)
      → cells ≡ xs
      → (n : Node Job) → load p.jobs (first xs) ≡ some n
      → Keeps Inv (take_job p (some n))
  took [] cut n l = cc
  took ((a, v) ∷ xs) cut n l =
      let k : Chain p.jobs ((a, v) ∷ xs) = rw cut at inv.chain in
      let hd : p.queue_head ≡ a = inv.head ∙ ap first cut in
      let n_is : n ≡ node v (first xs) = ground arith in
      subst (λ m. Keeps Inv (take_job p (some m))) (sym n_is)
        (record {
          cells = xs;
          chain = rw hd (Chain-write p.jobs xs a none k.2 k.3);
          head = refl;
          tail = next_tail p.jobs p.queue_tail (a, v) xs k (inv.tail ∙ ap last cut);
          log =
              inv.log
              ∙ ap (λ (c : Cells Job). p.taken ++ values c) cut
              ∙ sym (append_assoc p.taken (v ∷ []) (values xs));
        })

  by_load : (o : Option (Node Job)) → load p.jobs p.queue_head ≡ o → Keeps Inv (take_job p o)
  by_load none l = tt
  by_load (some n) l = took cells refl n (ap (load p.jobs) (sym inv.head) ∙ l)

  work-Keeps : (seen : Bool) → Keeps Inv (thread_function p seen)
  unfolding thread_function
  work-Keeps seen =
      if_elim (Keeps Inv) ((p.queue_head == null) && not seen) (ok p)
        (if seen then ok p else take_job p (load p.jobs p.queue_head)) (λ _. inv)
        (λ _.
          if_elim (Keeps Inv) seen (ok p) (take_job p (load p.jobs p.queue_head)) (λ _. inv)
            (λ _. by_load (load p.jobs p.queue_head) refl))

  step-Keeps : (e : Event) → Keeps Inv (step p e)
  unfolding step
  step-Keeps (enqueue new_job job) = Keeps-if Inv _ _ (λ b. enqueue-Keeps new_job job b)
  step-Keeps (work seen) =
      if_elim (Keeps Inv) (seen && not p.is_shutdown) blocked (thread_function p seen) (λ _. tt)
        (λ _. work-Keeps seen)
  step-Keeps shut_down = record {
    cells = cells;
    chain = inv.chain;
    head = inv.head;
    tail = inv.tail;
    log = inv.log;
  }

pub Reach-Inv : {p : Pool} → Reach p → Inv p
Reach-Inv start = record { cells = []; chain = tt; head = refl; tail = refl; log = refl }
Reach-Inv (later e r q) = Keeps-ok Inv _ _ (step-Keeps _ (Reach-Inv r) e) q
