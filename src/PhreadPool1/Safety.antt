-- ===== src/PhreadPool1/Safety.antt =====
-- What holds of Pthread/phread_pool1.0.c in every state that its threads reach.
use linux_system_code.Common.{◌≡◌, ◌++◌}
use linux_system_code.Store.{Cells, first, last, values, Chain}
use linux_system_code.PhreadPool1.{Job, Pool, Reach}
use linux_system_code.PhreadPool1.Queue.{Reach-Inv}

module _ {p : Pool} (r : Reach p) where
  -- The jobs enqueued are, in order, those that workers have taken, followed by those linked from
  -- queue_head to queue_tail.
  pub fifo :
      (cells : Cells Job) × Chain p.jobs cells
      × (p.queue_head ≡ first cells)
      × (p.queue_tail ≡ last cells)
      × (p.enqueued ≡ p.taken ++ values cells)
  fifo = let inv = Reach-Inv r in (inv.cells, inv.chain, inv.head, inv.tail, inv.log)
