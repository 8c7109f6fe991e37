-- ===== src/Worker/Queue/Stealing.antt =====
-- `WorkStealingQueue::pop` of src/worker/queue.rs against the contents of the queues.
use rust_kernel_engine.Base.{◌≡◌, refl, ◌∙◌, List, [], ◌∷◌, Option, none, some}
use rust_kernel_engine.Worker.ArrayQueue.{ArrayQueue, IsFifo}
use rust_kernel_engine.Worker.LockFree.{LockFreeQueue, Store}
use rust_kernel_engine.Worker.LockFree.Laws.{Takes, took, missed, items_at, head?, pop-Takes}
use rust_kernel_engine.Worker.Queue.{Task, WorkStealingQueue, steal, pop}

module _ (aq : ArrayQueue Task) (fifo : IsFifo aq) where
  -- The oldest task of the first queue, in the order of the list, that has a task.
  abbrev pub first_task : List LockFreeQueue → Store aq → Option Task
  first_task [] store = none
  first_task (q ∷ qs) store = elim (head? aq fifo (items_at aq fifo store q)) [
    | none ↦ first_task qs store
    | some task ↦ some task
  ]

  abbrev Steals : List LockFreeQueue → Store aq → Option Task × Store aq → Type 0
  Steals qs store r = Takes aq fifo store r.0 r.1 × (r.0 ≡ first_task qs store)

  -- A `pop` of one queue, and what is done if it finds nothing.
  or_next-Steals :
      (q : LockFreeQueue) (qs : List LockFreeQueue) (store : Store aq)
      (k : Store aq → Option Task × Store aq) (o : Option Task) (store' : Store aq)
      → Steals qs store (k store)
      → Takes aq fifo store o store'
      → o ≡ head? aq fifo (items_at aq fifo store q)
      → Steals (q ∷ qs) store (elim o [ some task ↦ (some task, store') | none ↦ k store' ])
  or_next-Steals q qs store k (some task) store' rest t e = (t, rw (← e, first_task) refl)
  or_next-Steals q qs store k none store' rest (took x found p) e = cc
  or_next-Steals q qs store k none store' rest (missed _ same) e =
      rw same (rest.0, rest.1 ∙ rw (← e, first_task) refl)

  steal-Steals : (qs : List LockFreeQueue) (store : Store aq) → Steals qs store (steal aq qs store)
  unfolding steal
  steal-Steals [] store = (missed refl refl, refl)
  steal-Steals (q ∷ qs) store =
      let (t, e) = pop-Takes aq fifo q store in
      or_next-Steals q qs store (steal aq qs) _ _ (steal-Steals qs store) t e

  -- A `pop` returns the oldest task of the local queue, or else that of the first other queue with
  -- a task, and takes exactly this task out of the store; it returns nothing only if all queues
  -- that the worker knows are empty, and then changes nothing.
  pub pop-first_task :
      (w : WorkStealingQueue) (store : Store aq)
      → ((pop aq w store).0 ≡ first_task (w.local_queue ∷ w.shared_queues) store)
        × Takes aq fifo store (pop aq w store).0 (pop aq w store).1
  unfolding pop
  pop-first_task w store =
      let (t, e) = pop-Takes aq fifo w.local_queue store in
      let (t', e') =
        or_next-Steals w.local_queue w.shared_queues store (steal aq w.shared_queues) _ _
          (steal-Steals w.shared_queues store) t e in
      (e', t')
