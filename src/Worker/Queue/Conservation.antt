-- ===== src/Worker/Queue/Conservation.antt =====
-- Sequences of `push` and `pop` of src/worker/queue.rs, by any workers.
use mathlib.Core.List.{Perm, perm_middle}
use mathlib.Core.List.Perm
use mathlib.Core.Option.{some-injective}
use rust_kernel_engine.Base.{List, [], ◌∷◌, ◌++◌, Option, none, some, append-nil}
use rust_kernel_engine.Worker.ArrayQueue.{ArrayQueue, IsFifo}
use rust_kernel_engine.Worker.LockFree.{Store}
use rust_kernel_engine.Worker.LockFree.Laws.{
  Takes, took, missed, Puts, accepted, refused, all_items, push-Puts,
}
use rust_kernel_engine.Worker.Queue.{Task, WorkStealingQueue, push, pop}
use rust_kernel_engine.Worker.Queue.Stealing.{pop-first_task}

-- The calls of the workers, one after the other, each on the queue of some worker.
pub data Call : Type 0 where
  pushes : WorkStealingQueue → Task → Call
  pops : WorkStealingQueue → Call

-- What a history has done: the tasks that `push` accepted, the tasks that `pop` handed out, and
-- the queues in the end.
pub record History (aq : ArrayQueue Task) : Type 0 where
  pub taken_in : List Task
  pub handed_out : List Task
  pub store : Store aq

module _ (aq : ArrayQueue Task) where
  record_push : Task → Option Task → History aq → History aq
  record_push task none h = record h { taken_in = task ∷ h.taken_in }
  record_push task (some back) h = h

  record_pop : Option Task → History aq → History aq
  record_pop none h = h
  record_pop (some task) h = record h { handed_out = task ∷ h.handed_out }

  unfoldable pub run : Store aq → List Call → History aq
  unfolding record_push record_pop
  run store [] = record { taken_in = []; handed_out = []; store = store }
  run store (pushes w task ∷ calls) =
      let (back, store') = push aq w task store in record_push task back (run store' calls)
  run store (pops w ∷ calls) =
      let (found, store') = pop aq w store in record_pop found (run store' calls)

module _ (aq : ArrayQueue Task) (fifo : IsFifo aq) where
  abbrev items : Store aq → List Task
  items store = all_items aq fifo store

  abbrev Conserves : Store aq → History aq → Type 0
  Conserves store h = Perm (items store ++ h.taken_in) (h.handed_out ++ items h.store)

  push-Conserves :
      (store : Store aq) (task : Task) (o : Option Task) (store' : Store aq) (h : History aq)
      → Puts aq fifo task store o store'
      → Conserves store' h
      → Conserves store (record_push aq task o h)
  unfolding record_push
  push-Conserves store task none store' h (accepted _ p) c =
      Perm.trans (perm_middle (items store) h.taken_in)
        (Perm.trans (Perm.symm (Perm.append_right h.taken_in p)) c)
  push-Conserves store task (some back) store' h (refused _ same) c = rw (← same) c
  push-Conserves store task none store' h (refused e _) c = absurd (cc)
  push-Conserves store task (some back) store' h (accepted e _) c = absurd (cc)

  pop-Conserves :
      (store : Store aq) (o : Option Task) (store' : Store aq) (h : History aq)
      → Takes aq fifo store o store'
      → Conserves store' h
      → Conserves store (record_pop aq o h)
  unfolding record_pop
  pop-Conserves store none store' h (missed _ same) c = rw (← same) c
  pop-Conserves store (some task) store' h (took x e p) c =
      rw (some-injective _ _ e) (Perm.trans (Perm.append_right h.taken_in p) (Perm.cons x c))
  pop-Conserves store none store' h (took x e p) c = absurd (cc)
  pop-Conserves store (some task) store' h (missed e _) c = absurd (cc)

  -- In any sequence of pushes and pops by any workers, the tasks that were there and the tasks that
  -- were accepted are, as multisets, the tasks that were handed out and the tasks still queued.
  run-conserves :
      (store : Store aq) (calls : List Call)
      → Perm
          (items store ++ (run aq store calls).taken_in)
          ((run aq store calls).handed_out ++ items (run aq store calls).store)
  unfolding run push
  run-conserves store [] = rw append-nil (Perm.refl _)
  run-conserves store (pushes w task ∷ calls) =
      push-Conserves store task _ _ _ (push-Puts aq fifo w.local_queue task store)
        (run-conserves (push aq w task store).1 calls)
  run-conserves store (pops w ∷ calls) =
      pop-Conserves store _ _ _ (pop-first_task aq fifo w store).1
        (run-conserves (pop aq w store).1 calls)
