-- ===== src/Worker/Thread/Drains.antt =====
-- What a worker takes from the queues.
use mathlib.Core.List.{Perm}
use mathlib.Core.List.Perm
use mathlib.Core.Option.{some-injective}
use rust_kernel_engine.Base.{
  ℕ, ◌≡◌, refl, List, [], ◌∷◌, ◌++◌, Bool, true, false, Option, none, some,
}
use rust_kernel_engine.Os.{Kernel, Trace}
use rust_kernel_engine.Worker.ArrayQueue.{ArrayQueue, IsFifo}
use rust_kernel_engine.Worker.LockFree.{Store}
use rust_kernel_engine.Worker.LockFree.Laws.{Takes, took, missed, all_items}
use rust_kernel_engine.Worker.Queue
use rust_kernel_engine.Worker.Queue.{
  Task, shutdown, new_connection, process_request, send_response, close_connection,
  WorkStealingQueue,
}
use rust_kernel_engine.Worker.Queue.Stealing.{pop-first_task}
use rust_kernel_engine.Worker.Thread.{Drained, after_task, worker_rounds, worker_thread}

-- Nothing stands behind a `Shutdown`.
abbrev pub EndsAtShutdown : List Task → Type 0
EndsAtShutdown [] = Unit
EndsAtShutdown (shutdown ∷ tasks) = tasks ≡ []
EndsAtShutdown (_ ∷ tasks) = EndsAtShutdown tasks

module _ (aq : ArrayQueue Task) (fifo : IsFifo aq) where
  abbrev items : Store aq → List Task
  items store = all_items aq fifo store

  abbrev pub Drains : Store aq → Drained aq → Type 0
  Drains store d = Perm (items store) (d.taken ++ items d.store) × EndsAtShutdown d.taken

  after_task-Drains :
      (task : Task) (store store' : Store aq) (rest : Drained aq)
      → Perm (items store) (task ∷ items store')
      → Drains store' rest
      → Drains store (after_task aq task rest store')
  unfolding after_task
  after_task-Drains shutdown store store' rest p d = (p, refl)
  after_task-Drains (new_connection fd) store store' rest p (q, e) =
      (Perm.trans p (Perm.cons _ q), e)
  after_task-Drains (process_request fd payload) store store' rest p (q, e) =
      (Perm.trans p (Perm.cons _ q), e)
  after_task-Drains (send_response fd response) store store' rest p (q, e) =
      (Perm.trans p (Perm.cons _ q), e)
  after_task-Drains (close_connection fd) store store' rest p (q, e) =
      (Perm.trans p (Perm.cons _ q), e)

  abbrev go_on : Option Task → Drained aq → Store aq → Drained aq
  go_on found rest store' = elim found [ none ↦ rest | some task ↦ after_task aq task rest store' ]

  pop-Drains :
      (found : Option Task) (store store' : Store aq) (rest : Drained aq)
      → Takes aq fifo store found store'
      → Drains store' rest
      → Drains store (go_on found rest store')
  pop-Drains none store store' rest (missed _ same) d = rw (← same) d
  pop-Drains (some task) store store' rest (took x e p) d =
      after_task-Drains task store store' rest (rw (some-injective _ _ e) p) d
  pop-Drains none store store' rest (took x e p) d = absurd (cc)
  pop-Drains (some task) store store' rest (missed e _) d = absurd (cc)

  worker_rounds-Drains :
      (w : WorkStealingQueue) (loads : List Bool) (store : Store aq)
      → Drains store (worker_rounds aq w loads store)
  unfolding worker_rounds
  worker_rounds-Drains w [] store = (Perm.refl _, tt)
  worker_rounds-Drains w (false ∷ loads) store = (Perm.refl _, tt)
  worker_rounds-Drains w (true ∷ loads) store =
      pop-Drains (Queue.pop aq w store).0 store (Queue.pop aq w store).1 _
        (pop-first_task aq fifo w store).1 (worker_rounds-Drains w loads (Queue.pop aq w store).1)

  -- A worker takes every task out of the queues at most once and leaves the others there, and it
  -- takes nothing behind a `Shutdown`, whatever the queues hold and however often it looks.
  pub worker_thread-Drains :
      (kernel : Kernel) (num_cpus worker_id : ℕ) (w : WorkStealingQueue) (loads : List Bool)
      (store : Store aq) (t : Trace)
      → Drains store (worker_thread aq kernel num_cpus worker_id w loads store t).0
  unfolding worker_thread
  worker_thread-Drains kernel num_cpus worker_id w loads store t =
      worker_rounds-Drains w loads store
