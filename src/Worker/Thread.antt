-- ===== src/Worker/Thread.antt =====
-- src/worker/reactor.rs, `worker_thread`, on queues that no other thread uses meanwhile. Log messages
-- and the sleep after a pop without a task are left out; a worker does nothing else with its tasks.
pub mod Drains
use rust_kernel_engine.Base.{ℕ, ◌%◌, List, [], ◌∷◌, Bool, true, false, Option, none, some}
use rust_kernel_engine.Os.{Kernel, Trace}
use rust_kernel_engine.Sys.Affinity.{pin_to_cores}
use rust_kernel_engine.Worker.ArrayQueue.{ArrayQueue}
use rust_kernel_engine.Worker.LockFree.{Store}
use rust_kernel_engine.Worker.Queue
use rust_kernel_engine.Worker.Queue.{Task, shutdown, WorkStealingQueue}

-- The tasks that the worker has taken, in order, and the queues.
pub record Drained (aq : ArrayQueue Task) : Type 0 where
  pub taken : List Task
  pub store : Store aq

module _ (aq : ArrayQueue Task) where
  abbrev pub take_task : Task → Drained aq → Drained aq
  take_task task d = record d { taken = task ∷ d.taken }

  -- `match task`: the loop ends at a `Shutdown`, and goes on by `rest` otherwise.
  after_task : Task → Drained aq → Store aq → Drained aq
  after_task shutdown rest store = record { taken = shutdown ∷ []; store = store }
  after_task task rest store = take_task task rest

  -- The `while` loop, as far as the list says what `running.load` returns.
  worker_rounds : WorkStealingQueue → List Bool → Store aq → Drained aq
  unfolding after_task
  worker_rounds w [] store = record { taken = []; store = store }
  worker_rounds w (false ∷ loads) store = record { taken = []; store = store }
  worker_rounds w (true ∷ loads) store =
      let (found, store') = Queue.pop aq w store in
      let rest = worker_rounds w loads store' in
      elim found [ none ↦ rest | some task ↦ after_task task rest store' ]

  -- The number of processors is `num_cpus::get`, which is not 0. A pin that fails is only logged.
  unfoldable pub worker_thread :
      Kernel → ℕ → ℕ → WorkStealingQueue → List Bool → Store aq → Trace → Drained aq × Trace
  unfolding worker_rounds
  worker_thread kernel num_cpus worker_id w loads store t =
      let core_id = worker_id % num_cpus in
      (worker_rounds w loads store, (pin_to_cores kernel num_cpus (core_id ∷ []) t).1)
