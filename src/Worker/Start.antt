-- ===== src/Worker/Start.antt =====
-- src/worker/reactor.rs, `Reactor::start`. A worker thread is listed by its number and its queues; what
-- it does is in Worker/Thread. Nothing in the source stores `false` in `running` or queues a task, so
-- the workers find nothing, and a `start` that joins them returns only when they have ended.
pub mod Closing
pub mod Composition
pub mod Tallies
pub mod Tasks
pub mod Writes
use rust_kernel_engine.Base.{
  ℕ, ℤ, suc, List, [], ◌∷◌, Bool, true, false, Option, Outcome, ok, err, panic,
}
use rust_kernel_engine.Std.Keys.{Text}
use rust_kernel_engine.Os.{Trace}
use rust_kernel_engine.Worker.ArrayQueue.{ArrayQueue}
use rust_kernel_engine.Worker.LockFree.{Store}
use rust_kernel_engine.Worker.Queue
use rust_kernel_engine.Worker.Queue.{Task, WorkStealingQueue}
use rust_kernel_engine.Worker.Listener.{create_listen_socket}
use rust_kernel_engine.Worker.Metrics.{Prometheus, Reactor}
use rust_kernel_engine.Worker.Reactor.{Environment, Metrics, event_loop}

pub record Started (aq : ArrayQueue Task) : Type 0 where
  pub result : Outcome (Unit {0})
  pub trace : Trace
  pub metrics : Metrics
  pub threads : List (ℕ × WorkStealingQueue)
  pub store : Store aq

abbrev pub enumerate {ℓ} : {A : Type ℓ} → ℕ → List A → List (ℕ × A)
enumerate i [] = []
enumerate i (x ∷ xs) = (i, x) ∷ enumerate (suc i) xs

module _ (aq : ArrayQueue Task) (prometheus : Prometheus) (env : Environment)
    (parse_ipv4 : Text → Option ℕ) where
  -- What follows the socket: the threads, then the event loop.
  after_socket :
      ℕ
      → List Bool
      → Reactor prometheus
      → List WorkStealingQueue
      → Store aq
      → Outcome ℤ × Trace
      → Started aq
  after_socket backlog loads self queues store (ok listen_fd, t) =
      let (result, t', m) = event_loop env self.config backlog listen_fd loads self.metrics t in
      record {
        result = result;
        trace = t';
        metrics = m;
        threads = enumerate 0 queues;
        store = store;
      }
  after_socket backlog loads self queues store (err e, t) = record {
    result = err e;
    trace = t;
    metrics = self.metrics;
    threads = [];
    store = store;
  }
  after_socket backlog loads self queues store (panic, t) = record {
    result = panic;
    trace = t;
    metrics = self.metrics;
    threads = [];
    store = store;
  }

  after_queues :
      ℕ
      → List Bool
      → Reactor prometheus
      → Trace
      → Outcome (List WorkStealingQueue × Store aq)
      → Started aq
  unfolding after_socket
  after_queues backlog loads self t (ok (queues, store)) =
      after_socket backlog loads self queues store
        (create_listen_socket env.kernel parse_ipv4 self.config t)
  after_queues backlog loads self t (err e) = record {
    result = err e;
    trace = t;
    metrics = self.metrics;
    threads = [];
    store = [];
  }
  after_queues backlog loads self t panic = record {
    result = panic;
    trace = t;
    metrics = self.metrics;
    threads = [];
    store = [];
  }

  unfoldable pub start : ℕ → List Bool → Reactor prometheus → Trace → Started aq
  unfolding after_queues
  start backlog loads self t =
      after_queues backlog loads (record self { running = true }) t
        (Queue.new aq self.config.num_workers 1024 [])
