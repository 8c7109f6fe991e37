-- ===== src/Worker/Start/Writes.antt =====
-- `Reactor::start` of src/worker/reactor.rs: what it hands to `write`.
use rust_kernel_engine.Base.{ℕ, ◌≡◌, ◌∙◌, ℤ, List, [], Bool, true, Option, Outcome, ok, err, panic}
use rust_kernel_engine.Std.Keys.{Text}
use rust_kernel_engine.Os.{Trace}
use rust_kernel_engine.Worker.ArrayQueue.{ArrayQueue}
use rust_kernel_engine.Worker.LockFree.{Store}
use rust_kernel_engine.Worker.Queue
use rust_kernel_engine.Worker.Queue.{Task, WorkStealingQueue}
use rust_kernel_engine.Worker.Listener.{create_listen_socket}
use rust_kernel_engine.Worker.Listener.Sockets.{view-create_listen_socket}
use rust_kernel_engine.Worker.Metrics.{Prometheus, Reactor}
use rust_kernel_engine.Worker.Reactor.{Environment}
use rust_kernel_engine.Worker.Reactor.Writes.{
  writes_answers, writes_answers-Ignores, event_loop-writes_answers,
}
use rust_kernel_engine.Worker.Start.{after_socket, after_queues, start}

module _ (aq : ArrayQueue Task) (prometheus : Prometheus) (env : Environment)
    (parse_ipv4 : Text → Option ℕ) where
  after_socket-writes_answers :
      (backlog : ℕ) (loads : List Bool) (self : Reactor prometheus)
      (queues : List WorkStealingQueue) (store : Store aq) (r : Outcome ℤ × Trace)
      → writes_answers r.1 ≡ true
      → writes_answers
          (after_socket aq prometheus env parse_ipv4 backlog loads self queues store r).trace
        ≡ true
  unfolding after_socket
  after_socket-writes_answers backlog loads self queues store (ok listen_fd, t) h =
      event_loop-writes_answers env self.config backlog listen_fd loads self.metrics t h
  after_socket-writes_answers backlog loads self queues store (err e, t) h = h
  after_socket-writes_answers backlog loads self queues store (panic, t) h = h

  after_queues-writes_answers :
      (backlog : ℕ) (loads : List Bool) (self : Reactor prometheus) (t : Trace)
      (r : Outcome (List WorkStealingQueue × Store aq))
      → writes_answers t ≡ true
      → writes_answers (after_queues aq prometheus env parse_ipv4 backlog loads self t r).trace
        ≡ true
  unfolding after_queues
  after_queues-writes_answers backlog loads self t (ok (queues, store)) h =
      after_socket-writes_answers backlog loads self queues store
        (create_listen_socket env.kernel parse_ipv4 self.config t)
        (view-create_listen_socket writes_answers writes_answers-Ignores env.kernel parse_ipv4
            self.config t
          ∙ h)
  after_queues-writes_answers backlog loads self t (err e) h = h
  after_queues-writes_answers backlog loads self t panic h = h

  -- Whatever `start` finds and however it ends: if each earlier `write` sent an answer, then so does
  -- each of its own.
  pub start-writes_answers :
      (backlog : ℕ) (loads : List Bool) (self : Reactor prometheus) (t : Trace)
      → writes_answers t ≡ true
      → writes_answers (start aq prometheus env parse_ipv4 backlog loads self t).trace ≡ true
  unfolding start
  start-writes_answers backlog loads self t h =
      after_queues-writes_answers backlog loads (record self { running = true }) t
        (Queue.new aq self.config.num_workers 1024 []) h
