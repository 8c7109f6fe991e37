-- ===== src/Worker/Start/Tallies.antt =====
-- `Reactor::start` of src/worker/reactor.rs: the counters against the calls of `read` and `write`.
use rust_kernel_engine.Base.{ℕ, refl, ℤ, List, [], Bool, true, Option, Outcome, ok, err, panic}
use rust_kernel_engine.Std.Keys.{Text}
use rust_kernel_engine.Os.{Trace}
use rust_kernel_engine.Worker.ArrayQueue.{ArrayQueue}
use rust_kernel_engine.Worker.LockFree.{Store}
use rust_kernel_engine.Worker.Queue
use rust_kernel_engine.Worker.Queue.{Task, WorkStealingQueue}
use rust_kernel_engine.Worker.Listener.{create_listen_socket}
use rust_kernel_engine.Worker.Listener.Sockets.{view-create_listen_socket}
use rust_kernel_engine.Worker.Metrics.{Prometheus, Reactor}
use rust_kernel_engine.Worker.Reactor.{Environment}
use rust_kernel_engine.Worker.Reactor.Tallies.{
  tally, tally-Ignores, Tells, Tells-subst, event_loop-Tells,
}
use rust_kernel_engine.Worker.Start.{Started, after_socket, after_queues, start}

module _ (aq : ArrayQueue Task) (prometheus : Prometheus) (env : Environment)
    (parse_ipv4 : Text → Option ℕ) where
  -- The counters at the end say what has been read and written.
  abbrev pub Told : Started aq → Type 0
  Told s = Tells s.metrics (tally s.trace)

  after_socket-Told :
      (backlog : ℕ) (loads : List Bool) (self : Reactor prometheus)
      (queues : List WorkStealingQueue) (store : Store aq) (r : Outcome ℤ × Trace)
      → Tells self.metrics (tally r.1)
      → Told (after_socket aq prometheus env parse_ipv4 backlog loads self queues store r)
  unfolding after_socket
  after_socket-Told backlog loads self queues store (ok listen_fd, t) h =
      event_loop-Tells env self.config backlog listen_fd loads self.metrics t h
  after_socket-Told backlog loads self queues store (err e, t) h = h
  after_socket-Told backlog loads self queues store (panic, t) h = h

  after_queues-Told :
      (backlog : ℕ) (loads : List Bool) (self : Reactor prometheus) (t : Trace)
      (r : Outcome (List WorkStealingQueue × Store aq))
      → Tells self.metrics (tally t)
      → Told (after_queues aq prometheus env parse_ipv4 backlog loads self t r)
  unfolding after_queues
  after_queues-Told backlog loads self t (ok (queues, store)) h =
      let made = create_listen_socket env.kernel parse_ipv4 self.config t in
      after_socket-Told backlog loads self queues store made (
        Tells-subst self.metrics self.metrics (tally t) (tally made.1) refl
          (view-create_listen_socket tally tally-Ignores env.kernel parse_ipv4 self.config t) h)
  after_queues-Told backlog loads self t (err e) h = h
  after_queues-Told backlog loads self t panic h = h

  -- Whatever the clients and the kernel do, and however `start` ends: if the counters of the reactor
  -- say what was read and written before, then in the end they still say, as the kernel saw it and
  -- modulo 2^64, the number of all reads that returned bytes, the number of all writes that did not
  -- fail, and the number of all bytes handed to these.
  pub start-Told :
      (backlog : ℕ) (loads : List Bool) (self : Reactor prometheus) (t : Trace)
      → Tells self.metrics (tally t)
      → Told (start aq prometheus env parse_ipv4 backlog loads self t)
  unfolding start
  start-Told backlog loads self t h =
      after_queues-Told backlog loads (record self { running = true }) t
        (Queue.new aq self.config.num_workers 1024 []) h
