-- ===== src/Worker/Start/Closing.antt =====
-- `Reactor::start` of src/worker/reactor.rs: the descriptors that it leaves open.
use rust_kernel_engine.Base.{
  ℕ, ◌≡◌, ◌≢◌, ℤ, is_neg, List, Bool, true, false, Option, some, Outcome, ok, err, panic,
}
use rust_kernel_engine.Std.Keys.{Text}
use rust_kernel_engine.Os.{Trace, epoll_create1}
use rust_kernel_engine.Os.Descriptors.{OpenAtMost, IsFresh, Adds}
use rust_kernel_engine.Net.Epoll.Drop.{Deletes}
use rust_kernel_engine.Worker.ArrayQueue.{ArrayQueue, IsFifo}
use rust_kernel_engine.Worker.LockFree.{Store}
use rust_kernel_engine.Worker.Queue.{Task, WorkStealingQueue}
use rust_kernel_engine.Worker.Queue.Topology.{new-AreWired}
use rust_kernel_engine.Worker.Listener.{create_listen_socket}
use rust_kernel_engine.Worker.Listener.Descriptors.{LeavesOpen, create_listen_socket-LeavesOpen}
use rust_kernel_engine.Worker.Metrics.{Prometheus, Reactor}
use rust_kernel_engine.Worker.Reactor.{Environment}
use rust_kernel_engine.Worker.Reactor.Descriptors.{event_loop_closes}
use rust_kernel_engine.Worker.Start.{after_socket, after_queues, start}

module _ (aq : ArrayQueue Task) (fifo : IsFifo aq) (prometheus : Prometheus) (env : Environment)
    (parse_ipv4 : Text → Option ℕ) where
  open env use {kernel}

  module _ (creates : (t : Trace) → is_neg (kernel t epoll_create1).ret ≡ false)
      (fresh : IsFresh kernel) (adds : Adds kernel) (deletes : Deletes kernel) (fd : ℤ)
      (n : ℕ) where
    after_socket_closes :
        (backlog : ℕ) (loads : List Bool) (self : Reactor prometheus)
        (queues : List WorkStealingQueue) (store : Store aq) (r : Outcome ℤ × Trace)
        → LeavesOpen kernel parse_ipv4 fd n r
        → (after_socket aq prometheus env parse_ipv4 backlog loads self queues store r).result
          ≢ panic
        → OpenAtMost fd n
            (after_socket aq prometheus env parse_ipv4 backlog loads self queues store r).trace
    unfolding after_socket
    after_socket_closes backlog loads self queues store (ok listen_fd, t) h ends =
        event_loop_closes env self.config fd n backlog listen_fd loads self.metrics t (creates t)
          fresh adds deletes h ends
    after_socket_closes backlog loads self queues store (err e, t) h ends = h
    after_socket_closes backlog loads self queues store (panic, t) h ends = h

    -- Take a kernel that makes an epoll instance, watches and deletes what it is asked to, and accepts
    -- a connection under a descriptor that is not open; and a host that is an IPv4 address. Whatever
    -- the clients do and unless it panics, `start` then leaves open no descriptor that it opened: for
    -- each descriptor, if at most `n` more were opened than closed before, so it is when it returns.
    pub start_closes :
        (backlog : ℕ) (loads : List Bool) (self : Reactor prometheus) (ip : ℕ) (t : Trace)
        → parse_ipv4 self.config.host ≡ some ip
        → OpenAtMost fd n t
        → (start aq prometheus env parse_ipv4 backlog loads self t).result ≢ panic
        → OpenAtMost fd n (start aq prometheus env parse_ipv4 backlog loads self t).trace
    unfolding start after_queues
    start_closes backlog loads self ip t host h ends =
        let (queues, store, made, count, _, wired, empty) =
          new-AreWired aq fifo self.config.num_workers 1023 in
        rw made (
          after_socket_closes backlog loads (record self { running = true }) queues store
            (create_listen_socket kernel parse_ipv4 self.config t)
            (create_listen_socket-LeavesOpen kernel parse_ipv4 fd n self.config ip t host h)
            (rw made at ends))
