-- ===== src/Worker/Start/Composition.antt =====
-- What `Reactor::start` of src/worker/reactor.rs sets up, and what it leaves behind.
use rust_kernel_engine.Base.{
  ℕ, ◌≡◌, ◌≢◌, refl, ◌∙◌, ℤ, is_neg, List, [], ◌∷◌, Bool, true, false, Option, Outcome, ok, err,
  panic, length, epoll_create_failed,
}
use rust_kernel_engine.Std.Keys.{Text}
use rust_kernel_engine.Os.{Trace, epoll_create1}
use rust_kernel_engine.Config.{ServerConfig}
use rust_kernel_engine.Net.Epoll
use rust_kernel_engine.Net.Epoll.Interest.{watched, watched-Ignores}
use rust_kernel_engine.Net.Epoll.Drop.{Deletes}
use rust_kernel_engine.Worker.ArrayQueue.{ArrayQueue, IsFifo}
use rust_kernel_engine.Worker.LockFree.{Store}
use rust_kernel_engine.Worker.Queue.{Task, WorkStealingQueue}
use rust_kernel_engine.Worker.Queue.Topology.{AreWired, AreEmpty, new-AreWired}
use rust_kernel_engine.Worker.Listener.{create_listen_socket}
use rust_kernel_engine.Worker.Listener.Sockets.{view-create_listen_socket}
use rust_kernel_engine.Worker.Metrics.{Prometheus, Reactor}
use rust_kernel_engine.Worker.Reactor.{Environment, event_loop}
use rust_kernel_engine.Worker.Reactor.EventLoop.{event_loop_releases}
use rust_kernel_engine.Worker.Start.{Started, enumerate, after_socket, after_queues, start}

module _ (aq : ArrayQueue Task) (fifo : IsFifo aq) (prometheus : Prometheus) (env : Environment)
    (parse_ipv4 : Text → Option ℕ) where
  open env use {kernel}

  after_socket-watched :
      (backlog : ℕ) (loads : List Bool) (self : Reactor prometheus)
      (queues : List WorkStealingQueue) (store : Store aq) (r : Outcome ℤ × Trace)
      → Deletes kernel
      → ((g : ℤ) → watched g r.1 ≡ false)
      → (fd : ℤ)
      → (after_socket aq prometheus env parse_ipv4 backlog loads self queues store r).result ≢ panic
      → watched fd
          (after_socket aq prometheus env parse_ipv4 backlog loads self queues store r).trace
        ≡ false
  unfolding after_socket
  after_socket-watched backlog loads self queues store (ok listen_fd, t) deletes none_yet fd ends =
      event_loop_releases env self.config backlog listen_fd loads self.metrics t fd deletes none_yet
        ends
  after_socket-watched backlog loads self queues store (err e, t) deletes none_yet fd ends =
      none_yet fd
  after_socket-watched backlog loads self queues store (panic, t) deletes none_yet fd ends =
      none_yet fd

  -- What `start` has set up: numbered threads, each with its own empty queue and all the others, if
  -- the socket could be made, and no thread if not.
  abbrev pub SetsUp : ServerConfig → Outcome ℤ → Started aq → Type 0
  SetsUp config (ok listen_fd) s =
      (queues : List WorkStealingQueue) × (s.threads ≡ enumerate 0 queues)
      × (length queues ≡ config.num_workers)
      × AreWired config.num_workers 0 queues
      × AreEmpty aq fifo 1024 s.store
  SetsUp config (err e) s = (s.threads ≡ []) × (s.result ≡ err e)
  SetsUp config panic s = (s.threads ≡ []) × (s.result ≡ panic)

  after_socket-SetsUp :
      (backlog : ℕ) (loads : List Bool) (self : Reactor prometheus)
      (queues : List WorkStealingQueue) (store : Store aq) (r : Outcome ℤ × Trace)
      → length queues ≡ self.config.num_workers
      → AreWired self.config.num_workers 0 queues
      → AreEmpty aq fifo 1024 store
      → SetsUp self.config r.0
          (after_socket aq prometheus env parse_ipv4 backlog loads self queues store r)
  unfolding after_socket
  after_socket-SetsUp backlog loads self queues store (ok listen_fd, t) count wired empty =
      (queues, refl, count, wired, empty)
  after_socket-SetsUp backlog loads self queues store (err e, t) count wired empty = (refl, refl)
  after_socket-SetsUp backlog loads self queues store (panic, t) count wired empty = (refl, refl)

  -- If the listening socket can be made, `start` spawns the configured number of threads, numbered
  -- from 0, each with a queue of its own and all others to steal from, and all queues empty with room
  -- for 1024 tasks. If not, it returns the error and spawns none.
  pub start-SetsUp :
      (backlog : ℕ) (loads : List Bool) (self : Reactor prometheus) (t : Trace)
      → SetsUp self.config
          (create_listen_socket kernel parse_ipv4 self.config t).0
          (start aq prometheus env parse_ipv4 backlog loads self t)
  unfolding start after_queues
  start-SetsUp backlog loads self t =
      let (queues, store, made, count, _, wired, empty) =
        new-AreWired aq fifo self.config.num_workers 1023 in
      rw made (
        after_socket-SetsUp backlog loads (record self { running = true }) queues store
          (create_listen_socket kernel parse_ipv4 self.config t) count wired empty)

  -- If the kernel watches nothing before, and deletes what it is asked to delete, then it watches
  -- nothing when `start` returns, unless it panicked.
  pub start_releases :
      (backlog : ℕ) (loads : List Bool) (self : Reactor prometheus) (t : Trace) (fd : ℤ)
      → Deletes kernel
      → ((g : ℤ) → watched g t ≡ false)
      → (start aq prometheus env parse_ipv4 backlog loads self t).result ≢ panic
      → watched fd (start aq prometheus env parse_ipv4 backlog loads self t).trace ≡ false
  unfolding start after_queues
  start_releases backlog loads self t fd deletes none_yet ends =
      let (queues, store, made, count, _, wired, empty) =
        new-AreWired aq fifo self.config.num_workers 1023 in
      rw made (
        after_socket-watched backlog loads (record self { running = true }) queues store
          (create_listen_socket kernel parse_ipv4 self.config t) deletes
          (λ g.
            view-create_listen_socket (watched g) (watched-Ignores g) kernel parse_ipv4 self.config
              t
            ∙ none_yet g)
          fd (rw made at ends))

  -- If no epoll instance can be made, `start` returns that error, and its last call is the one that
  -- failed: the listening socket, which has been made before, stays open.
  start_no_epoll :
      (backlog : ℕ) (loads : List Bool) (self : Reactor prometheus) (t t' : Trace) (listen_fd : ℤ)
      → create_listen_socket kernel parse_ipv4 self.config t ≡ (ok listen_fd, t')
      → is_neg (kernel t' epoll_create1).ret ≡ true
      → ((start aq prometheus env parse_ipv4 backlog loads self t).result ≡ err epoll_create_failed)
        × ((start aq prometheus env parse_ipv4 backlog loads self t).trace
            ≡ (epoll_create1, kernel t' epoll_create1) ∷ t')
  unfolding start after_queues after_socket event_loop Epoll.new Epoll.created
  start_no_epoll backlog loads self t t' listen_fd e failed =
      let (queues, store, made, count, _, wired, empty) =
        new-AreWired aq fifo self.config.num_workers 1023 in
      rw (made, e, failed) (refl, refl)
