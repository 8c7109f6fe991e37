-- ===== src/Worker/Start/Tasks.antt =====
-- The tasks of the workers that `Reactor::start` of src/worker/reactor.rs spawns.
use mathlib.Core.List.{Perm}
use rust_kernel_engine.Base.{
  ℕ, ◌≡◌, refl, ap, ◌∙◌, ℤ, List, [], ◌∷◌, ◌++◌, Bool, true, Option, Outcome, ok, err, panic, subst,
}
use rust_kernel_engine.Std.Keys.{Text}
use rust_kernel_engine.Os.{Trace}
use rust_kernel_engine.Worker.ArrayQueue.{ArrayQueue, IsFifo}
use rust_kernel_engine.Worker.LockFree.{Store}
use rust_kernel_engine.Worker.LockFree.Laws.{all_items}
use rust_kernel_engine.Worker.Queue.{Task, WorkStealingQueue}
use rust_kernel_engine.Worker.Queue.Interleaving.{System, Reach}
use rust_kernel_engine.Worker.Queue.Interleaving.Safety.{Reach-Balances}
use rust_kernel_engine.Worker.Queue.Topology.{AreEmpty, new-AreWired}
use rust_kernel_engine.Worker.Listener.{create_listen_socket}
use rust_kernel_engine.Worker.Metrics.{Prometheus, Reactor}
use rust_kernel_engine.Worker.Reactor.{Environment}
use rust_kernel_engine.Worker.Start.{after_socket, after_queues, start}

module _ (aq : ArrayQueue Task) (fifo : IsFifo aq) where
  all_items-AreEmpty :
      (cap : ℕ) (store : Store aq) → AreEmpty aq fifo cap store → all_items aq fifo store ≡ []
  all_items-AreEmpty cap [] e = refl
  all_items-AreEmpty cap (q ∷ qs) (e, es) = rw (e.0, all_items-AreEmpty cap qs es) refl

  module _ (prometheus : Prometheus) (env : Environment) (parse_ipv4 : Text → Option ℕ) where
    after_socket-store :
        (backlog : ℕ) (loads : List Bool) (self : Reactor prometheus)
        (queues : List WorkStealingQueue) (store : Store aq) (r : Outcome ℤ × Trace)
        → (after_socket aq prometheus env parse_ipv4 backlog loads self queues store r).store
          ≡ store
    unfolding after_socket
    after_socket-store backlog loads self queues store (ok listen_fd, t) = refl
    after_socket-store backlog loads self queues store (err e, t) = refl
    after_socket-store backlog loads self queues store (panic, t) = refl

    start-items :
        (backlog : ℕ) (loads : List Bool) (self : Reactor prometheus) (t : Trace)
        → all_items aq fifo (start aq prometheus env parse_ipv4 backlog loads self t).store ≡ []
    unfolding start after_queues
    start-items backlog loads self t =
        let (queues, store, made, _, _, _, empty) =
          new-AreWired aq fifo self.config.num_workers 1023 in
        rw made (
          ap (all_items aq fifo) (
            after_socket-store backlog loads (record self { running = true }) queues store
              (create_listen_socket env.kernel parse_ipv4 self.config t))
          ∙ all_items-AreEmpty 1024 store empty)

    -- However the calls of the workers on the queues of a start interleave, the tasks that were
    -- pushed since are, as a multiset, those handed out with those left: a worker gets no other task.
    start-Balances :
        (backlog : ℕ) (loads : List Bool) (self : Reactor prometheus) (t : Trace)
        (workers : ℕ → WorkStealingQueue) (s s' : System aq)
        → s.store ≡ (start aq prometheus env parse_ipv4 backlog loads self t).store
        → s.taken_in ≡ []
        → s.handed_out ≡ []
        → Reach aq workers s s'
        → Perm s'.taken_in (s'.handed_out ++ all_items aq fifo s'.store)
    start-Balances backlog loads self t workers s s' same none_in none_out reach =
        subst (λ tasks. Perm (tasks ++ s'.taken_in) (s'.handed_out ++ all_items aq fifo s'.store))
          (ap (all_items aq fifo) same ∙ start-items backlog loads self t)
          (Reach-Balances aq fifo workers none_in none_out reach)
