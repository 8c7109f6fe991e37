-- ===== src/Worker/Reactor/EventLoop.antt =====
-- `event_loop` of src/worker/reactor.rs: the connections and the descriptors watched.
use rust_kernel_engine.Base.{
  ◌+◌, ◌^◌, ℕ, ◌≡◌, ◌≢◌, sym, ap, ◌∙◌, ℤ, is_neg, List, ◌∷◌, Bool, false, Outcome, ok, err, panic,
  refl, Bool-cases, inl, inr,
}
use rust_kernel_engine.State.{bind, bind-keeps}
use rust_kernel_engine.Std.Keys.{fd_key}
use rust_kernel_engine.Std.HashMap.{get}
use rust_kernel_engine.Http.Parser.{HttpRequest, parse}
use rust_kernel_engine.Config.{ServerConfig}
use rust_kernel_engine.Os.{Trace, epoll_create1}
use rust_kernel_engine.Net.Epoll
use rust_kernel_engine.Net.Epoll.{Machine, M}
use rust_kernel_engine.Net.Epoll.Interest.{
  IsTracked, is_some, watched, watched-Ignores, accept-IsTracked, register-IsTracked,
  read-IsTracked, write-IsTracked, close-IsTracked, process_events-IsTracked,
}
use rust_kernel_engine.Net.Epoll.Drop.{Deletes, drop_closes}
use rust_kernel_engine.Worker.Reactor.Keeping.{
  Keeps, keeps-Admits, keeps-serves, event_rounds-keeps,
}
use rust_kernel_engine.Worker.Reactor.Calls.{view-respond, respond-backend}
use rust_kernel_engine.Worker.Reactor.{
  Environment, Server, Metrics, on_machine, event_rounds, event_loop, handle_request, respond,
  leave, enter,
}

module _ (env : Environment) (config : ServerConfig) where
  open env use {connection_order, kernel, httparse, lowercase}

  -- A server is tracked if its backend is.
  abbrev pub Tracked : Server → Type 0
  Tracked s = IsTracked s.machine

  respond-Tracked :
      (r : Outcome HttpRequest) (s : Server) → Tracked s → Tracked (respond env config r s).1
  respond-Tracked r s h fd =
      ap (λ b. is_some (get fd b.connections)) (respond-backend env config r s)
      ∙ (h fd ∙ sym (view-respond (watched fd) (watched-Ignores fd) env config r s))

  handle_request-Tracked :
      (fd : ℤ) (buf : List ℕ) (s : Server)
      → Tracked s
      → Tracked (handle_request env config fd buf s).1
  unfolding handle_request
  handle_request-Tracked fd buf s h =
      bind-keeps Tracked (respond env config (parse lowercase httparse buf) _) _
        (respond-Tracked (parse lowercase httparse buf) _ h)
        (λ response s₁ h₁.
          bind-keeps Tracked (on_machine (Epoll.write kernel fd _) s₁) _
            (write-IsTracked kernel fd _ s₁.machine h₁) (λ n s₂ h₂. h₂))

  keeps-IsTracked : Keeps env config (λ m. IsTracked)
  keeps-IsTracked = record {
    accepts = λ m fd s h.
        keeps-Admits IsTracked kernel (Epoll.accept kernel fd s)
          (λ client. register-IsTracked kernel client (1 + 2 ^ 31))
          (accept-IsTracked kernel fd s h);
    serves =
        keeps-serves env config (λ m. IsTracked) (λ m fd len s h. read-IsTracked kernel fd len s h)
          (λ m fd s h. close-IsTracked kernel fd s h) handle_request-Tracked;
    waits = λ m timeout s h. process_events-IsTracked kernel timeout s h;
  }

  -- Whatever the clients and the kernel do, and however the loop ends, the backend has a connection
  -- for exactly the descriptors that the kernel watches for it.
  pub event_rounds-Tracked :
      (backlog : ℕ) (listen_fd : ℤ) (loads : List Bool) (s : Server)
      → Tracked s
      → Tracked (event_rounds env config backlog listen_fd loads s).1
  event_rounds-Tracked = event_rounds-keeps env config (λ m. IsTracked) keeps-IsTracked

  leave_releases :
      (fd : ℤ) (r : Outcome (Unit {0}) × Server)
      → Deletes kernel
      → Tracked r.1
      → (leave env config r).0 ≢ panic
      → watched fd (leave env config r).1 ≡ false
  unfolding leave
  leave_releases fd (ok _, s) deletes h ends =
      (drop_closes kernel deletes connection_order fd s.machine h).0
  leave_releases fd (err e, s) deletes h ends =
      (drop_closes kernel deletes connection_order fd s.machine h).0
  leave_releases fd (panic, s) deletes h ends = absurd (ends refl)

  enter_releases :
      (backlog : ℕ) (listen_fd : ℤ) (loads : List Bool) (m : Metrics) (backend : Epoll.EpollBackend)
      (t : Trace) (fd : ℤ)
      → Deletes kernel
      → IsTracked (record { backend = backend; trace = t })
      → (enter env config backlog listen_fd loads m (ok backend, t)).0 ≢ panic
      → watched fd (enter env config backlog listen_fd loads m (ok backend, t)).1 ≡ false
  unfolding enter
  enter_releases backlog listen_fd loads m backend t fd deletes h ends =
      let s : Server = record { machine = record { backend = backend; trace = t }; metrics = m } in
      let registered = on_machine (Epoll.register kernel listen_fd 1) s in
      leave_releases fd (bind registered λ _. event_rounds env config backlog listen_fd loads)
        deletes
        (bind-keeps Tracked registered (λ _. event_rounds env config backlog listen_fd loads)
          (register-IsTracked kernel listen_fd 1 s.machine h)
          (λ _. event_rounds-Tracked backlog listen_fd loads))
        ends

  -- If the kernel watches nothing before, and deletes what it is asked to delete, then it watches
  -- nothing when `event_loop` has returned, whatever the clients did and unless it panicked.
  pub event_loop_releases :
      (backlog : ℕ) (listen_fd : ℤ) (loads : List Bool) (m : Metrics) (t : Trace) (fd : ℤ)
      → Deletes kernel
      → ((g : ℤ) → watched g t ≡ false)
      → (event_loop env config backlog listen_fd loads m t).0 ≢ panic
      → watched fd (event_loop env config backlog listen_fd loads m t).1 ≡ false
  unfolding event_loop Epoll.new Epoll.created enter get
  event_loop_releases backlog listen_fd loads m t fd deletes none_yet ends =
      elim (Bool-cases (is_neg (kernel t epoll_create1).ret)) [
        | inl e ↦ rw e (none_yet fd)
        | inr e ↦ rw e (
            enter_releases backlog listen_fd loads m _ ((epoll_create1, kernel t epoll_create1) ∷ t)
              fd deletes (λ g. sym (none_yet g)) (rw e at ends))
      ]
