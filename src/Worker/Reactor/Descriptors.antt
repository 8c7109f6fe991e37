-- ===== src/Worker/Reactor/Descriptors.antt =====
-- `event_loop` of src/worker/reactor.rs: the descriptors that it leaves open.
use rust_kernel_engine.Base.{
  ℕ, ◌+◌, ◌^◌, ◌≡◌, ◌≢◌, refl, sym, subst, ℤ, is_neg, int_eq, List, ◌∷◌, Bool, false, Outcome, ok,
  err, panic, Bool-cases, inl, inr, arith,
}
use rust_kernel_engine.State.{bind, bind-keeps}
use rust_kernel_engine.Std.Keys.{Text, fd_key}
use rust_kernel_engine.Std.FilePath.{join}
use rust_kernel_engine.Config.{ServerConfig, ServerMode, fast_path, dynamic_path}
use rust_kernel_engine.File.Mmap
use rust_kernel_engine.File.Mmap.Descriptors.{new-Released, use-Released}
use rust_kernel_engine.Http.Parser.{HttpRequest, parse, clean_path}
use rust_kernel_engine.Os.{Trace, exists_path, epoll_create1}
use rust_kernel_engine.Os.Descriptors.{OpenAtMost, one_if, Adds, IsFresh}
use rust_kernel_engine.Net.Epoll
use rust_kernel_engine.Net.Epoll.{Machine}
use rust_kernel_engine.Net.Epoll.Descriptors.{
  tracked, Held, Due, AfterAccept, accept-Held, register-Held, read-Held, write-Held, close-Held,
  process_events-Held, drop_open,
}
use rust_kernel_engine.Net.Epoll.Drop.{Deletes}
use rust_kernel_engine.Http.Response.{to_bytes}
use rust_kernel_engine.Worker.Reactor.Calls.{respond-backend}
use rust_kernel_engine.Worker.Reactor.Keeping.{Keeps, Admits, event_rounds-keeps, keeps-serves}
use rust_kernel_engine.Worker.Reactor.{
  Environment, Server, Metrics, on_machine, serve_file, handle_static_file, tail_of, dispatch,
  respond, handle_request, event_rounds, event_loop, enter, leave,
}

module _ (env : Environment) (config : ServerConfig) (fd : ℤ) (n : ℕ) where
  open env use {connection_order, kernel, httparse, lowercase, iteration}

  serve_file_open :
      (path : Text) (t : Trace)
      → OpenAtMost fd n t
      → OpenAtMost fd n (serve_file env config path t).1
  unfolding serve_file
  serve_file_open path t h =
      use-Released kernel fd n (Mmap.new kernel path t) _ (new-Released kernel path fd n t h)

  handle_static_file_open :
      (req : HttpRequest) (t : Trace)
      → OpenAtMost fd n t
      → OpenAtMost fd n (handle_static_file env config req t).1
  unfolding handle_static_file
  handle_static_file_open req t h =
      bind-keeps (OpenAtMost fd n) (tail_of (clean_path req), t) _ h
        λ tail t' h'.
          elim (Bool-cases (is_neg (kernel t' (exists_path (join config.static_dir tail))).ret)) [
            | inl missing ↦ rw missing h'
            | inr there ↦ rw there (serve_file_open (join config.static_dir tail) _ h')
          ]

  dispatch_open :
      (m : ServerMode) (req : HttpRequest) (s : Server)
      → OpenAtMost fd n s.machine.trace
      → OpenAtMost fd n (dispatch env config m req s).1.machine.trace
  unfolding dispatch
  dispatch_open fast_path req s h = handle_static_file_open req s.machine.trace h
  dispatch_open dynamic_path req s h = h

  respond_open :
      (r : Outcome HttpRequest) (s : Server)
      → OpenAtMost fd n s.machine.trace
      → OpenAtMost fd n (respond env config r s).1.machine.trace
  unfolding respond
  respond_open (err e) s h = h
  respond_open panic s h = h
  respond_open (ok req) s h = dispatch_open config.mode req s h

module _ (env : Environment) (config : ServerConfig) (fd : ℤ) (n : ℕ) where
  open env use {connection_order, kernel, httparse, lowercase, iteration}

  abbrev HoldsAt : Machine → Type 0
  HoldsAt = Held kernel fd n

  respond-Held :
      (r : Outcome HttpRequest) (s : Server)
      → HoldsAt s.machine
      → HoldsAt (respond env config r s).1.machine
  respond-Held r s h =
      subst
        (λ b. OpenAtMost fd (n + tracked kernel fd n b) (respond env config r s).1.machine.trace)
        (sym (respond-backend env config r s))
        (respond_open env config fd (n + tracked kernel fd n s.machine.backend) r s h)

  handle_request-Held :
      (client : ℤ) (buf : List ℕ) (s : Server)
      → HoldsAt s.machine
      → HoldsAt (handle_request env config client buf s).1.machine
  unfolding handle_request
  handle_request-Held client buf s h =
      bind-keeps (λ (s' : Server). HoldsAt s'.machine)
        (respond env config (parse lowercase httparse buf) _) _
        (respond-Held (parse lowercase httparse buf) _ h)
        (λ response s₁ h₁.
          bind-keeps (λ (s' : Server). HoldsAt s'.machine)
            (on_machine (Epoll.write kernel client (to_bytes iteration response)) s₁) _
            (write-Held kernel fd n client (to_bytes iteration response) s₁.machine h₁)
            (λ _ s₂ h₂. h₂))

  admits :
      Adds kernel → (p : Outcome ℤ × Machine) → AfterAccept kernel fd n p → Admits HoldsAt kernel p
  admits adds (ok client, s) due = register-Held kernel fd n client (1 + 2 ^ 31) s adds due
  admits adds (err e, s) h = h
  admits adds (panic, s) h = h

  keeps-Held : IsFresh kernel → Adds kernel → Keeps env config (λ m. HoldsAt)
  keeps-Held fresh adds = record {
    accepts =
        λ m g s h. admits adds (Epoll.accept kernel g s) (accept-Held kernel fd n g s fresh h);
    serves =
        keeps-serves env config (λ m. HoldsAt) (λ m. read-Held kernel fd n)
          (λ m. close-Held kernel fd n) handle_request-Held;
    waits = λ m. process_events-Held kernel fd n;
  }

  leave_open :
      (r : Outcome (Unit {0}) × Server)
      → Deletes kernel
      → HoldsAt r.1.machine
      → (leave env config r).0 ≢ panic
      → OpenAtMost fd n (leave env config r).1
  unfolding leave
  leave_open (ok _, s) deletes h ends = drop_open kernel fd n connection_order s.machine deletes h
  leave_open (err e, s) deletes h ends = drop_open kernel fd n connection_order s.machine deletes h
  leave_open (panic, s) deletes h ends = absurd (ends refl)

  enter_open :
      (backlog : ℕ) (listen_fd : ℤ) (loads : List Bool) (m : Metrics) (backend : Epoll.EpollBackend)
      (t : Trace)
      → IsFresh kernel
      → Adds kernel
      → Deletes kernel
      → OpenAtMost fd (n + one_if (int_eq listen_fd fd) + one_if (int_eq backend.epoll_fd fd)) t
      → (enter env config backlog listen_fd loads m (ok backend, t)).0 ≢ panic
      → OpenAtMost fd n (enter env config backlog listen_fd loads m (ok backend, t)).1
  unfolding enter
  enter_open backlog listen_fd loads m backend t fresh adds deletes h ends =
      let s : Server = record { machine = record { backend = backend; trace = t }; metrics = m } in
      let due : Due kernel fd n listen_fd s.machine = elim (Bool-cases (int_eq listen_fd fd)) [
        | inl e ↦ rw e (ground (arith, e, h))
        | inr e ↦ rw e (ground (arith, e, h))
      ] in
      leave_open
        (bind (on_machine (Epoll.register kernel listen_fd 1) s)
          λ _. event_rounds env config backlog listen_fd loads)
        deletes
        (bind-keeps (λ (s' : Server). HoldsAt s'.machine)
          (on_machine (Epoll.register kernel listen_fd 1) s)
          (λ _. event_rounds env config backlog listen_fd loads)
          (register-Held kernel fd n listen_fd 1 s.machine adds due)
          (λ _.
            event_rounds-keeps env config (λ m. HoldsAt) (keeps-Held fresh adds) backlog listen_fd
              loads))
        ends

  -- Take a kernel that makes an epoll instance, watches and deletes what it is asked to, and accepts a
  -- connection under a descriptor that is not open. Whatever the clients do, unless the loop
  -- panics, `event_loop` then closes each descriptor that it opened, and the listening socket: if at
  -- most `n` more were open beside that socket before, then at most `n` are after.
  pub event_loop_closes :
      (backlog : ℕ) (listen_fd : ℤ) (loads : List Bool) (m : Metrics) (t : Trace)
      → is_neg (kernel t epoll_create1).ret ≡ false
      → IsFresh kernel
      → Adds kernel
      → Deletes kernel
      → OpenAtMost fd (n + one_if (int_eq listen_fd fd)) t
      → (event_loop env config backlog listen_fd loads m t).0 ≢ panic
      → OpenAtMost fd n (event_loop env config backlog listen_fd loads m t).1
  unfolding event_loop Epoll.new Epoll.created
  event_loop_closes backlog listen_fd loads m t made fresh adds deletes h ends = rw made (
      enter_open backlog listen_fd loads m _ ((epoll_create1, kernel t epoll_create1) ∷ t) fresh
        adds deletes (ground (arith, made, h)) (rw made at ends))
