-- ===== src/Worker/Reactor/Keeping.antt =====
-- `event_loop` of src/worker/reactor.rs: what each step of the loop keeps, the loop keeps.
use rust_kernel_engine.Base.{
  ℕ, zero, suc, ℤ, pos, List, [], ◌∷◌, Bool, true, false, Outcome, ok, err, panic, Bool-cases, inl,
  inr, ltb, ◌==◌, ◌%◌, ◌+◌, ◌^◌, int_eq,
}
use rust_kernel_engine.State.{bind, bind-keeps, attempt-keeps, settle}
use rust_kernel_engine.Config.{ServerConfig}
use rust_kernel_engine.Os.{Kernel}
use rust_kernel_engine.Net.Epoll
use rust_kernel_engine.Net.Epoll.{Machine, M}
use rust_kernel_engine.Worker.Reactor.{
  Environment, Server, Metrics, on_machine, after_accept, accept_loop, after_read, handle_event,
  handle_events, event_rounds, handle_request,
}

-- `P` holds after an `accept` and, if it gave a connection, the registration of that.
abbrev pub Admits : (Machine → Type 0) → Kernel → Outcome ℤ × Machine → Type 0
Admits P kernel (ok client, s) = P (Epoll.register kernel client (1 + 2 ^ 31) s).1
Admits P kernel (err e, s) = P s
Admits P kernel (panic, s) = P s

-- A `read` for a client, and what follows it: a request, or the end of the connection.
abbrev pub serve_read :
    (env : Environment) → ServerConfig → ℤ → Server → Outcome (Unit {0}) × Server
serve_read env config fd s =
    bind (settle (on_machine (Epoll.read env.kernel fd 8192) s)) (after_read env config fd)

-- The steps of the loop keep `P`, which may speak of the counters.
pub record Keeps (env : Environment) (config : ServerConfig) (P : Metrics → Machine → Type 0)
    : Type 0 where
  pub accepts :
      (m : Metrics) (fd : ℤ) (s : Machine)
      → P m s
      → Admits (P m) (env.kernel) (Epoll.accept (env.kernel) fd s)
  pub serves :
      (fd : ℤ) (s : Server)
      → P s.metrics s.machine
      → P (serve_read env config fd s).1.metrics (serve_read env config fd s).1.machine
  pub waits :
      (m : Metrics) (timeout : ℤ) (s : Machine)
      → P m s
      → P m (Epoll.process_events (env.kernel) timeout s).1

-- Where `accept` and `register` each keep `P`, so do both.
pub keeps-Admits :
    (P : Machine → Type 0) (kernel : Kernel) (p : Outcome ℤ × Machine)
    → ((client : ℤ) (s : Machine) → P s → P (Epoll.register kernel client (1 + 2 ^ 31) s).1)
    → P p.1
    → Admits P kernel p
keeps-Admits P kernel (ok client, s) k h = k client s h
keeps-Admits P kernel (err e, s) k h = h
keeps-Admits P kernel (panic, s) k h = h

module _ (env : Environment) (config : ServerConfig) (Q : Machine → Type 0)
    (accepts : (fd : ℤ) (s : Machine)
      → Q s
      → Admits Q env.kernel (Epoll.accept env.kernel fd s)) where
  open env use {kernel}

  after_accept-keeps :
      (p : Outcome ℤ × Machine) (again : M (Unit {0}))
      → ((s : Machine) → Q s → Q (again s).1)
      → Admits Q kernel p
      → Q (bind (settle p) λ r. after_accept env config r again).1
  unfolding after_accept
  after_accept-keeps (ok fd, s) again k h =
      bind-keeps Q (Epoll.register kernel fd (1 + 2 ^ 31) s) (λ _. again) h (λ _. k)
  after_accept-keeps (err e, s) again k h = h
  after_accept-keeps (panic, s) again k h = h

  pub accept_loop-keeps :
      (fuel : ℕ) (listen_fd : ℤ) (s : Machine) → Q s → Q (accept_loop env config fuel listen_fd s).1
  unfolding accept_loop
  accept_loop-keeps zero listen_fd s h = h
  accept_loop-keeps (suc fuel) listen_fd s h =
      after_accept-keeps (Epoll.accept kernel listen_fd s) _ (accept_loop-keeps fuel listen_fd)
        (accepts listen_fd s h)

module _ (env : Environment) (config : ServerConfig) (P : Metrics → Machine → Type 0)
    (reads : (m : Metrics) (fd : ℤ) (len : ℕ) (s : Machine)
      → P m s
      → P m (Epoll.read env.kernel fd len s).1)
    (closes : (m : Metrics) (fd : ℤ) (s : Machine) → P m s → P m (Epoll.close env.kernel fd s).1)
    (handles : (fd : ℤ) (buf : List ℕ) (s : Server)
      → P s.metrics s.machine
      → P
          (handle_request env config fd buf s).1.metrics
          (handle_request env config fd buf s).1.machine) where
  open env use {kernel}

  after_read-keeps :
      (fd : ℤ) (r : Outcome (ℕ × List ℕ)) (s : Server)
      → P s.metrics s.machine
      → P (after_read env config fd r s).1.metrics (after_read env config fd r s).1.machine
  unfolding after_read
  after_read-keeps fd (ok (n, bytes)) s h = elim (Bool-cases (ltb 0 n)) [
    | inl e ↦ rw e (handles fd _ s h)
    | inr e ↦ rw e (closes s.metrics fd s.machine h)
  ]
  after_read-keeps fd (err e) s h = closes s.metrics fd s.machine h
  after_read-keeps fd panic s h = h

  -- Where `read`, `close` and `handle_request` each keep `P`, so does serving a client.
  pub keeps-serves :
      (fd : ℤ) (s : Server)
      → P s.metrics s.machine
      → P (serve_read env config fd s).1.metrics (serve_read env config fd s).1.machine
  keeps-serves fd s h =
      bind-keeps (λ (s' : Server). P s'.metrics s'.machine)
        (settle (on_machine (Epoll.read kernel fd 8192) s)) _
        (attempt-keeps (λ (s' : Server). P s'.metrics s'.machine)
          (on_machine (Epoll.read kernel fd 8192) s) (reads s.metrics fd 8192 s.machine h))
        (λ r s₁ h₁. after_read-keeps fd r s₁ h₁)

module _ (env : Environment) (config : ServerConfig) (P : Metrics → Machine → Type 0)
    (keeps : Keeps env config P) where
  open env use {kernel}

  abbrev Kept : Server → Type 0
  Kept s = P s.metrics s.machine

  handle_event-keeps :
      (backlog : ℕ) (listen_fd : ℤ) (event : ℤ × ℕ) (s : Server)
      → Kept s
      → Kept (handle_event env config backlog listen_fd event s).1
  unfolding handle_event
  handle_event-keeps backlog listen_fd (fd, flags) s h = elim (Bool-cases (int_eq fd listen_fd)) [
    | inl e ↦ rw e (
        accept_loop-keeps env config (P s.metrics) (keeps.accepts s.metrics) backlog listen_fd
          s.machine h)
    | inr e ↦ elim (Bool-cases (flags % 2 == 1)) [
      | inl f ↦ rw (e, f) (keeps.serves fd s h)
      | inr f ↦ rw (e, f) h
    ]
  ]

  handle_events-keeps :
      (backlog : ℕ) (listen_fd : ℤ) (events : List (ℤ × ℕ)) (s : Server)
      → Kept s
      → Kept (handle_events env config backlog listen_fd events s).1
  unfolding handle_events
  handle_events-keeps backlog listen_fd [] s h = h
  handle_events-keeps backlog listen_fd (event ∷ events) s h =
      bind-keeps Kept (handle_event env config backlog listen_fd event s) _
        (handle_event-keeps backlog listen_fd event s h)
        (λ _. handle_events-keeps backlog listen_fd events)

  -- What the steps keep, the rounds of the loop keep, however they end.
  pub event_rounds-keeps :
      (backlog : ℕ) (listen_fd : ℤ) (loads : List Bool) (s : Server)
      → Kept s
      → Kept (event_rounds env config backlog listen_fd loads s).1
  unfolding event_rounds
  event_rounds-keeps backlog listen_fd [] s h = h
  event_rounds-keeps backlog listen_fd (false ∷ loads) s h = h
  event_rounds-keeps backlog listen_fd (true ∷ loads) s h =
      bind-keeps Kept (on_machine (Epoll.process_events kernel (pos 100)) s) _
        (keeps.waits s.metrics (pos 100) s.machine h)
        (λ events s₁ h₁.
          bind-keeps Kept (handle_events env config backlog listen_fd events s₁) _
            (handle_events-keeps backlog listen_fd events s₁ h₁)
            (λ _. event_rounds-keeps backlog listen_fd loads))
