-- ===== src/Worker/Reactor/Rounds.antt =====
-- `event_loop` of src/worker/reactor.rs: which clients a round of events reads from, and in which order.
use rust_kernel_engine.Base.{
  ℕ, ◌+◌, ◌%◌, ◌^◌, ◌≡◌, refl, sym, ap, ◌∙◌, ◌==◌, ℤ, int_eq, List, [], ◌∷◌, ◌++◌, append_assoc,
  append-nil, Outcome, ok, err, panic, Bool-cases, inl, inr, ltb, arith, if◌then◌else◌,
}
use rust_kernel_engine.State.{St, bind, bind-keeps, settle, attempt-keeps}
use rust_kernel_engine.Config.{ServerConfig}
use rust_kernel_engine.Http.Parser.{parse}
use rust_kernel_engine.Http.Response.{to_bytes}
use rust_kernel_engine.Os.{Syscall, Trace}
use rust_kernel_engine.Os.Quiet.{Ignores}
use rust_kernel_engine.Net.Epoll
use rust_kernel_engine.Net.Epoll.{Machine}
use rust_kernel_engine.Net.Epoll.Calls.{view-accept}
use rust_kernel_engine.Worker.Reactor.Calls.{view-respond}
use rust_kernel_engine.Worker.Reactor.Keeping.{keeps-Admits, accept_loop-keeps}
use rust_kernel_engine.Worker.Reactor.{
  Environment, Server, on_machine, respond, handle_request, after_read, handle_event, handle_events,
  accept_loop,
}

-- The descriptors that were read from, the latest last.
abbrev read_after : Syscall → List ℤ → List ℤ
read_after (Syscall.read fd len) before = before ++ fd ∷ []
read_after _ before = before

abbrev pub read_from : Trace → List ℤ
read_from [] = []
read_from ((call, reply) ∷ t) = read_after call (read_from t)

read_from-Ignores : Ignores read_from
read_from-Ignores (Syscall.read fd len) reply t quiet = cc
read_from-Ignores _ reply t quiet = refl

-- The clients that an event says can be read from: not the listening socket, and with `EPOLLIN`.
abbrev pub client_of : ℤ → ℤ × ℕ → List ℤ
client_of listen_fd (fd, flags) =
    if int_eq fd listen_fd then [] else if flags % 2 == 1 then fd ∷ [] else []

abbrev pub clients : ℤ → List (ℤ × ℕ) → List ℤ
clients listen_fd [] = []
clients listen_fd (event ∷ events) = client_of listen_fd event ++ clients listen_fd events

module _ (env : Environment) (config : ServerConfig) where
  open env use {kernel, httparse, lowercase, iteration}

  -- So far, `fds` have been read from.
  abbrev HasRead : List ℤ → Machine → Type 0
  HasRead fds s = read_from s.trace ≡ fds

  abbrev Has : List ℤ → Server → Type 0
  Has fds s = HasRead fds s.machine

  register-HasRead :
      (fds : List ℤ) (fd : ℤ) (events : ℕ) (s : Machine)
      → HasRead fds s
      → HasRead fds (Epoll.register kernel fd events s).1
  unfolding Epoll.register
  register-HasRead fds fd events s h = ground (arith, h)

  close-HasRead :
      (fds : List ℤ) (fd : ℤ) (s : Machine)
      → HasRead fds s
      → HasRead fds (Epoll.close kernel fd s).1
  unfolding Epoll.close Epoll.unregister
  close-HasRead fds fd s h = ground (arith, h)

  write-HasRead :
      (fds : List ℤ) (fd : ℤ) (buf : List ℕ) (s : Machine)
      → HasRead fds s
      → HasRead fds (Epoll.write kernel fd buf s).1
  unfolding Epoll.write
  write-HasRead fds fd buf s h = ground (arith, h)

  read-HasRead :
      (fds : List ℤ) (fd : ℤ) (len : ℕ) (s : Machine)
      → HasRead fds s
      → HasRead (fds ++ fd ∷ []) (Epoll.read kernel fd len s).1
  unfolding Epoll.read
  read-HasRead fds fd len s h = ground (arith, h)

  handle_request-Has :
      (fds : List ℤ) (fd : ℤ) (buf : List ℕ) (s : Server)
      → Has fds s
      → Has fds (handle_request env config fd buf s).1
  unfolding handle_request
  handle_request-Has fds fd buf s h =
      let r = parse lowercase httparse buf in
      bind-keeps (Has fds) (respond env config r _) _
        (view-respond read_from read_from-Ignores env config r _ ∙ h)
        (λ response s₁ h₁.
          bind-keeps (Has fds) (on_machine (Epoll.write kernel fd (to_bytes iteration response)) s₁)
            _ (write-HasRead fds fd (to_bytes iteration response) s₁.machine h₁) (λ _ s₂ h₂. h₂))

  accept_loop-HasRead :
      (fds : List ℤ) (fuel : ℕ) (listen_fd : ℤ) (s : Machine)
      → HasRead fds s
      → HasRead fds (accept_loop env config fuel listen_fd s).1
  accept_loop-HasRead fds = accept_loop-keeps env config (HasRead fds) λ fd s h.
      keeps-Admits (HasRead fds) kernel (Epoll.accept kernel fd s)
        (λ client. register-HasRead fds client (1 + 2 ^ 31))
        (view-accept read_from read_from-Ignores kernel fd s ∙ h)

  after_read-Has :
      (fds : List ℤ) (fd : ℤ) (r : Outcome (ℕ × List ℕ)) (s : Server)
      → Has fds s
      → Has fds (after_read env config fd r s).1
  unfolding after_read
  after_read-Has fds fd (ok (n, bytes)) s h = elim (Bool-cases (ltb 0 n)) [
    | inl e ↦ rw e (handle_request-Has fds fd _ s h)
    | inr e ↦ rw e (close-HasRead fds fd s.machine h)
  ]
  after_read-Has fds fd (err e) s h = close-HasRead fds fd s.machine h
  after_read-Has fds fd panic s h = h

  handle_event-Has :
      (fds : List ℤ) (backlog : ℕ) (listen_fd : ℤ) (event : ℤ × ℕ) (s : Server)
      → Has fds s
      → Has (fds ++ client_of listen_fd event) (handle_event env config backlog listen_fd event s).1
  unfolding handle_event
  handle_event-Has fds backlog listen_fd (fd, flags) s h = elim (Bool-cases (int_eq fd listen_fd)) [
    | inl e ↦ rw (e, append-nil fds) (accept_loop-HasRead fds backlog listen_fd s.machine h)
    | inr e ↦ elim (Bool-cases (flags % 2 == 1)) [
      | inl f ↦
          rw (e, f)
            (bind-keeps (Has (fds ++ fd ∷ [])) (settle (on_machine (Epoll.read kernel fd 8192) s)) _
              (attempt-keeps (Has (fds ++ fd ∷ [])) (on_machine (Epoll.read kernel fd 8192) s)
                (read-HasRead fds fd 8192 s.machine h))
              (λ r s₁ h₁. after_read-Has (fds ++ fd ∷ []) fd r s₁ h₁))
      | inr f ↦ rw (e, f, append-nil fds) h
    ]
  ]

  -- After a round that began when `fds` had been read from: each client of its events has been read
  -- from, in order; or an error or a panic ended it, and so it is for the events up to some event.
  abbrev pub Attends : List ℤ → ℤ → List (ℤ × ℕ) → Outcome (Unit {0}) × Server → Type 0
  Attends fds listen_fd events (ok _, s) =
      read_from s.machine.trace ≡ fds ++ clients listen_fd events
  Attends fds listen_fd events (_, s) =
      (met missed : List (ℤ × ℕ)) × (events ≡ met ++ missed)
      × (read_from s.machine.trace ≡ fds ++ clients listen_fd met)

  -- One event first.
  cons-Attends :
      (fds : List ℤ) (listen_fd : ℤ) (event : ℤ × ℕ) (events : List (ℤ × ℕ))
      (p : Outcome (Unit {0}) × Server)
      → Attends (fds ++ client_of listen_fd event) listen_fd events p
      → Attends fds listen_fd (event ∷ events) p
  cons-Attends fds listen_fd event events (ok _, s) h =
      h ∙ append_assoc fds (client_of listen_fd event) (clients listen_fd events)
  cons-Attends fds listen_fd event events (err e, s) (met, missed, whole, h) = (
    event ∷ met,
    missed,
    ap (λ l. event ∷ l) whole,
    h ∙ append_assoc fds (client_of listen_fd event) (clients listen_fd met),
  )
  cons-Attends fds listen_fd event events (panic, s) (met, missed, whole, h) = (
    event ∷ met,
    missed,
    ap (λ l. event ∷ l) whole,
    h ∙ append_assoc fds (client_of listen_fd event) (clients listen_fd met),
  )

  -- The first event, then the others unless it ended the round.
  bind-Attends :
      (fds : List ℤ) (listen_fd : ℤ) (event : ℤ × ℕ) (events : List (ℤ × ℕ))
      (p : Outcome (Unit {0}) × Server) (rest : St Server (Unit {0}))
      → Has (fds ++ client_of listen_fd event) p.1
      → ((s : Server)
          → Has (fds ++ client_of listen_fd event) s
          → Attends (fds ++ client_of listen_fd event) listen_fd events (rest s))
      → Attends fds listen_fd (event ∷ events) (bind p λ _. rest)
  bind-Attends fds listen_fd event events (ok _, s) rest h k =
      cons-Attends fds listen_fd event events (rest s) (k s h)
  bind-Attends fds listen_fd event events (err e, s) rest h k = (
    event ∷ [],
    events,
    refl,
    h ∙ ap (λ l. fds ++ l) (sym (append-nil (client_of listen_fd event))),
  )
  bind-Attends fds listen_fd event events (panic, s) rest h k = (
    event ∷ [],
    events,
    refl,
    h ∙ ap (λ l. fds ++ l) (sym (append-nil (client_of listen_fd event))),
  )

  handle_events-Has :
      (backlog : ℕ) (listen_fd : ℤ) (events : List (ℤ × ℕ)) (fds : List ℤ) (s : Server)
      → Has fds s
      → Attends fds listen_fd events (handle_events env config backlog listen_fd events s)
  unfolding handle_events
  handle_events-Has backlog listen_fd [] fds s h = h ∙ sym (append-nil fds)
  handle_events-Has backlog listen_fd (event ∷ events) fds s h =
      bind-Attends fds listen_fd event events (handle_event env config backlog listen_fd event s)
        (handle_events env config backlog listen_fd events)
        (handle_event-Has fds backlog listen_fd event s h)
        (handle_events-Has backlog listen_fd events (fds ++ client_of listen_fd event))

  -- Whatever the clients and the kernel do, the events of a wait are attended to in order: each client
  -- that can be read from is read from once for each of its events, and nobody else is. If an error or
  -- a panic ends the round, this holds of the events up to one of them, and the others are missed.
  pub handle_events-Attends :
      (backlog : ℕ) (listen_fd : ℤ) (events : List (ℤ × ℕ)) (s : Server)
      → Attends
          (read_from s.machine.trace)
          listen_fd
          events
          (handle_events env config backlog listen_fd events s)
  handle_events-Attends backlog listen_fd events s =
      handle_events-Has backlog listen_fd events (read_from s.machine.trace) s refl
