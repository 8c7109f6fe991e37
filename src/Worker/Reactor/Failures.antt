-- ===== src/Worker/Reactor/Failures.antt =====
-- `event_loop` and `handle_request` of src/worker/reactor.rs when a client sends its request in parts,
-- or does not take the answer.
use rust_kernel_engine.Base.{
  ℕ, ◌+◌, ◌^◌, ◌%◌, ◌≡◌, refl, ap, ◌∙◌, ◌⊎◌, ℤ, pos, is_neg, int_eq, List, [], ◌∷◌, Bool, true,
  false, not, ◌&&◌, some, Outcome, ok, err, panic, arith, write_failed, ltb, ◌==◌, Bool-cases, inl,
  inr,
}
use rust_kernel_engine.State.{St, bind, settle, attempt-keeps}
use rust_kernel_engine.Config.{ServerConfig}
use rust_kernel_engine.Http.Parser.{Parsed, partial, parse}
use rust_kernel_engine.Http.Response.{bad_request, to_bytes}
use rust_kernel_engine.Os.{Reply, Syscall, Trace}
use rust_kernel_engine.Os.Quiet.{Ignores}
use rust_kernel_engine.Net.Epoll
use rust_kernel_engine.Net.Epoll.{Machine}
use rust_kernel_engine.Net.Epoll.Calls.{view-accept, view-read, view-process_events}
use rust_kernel_engine.Worker.Reactor.Calls.{view-respond}
use rust_kernel_engine.Worker.Reactor.Keeping.{keeps-Admits, accept_loop-keeps, serve_read}
use rust_kernel_engine.Worker.Reactor.{
  Environment, Server, on_machine, respond, handle_request, after_read, accept_loop, handle_event,
  handle_events, event_rounds,
}
use rust_kernel_engine.Worker.Reactor.Requests.{counted, asked}

-- Has every `write` so far succeeded?
abbrev pub all_written : Trace → Bool
all_written [] = true
all_written ((Syscall.write fd buf, reply) ∷ t) = not (is_neg reply.ret) && all_written t
all_written (_ ∷ t) = all_written t

all_written-Ignores : Ignores all_written
all_written-Ignores (Syscall.write fd buf) reply t quiet = cc
all_written-Ignores _ reply t quiet = refl

-- The last call is a `write` that failed, and the first one that did.
abbrev pub EndsInWrite : Trace → Type 0
EndsInWrite t =
    (fd : ℤ) × (buf : List ℕ) × (reply : Reply) × (earlier : Trace) × (t
      ≡ (Syscall.write fd buf, reply) ∷ earlier)
    × (is_neg reply.ret ≡ true)
    × (all_written earlier ≡ true)

-- Either no `write` has failed, or the result is its error and nothing was done after it.
abbrev pub Stops {ℓ} : {A : Type ℓ} → Outcome A × Server → Type 0
Stops (ok _, s) = all_written s.machine.trace ≡ true
Stops (err e, s) =
    (all_written s.machine.trace ≡ true) ⊎ ((e ≡ write_failed) × EndsInWrite s.machine.trace)
Stops (panic, s) = all_written s.machine.trace ≡ true

weaken {ℓ} : {A : Type ℓ} (r : Outcome A × Server) → all_written r.1.machine.trace ≡ true → Stops r
weaken (ok a, s) h = h
weaken (err e, s) h = inl h
weaken (panic, s) h = h

bind-Stops {ℓ κ} :
    {A : Type ℓ} {B : Type κ} (r : Outcome A × Server) (k : A → St Server B)
    → Stops r
    → ((a : A) (s : Server) → all_written s.machine.trace ≡ true → Stops (k a s))
    → Stops (bind r k)
bind-Stops (ok a, s) k h next = next a s h
bind-Stops (err e, s) k h next = h
bind-Stops (panic, s) k h next = h

module _ (env : Environment) (config : ServerConfig) where
  open env use {kernel, httparse, lowercase, iteration}

  abbrev Good : Machine → Type 0
  Good s = all_written s.trace ≡ true

  write-Stops :
      (fd : ℤ) (buf : List ℕ) (s : Server)
      → Good s.machine
      → Stops (on_machine (Epoll.write kernel fd buf) s)
  unfolding Epoll.write
  write-Stops fd buf s h =
      elim (Bool-cases (is_neg (kernel s.machine.trace (Syscall.write fd buf)).ret)) [
        | inl failed ↦ rw failed (inr (refl, (fd, buf, _, s.machine.trace, refl, failed, h)))
        | inr written ↦ rw written (ap (λ b. not b && all_written s.machine.trace) written ∙ h)
      ]

  handle_request-Stops :
      (fd : ℤ) (buf : List ℕ) (s : Server)
      → Good s.machine
      → Stops (handle_request env config fd buf s)
  unfolding handle_request
  handle_request-Stops fd buf s h =
      let r = parse lowercase httparse buf in
      bind-Stops (respond env config r (counted env config s)) _
        (weaken (respond env config r (counted env config s))
          (view-respond all_written all_written-Ignores env config r (counted env config s) ∙ h))
        (λ response s₁ h₁.
          bind-Stops (on_machine (Epoll.write kernel fd (to_bytes iteration response)) s₁) _
            (write-Stops fd (to_bytes iteration response) s₁ h₁) (λ n s₂ h₂. h₂))

  close-Good : (fd : ℤ) (s : Machine) → Good s → Good (Epoll.close kernel fd s).1
  unfolding Epoll.close Epoll.unregister
  close-Good fd s h = grind arith

  register-Good :
      (fd : ℤ) (events : ℕ) (s : Machine) → Good s → Good (Epoll.register kernel fd events s).1
  unfolding Epoll.register
  register-Good fd events s h = grind arith

  after_read-Stops :
      (fd : ℤ) (r : Outcome (ℕ × List ℕ)) (s : Server)
      → Good s.machine
      → Stops (after_read env config fd r s)
  unfolding after_read
  after_read-Stops fd (ok (n, bytes)) s h = elim (Bool-cases (ltb 0 n)) [
    | inl e ↦ rw e (handle_request-Stops fd _ s h)
    | inr e ↦ rw e (weaken (on_machine (Epoll.close kernel fd) s) (close-Good fd s.machine h))
  ]
  after_read-Stops fd (err e) s h =
      weaken (on_machine (Epoll.close kernel fd) s) (close-Good fd s.machine h)
  after_read-Stops fd panic s h = h

  serve_read-Stops : (fd : ℤ) (s : Server) → Good s.machine → Stops (serve_read env config fd s)
  serve_read-Stops fd s h =
      let read = on_machine (Epoll.read kernel fd 8192) s in
      bind-Stops (settle read) (after_read env config fd)
        (weaken (settle read) (
          attempt-keeps (λ (s' : Server). Good s'.machine) read
            (view-read all_written all_written-Ignores kernel (λ g n reply t. refl) fd 8192
                s.machine
              ∙ h)))
        (after_read-Stops fd)

  accepting-Good :
      (fuel : ℕ) (fd : ℤ) (s : Machine) → Good s → Good (accept_loop env config fuel fd s).1
  accepting-Good = accept_loop-keeps env config Good λ fd s h.
      keeps-Admits Good kernel (Epoll.accept kernel fd s)
        (λ client. register-Good client (1 + 2 ^ 31))
        (view-accept all_written all_written-Ignores kernel fd s ∙ h)

  handle_event-Stops :
      (backlog : ℕ) (listen_fd : ℤ) (event : ℤ × ℕ) (s : Server)
      → Good s.machine
      → Stops (handle_event env config backlog listen_fd event s)
  unfolding handle_event
  handle_event-Stops backlog listen_fd (fd, flags) s h = elim (Bool-cases (int_eq fd listen_fd)) [
    | inl e ↦ rw e (
        weaken (on_machine (accept_loop env config backlog listen_fd) s)
          (accepting-Good backlog listen_fd s.machine h))
    | inr e ↦ elim (Bool-cases (flags % 2 == 1)) [
      | inl f ↦ rw (e, f) (serve_read-Stops fd s h)
      | inr f ↦ rw (e, f) h
    ]
  ]

  handle_events-Stops :
      (backlog : ℕ) (listen_fd : ℤ) (events : List (ℤ × ℕ)) (s : Server)
      → Good s.machine
      → Stops (handle_events env config backlog listen_fd events s)
  unfolding handle_events
  handle_events-Stops backlog listen_fd [] s h = h
  handle_events-Stops backlog listen_fd (event ∷ events) s h =
      bind-Stops (handle_event env config backlog listen_fd event s) _
        (handle_event-Stops backlog listen_fd event s h)
        (λ _. handle_events-Stops backlog listen_fd events)

  -- Whatever the clients and the kernel do: if no `write` has failed before, then the rounds of the
  -- event loop end with none that failed, or they end with the error of the first `write` that fails,
  -- as their last system call.
  pub event_rounds-Stops :
      (backlog : ℕ) (listen_fd : ℤ) (loads : List Bool) (s : Server)
      → all_written s.machine.trace ≡ true
      → Stops (event_rounds env config backlog listen_fd loads s)
  unfolding event_rounds
  event_rounds-Stops backlog listen_fd [] s h = h
  event_rounds-Stops backlog listen_fd (false ∷ loads) s h = h
  event_rounds-Stops backlog listen_fd (true ∷ loads) s h =
      let waited = on_machine (Epoll.process_events kernel (pos 100)) s in
      bind-Stops waited _
        (weaken waited
          (view-process_events all_written all_written-Ignores kernel (pos 100) s.machine ∙ h))
        (λ events s₁ h₁.
          bind-Stops (handle_events env config backlog listen_fd events s₁) _
            (handle_events-Stops backlog listen_fd events s₁ h₁)
            (λ _. event_rounds-Stops backlog listen_fd loads))

  -- A request whose head has not come whole in one `read` is answered at once by `400 Bad Request`:
  -- the only system call is the `write` of that response, and the backend is as before.
  pub handle_request_partial :
      (fd : ℤ) (buf : List ℕ) (s : Server) (p : Parsed)
      → httparse buf ≡ some p
      → p.status ≡ partial
      → (handle_request env config fd buf s).1.machine ≡ record (s.machine) {
        trace =
            asked env config (Syscall.write fd (to_bytes iteration bad_request)) s.machine.trace;
      }
  unfolding handle_request respond parse Epoll.write
  handle_request_partial fd buf s p found part =
      rw (found, part)
        (elim (Bool-cases (
          is_neg
            (kernel s.machine.trace (Syscall.write fd (to_bytes iteration bad_request))).ret)) [
              | inl failed ↦ rw failed refl
              | inr written ↦ rw written refl
            ])
