-- ===== src/Worker/Reactor/Writes.antt =====
-- `event_loop` of src/worker/reactor.rs: what is handed to `write`.
use rust_kernel_engine.Base.{
  ◌+◌, ◌^◌, ℕ, ◌≡◌, refl, ◌∙◌, ap, ℤ, List, [], ◌∷◌, Bool, true, false, ◌&&◌, Option, none, some,
  Outcome, ok, err, panic, arith,
}
use rust_kernel_engine.State.{bind, bind-keeps}
use rust_kernel_engine.Config.{ServerConfig}
use rust_kernel_engine.Http.Parser.{parse}
use rust_kernel_engine.Http.Response.{HttpResponse, to_bytes}
use rust_kernel_engine.Http.Response.Plain.{IsPlain, is_answer_code, read_response-IsPlain}
use rust_kernel_engine.Http.Response.Reader.{read_response, Reading}
use rust_kernel_engine.Os.{Syscall, Trace}
use rust_kernel_engine.Os.Quiet.{Ignores}
use rust_kernel_engine.Net.Epoll
use rust_kernel_engine.Net.Epoll.{Machine}
use rust_kernel_engine.Net.Epoll.Drop.{drop-keeps}
use rust_kernel_engine.Net.Epoll.Calls.{view-accept, view-read, view-process_events}
use rust_kernel_engine.Worker.Reactor.Calls.{view-respond}
use rust_kernel_engine.Worker.Reactor.Delivery.{Plain, respond-Plain}
use rust_kernel_engine.Worker.Reactor.Keeping.{
  Keeps, keeps-Admits, keeps-serves, event_rounds-keeps,
}
use rust_kernel_engine.Worker.Reactor.{
  Environment, Server, Metrics, on_machine, update_metrics, respond, handle_request, event_rounds,
  event_loop, enter, leave,
}

abbrev pub reads_answer : Option Reading → Bool
reads_answer none = false
reads_answer (some r) = is_answer_code r.code

-- A client can read a response from the bytes, and its code is 200, 400 or 404.
abbrev pub is_answer : List ℕ → Bool
is_answer bytes = reads_answer (read_response bytes)

abbrev answers_after : Syscall → Bool → Bool
answers_after (Syscall.write fd bytes) before = is_answer bytes && before
answers_after _ before = before

-- Does each `write` of the trace send an answer?
abbrev pub writes_answers : Trace → Bool
writes_answers [] = true
writes_answers ((call, reply) ∷ t) = answers_after call (writes_answers t)

pub writes_answers-Ignores : Ignores writes_answers
writes_answers-Ignores (Syscall.write fd bytes) reply t quiet = cc
writes_answers-Ignores _ reply t quiet = refl

abbrev pub Answers : Machine → Type 0
Answers s = writes_answers s.trace ≡ true

module _ (env : Environment) (config : ServerConfig) where
  open env use {connection_order, kernel, httparse, lowercase, iteration}

  is_answer-to_bytes : (r : HttpResponse) → IsPlain r → is_answer (to_bytes iteration r) ≡ true
  is_answer-to_bytes r plain =
      rw (ap reads_answer (read_response-IsPlain iteration r plain)) plain.answer_code

  write_out-Answers :
      (fd : ℤ) (p : Outcome HttpResponse × Server) (grow : HttpResponse → Metrics → Metrics)
      → Plain p.0
      → Answers p.1.machine
      → Answers
          (bind p λ response. λ s.
            bind
              (on_machine (Epoll.write kernel fd (to_bytes iteration response)) s)
              λ _. update_metrics (grow response)).1.machine
  unfolding Epoll.write
  write_out-Answers fd (ok r, s) grow plain h =
      let sent : Answers (Epoll.write kernel fd (to_bytes iteration r) s.machine).1 =
        ground (arith, is_answer-to_bytes r plain) in
      bind-keeps (λ (s' : Server). Answers s'.machine)
        (on_machine (Epoll.write kernel fd (to_bytes iteration r)) s) _ sent (λ _ s' h'. h')
  write_out-Answers fd (err e, s) grow plain h = h
  write_out-Answers fd (panic, s) grow plain h = h

  handle_request-Answers :
      (fd : ℤ) (buf : List ℕ) (s : Server)
      → Answers s.machine
      → Answers (handle_request env config fd buf s).1.machine
  unfolding handle_request
  handle_request-Answers fd buf s h =
      let r = parse lowercase httparse buf in
      write_out-Answers fd (respond env config r _) _ (respond-Plain env config r _)
        (view-respond writes_answers writes_answers-Ignores env config r _ ∙ h)

  close-Answers : (fd : ℤ) (s : Machine) → Answers s → Answers (Epoll.close kernel fd s).1
  unfolding Epoll.close Epoll.unregister
  close-Answers fd s h = grind arith

  register-Answers :
      (fd : ℤ) (events : ℕ) (s : Machine)
      → Answers s
      → Answers (Epoll.register kernel fd events s).1
  unfolding Epoll.register
  register-Answers fd events s h = grind arith

  keeps-Answers : Keeps env config (λ m. Answers)
  keeps-Answers = record {
    accepts = λ m fd s h.
        keeps-Admits Answers kernel (Epoll.accept kernel fd s)
          (λ client. register-Answers client (1 + 2 ^ 31))
          (view-accept writes_answers writes_answers-Ignores kernel fd s ∙ h);
    serves =
        keeps-serves env config (λ m. Answers)
          (λ m fd len s h.
            view-read writes_answers writes_answers-Ignores kernel (λ g n reply t. refl) fd len s
            ∙ h)
          (λ m. close-Answers) handle_request-Answers;
    waits = λ m timeout s h.
        view-process_events writes_answers writes_answers-Ignores kernel timeout s ∙ h;
  }

  leave-Answers :
      (r : Outcome (Unit {0}) × Server)
      → Answers r.1.machine
      → writes_answers (leave env config r).1 ≡ true
  unfolding leave
  leave-Answers (ok _, s) h =
      drop-keeps Answers kernel close-Answers (λ fd s' h'. h') connection_order s.machine h
  leave-Answers (err e, s) h =
      drop-keeps Answers kernel close-Answers (λ fd s' h'. h') connection_order s.machine h
  leave-Answers (panic, s) h = h

  enter-Answers :
      (backlog : ℕ) (listen_fd : ℤ) (loads : List Bool) (m : Metrics)
      (r : Outcome Epoll.EpollBackend × Trace)
      → writes_answers r.1 ≡ true
      → writes_answers (enter env config backlog listen_fd loads m r).1 ≡ true
  unfolding enter
  enter-Answers backlog listen_fd loads m (ok backend, t) h =
      let s : Server = record { machine = record { backend = backend; trace = t }; metrics = m } in
      leave-Answers
        (bind (on_machine (Epoll.register kernel listen_fd 1) s)
          λ _. event_rounds env config backlog listen_fd loads)
        (bind-keeps (λ (s' : Server). Answers s'.machine)
          (on_machine (Epoll.register kernel listen_fd 1) s)
          (λ _. event_rounds env config backlog listen_fd loads)
          (register-Answers listen_fd 1 s.machine h)
          (λ _. event_rounds-keeps env config (λ m. Answers) keeps-Answers backlog listen_fd loads))
  enter-Answers backlog listen_fd loads m (err e, t) h = h
  enter-Answers backlog listen_fd loads m (panic, t) h = h

  -- Whatever the clients and the kernel do, and however the loop ends: if each earlier `write` sent an
  -- answer that a client can read, with the code 200, 400 or 404, then so does each of the loop's.
  pub event_loop-writes_answers :
      (backlog : ℕ) (listen_fd : ℤ) (loads : List Bool) (m : Metrics) (t : Trace)
      → writes_answers t ≡ true
      → writes_answers (event_loop env config backlog listen_fd loads m t).1 ≡ true
  unfolding event_loop Epoll.new
  event_loop-writes_answers backlog listen_fd loads m t h =
      enter-Answers backlog listen_fd loads m (Epoll.new kernel 1024 t) h
