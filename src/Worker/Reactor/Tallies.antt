-- ===== src/Worker/Reactor/Tallies.antt =====
-- `event_loop` of src/worker/reactor.rs: the counters against the calls of `read` and `write`.
use native.Mathlib.Nat.{mod-add-mod}
use rust_kernel_engine.Base.{
  ℕ, ◌+◌, ◌%◌, ◌^◌, ◌≡◌, is_positive, sign-cases, inl, inr, refl, sym, ap, subst, ◌∙◌, ℤ, is_neg,
  List, [], ◌∷◌, length, Bool, Outcome, ok, err, panic, arith, if◌then◌else◌,
}
use rust_kernel_engine.State.{bind, bind-keeps}
use rust_kernel_engine.Config.{ServerConfig}
use rust_kernel_engine.Http.Parser.{parse}
use rust_kernel_engine.Http.Response.{HttpResponse, to_bytes}
use rust_kernel_engine.Os.{Syscall, Reply, Trace}
use rust_kernel_engine.Os.Quiet.{Ignores}
use rust_kernel_engine.Net.Epoll
use rust_kernel_engine.Net.Epoll.{Machine}
use rust_kernel_engine.Net.Epoll.Drop.{drop-keeps}
use rust_kernel_engine.Net.Epoll.Calls.{view-accept, view-process_events}
use rust_kernel_engine.Worker.Reactor.Calls.{view-respond}
use rust_kernel_engine.Worker.Reactor.Keeping.{Keeps, keeps-Admits, serve_read, event_rounds-keeps}
use rust_kernel_engine.Worker.Reactor.Requests.{counted, respond-metrics}
use rust_kernel_engine.Worker.Reactor.{
  Environment, Server, Metrics, on_machine, update_metrics, add_u64, respond, handle_request,
  after_read, event_rounds, event_loop, enter, leave,
}

-- The bytes handed to each `write` that did not fail, in all; the number of these calls; and the
-- number of calls of `read` that returned bytes.
abbrev tally_after : Syscall → Reply → ℕ × ℕ × ℕ → ℕ × ℕ × ℕ
tally_after (Syscall.write fd buf) reply (bytes, count, requests) =
    if is_neg reply.ret then (bytes, count, requests) else (bytes + length buf, count + 1, requests)
tally_after (Syscall.read fd len) reply (bytes, count, requests) =
    (bytes, count, if is_positive reply.ret then requests + 1 else requests)
tally_after _ reply before = before

abbrev pub tally : Trace → ℕ × ℕ × ℕ
tally [] = (0, 0, 0)
tally ((call, reply) ∷ t) = tally_after call reply (tally t)

pub tally-Ignores : Ignores tally
tally-Ignores (Syscall.write fd bytes) reply t quiet = cc
tally-Ignores (Syscall.read fd len) reply t quiet = cc
tally-Ignores _ reply t quiet = refl

-- The counters say what was written and read, up to the wrap-around of a `u64`.
abbrev pub Tells : Metrics → ℕ × ℕ × ℕ → Type 0
Tells m (bytes, count, requests) =
    (m.bytes_sent ≡ bytes % 2 ^ 64)
    × (m.requests_duration ≡ count % 2 ^ 64)
    × (m.requests_total ≡ requests % 2 ^ 64)

abbrev Told : Metrics → Machine → Type 0
Told m s = Tells m (tally s.trace)

pub Tells-subst : (m m' : Metrics) (a b : ℕ × ℕ × ℕ) → m' ≡ m → b ≡ a → Tells m a → Tells m' b
Tells-subst m m' a b e f h = subst (λ n. Tells n b) (sym e) (subst (λ c. Tells m c) (sym f) h)

module _ (env : Environment) (config : ServerConfig) where
  open env use {connection_order, kernel, httparse, lowercase, iteration}

  abbrev Kept : Server → Type 0
  Kept s = Told s.metrics s.machine

  -- A response is written and counted.
  abbrev write_out : ℤ → HttpResponse → Server → Outcome (Unit {0}) × Server
  write_out fd response s =
      bind (on_machine (Epoll.write kernel fd (to_bytes iteration response)) s) λ _.
        update_metrics (λ m. record m {
          bytes_sent = add_u64 m.bytes_sent (length (to_bytes iteration response));
          requests_duration = add_u64 m.requests_duration 1;
        })

  write_out-Kept : (fd : ℤ) (r : HttpResponse) (s : Server) → Kept s → Kept (write_out fd r s).1
  unfolding Epoll.write
  write_out-Kept fd r s (bytes, count, requests) =
      let buf = to_bytes iteration r in
      let (sum, writes, _) = tally s.machine.trace in
      let grown : add_u64 s.metrics.bytes_sent (length buf) ≡ (sum + length buf) % 2 ^ 64 =
        ap (λ n. add_u64 n (length buf)) bytes ∙ mod-add-mod sum (2 ^ 64) (length buf) in
      let one_more : add_u64 s.metrics.requests_duration 1 ≡ (writes + 1) % 2 ^ 64 =
        ap (λ n. add_u64 n 1) count ∙ mod-add-mod writes (2 ^ 64) 1 in
      ground (arith, grown, one_more, bytes, count, requests)

  handle_request-Kept :
      (fd : ℤ) (buf : List ℕ) (s : Server)
      → Kept (counted env config s)
      → Kept (handle_request env config fd buf s).1
  unfolding handle_request
  handle_request-Kept fd buf s h =
      let r = parse lowercase httparse buf in
      bind-keeps Kept (respond env config r (counted env config s)) (write_out fd)
        (Tells-subst (counted env config s).metrics
          (respond env config r (counted env config s)).1.metrics (tally s.machine.trace)
          (tally (respond env config r (counted env config s)).1.machine.trace)
          (respond-metrics env config r (counted env config s))
          (view-respond tally tally-Ignores env config r (counted env config s)) h)
        (write_out-Kept fd)

  close-Told : (m : Metrics) (fd : ℤ) (s : Machine) → Told m s → Told m (Epoll.close kernel fd s).1
  unfolding Epoll.close Epoll.unregister
  close-Told m fd s (bytes, count, requests) = ground (arith, bytes, count, requests)

  register-Told :
      (m : Metrics) (fd : ℤ) (events : ℕ) (s : Machine)
      → Told m s
      → Told m (Epoll.register kernel fd events s).1
  unfolding Epoll.register
  register-Told m fd events s (bytes, count, requests) = ground (arith, bytes, count, requests)

  -- A change that the view does not see.
  unseen : (m : Metrics) (s s' : Machine) → tally s'.trace ≡ tally s.trace → Told m s → Told m s'
  unseen m s s' e h = Tells-subst m m (tally s.trace) (tally s'.trace) refl e h

  -- A `read` that returned bytes is one request more to be counted.
  serves-Told : (fd : ℤ) (s : Server) → Kept s → Kept (serve_read env config fd s).1
  unfolding Epoll.read after_read
  serves-Told fd s (bytes, count, requests) =
      let t = s.machine.trace in
      let read : Trace = (Syscall.read fd 8192, kernel t (Syscall.read fd 8192)) ∷ t in
      let s' : Machine = record (s.machine) { trace = read } in
      let total = (tally t).2 in
      let one_more : add_u64 s.metrics.requests_total 1 ≡ (total + 1) % 2 ^ 64 =
        ap (λ n. add_u64 n 1) requests ∙ mod-add-mod total (2 ^ 64) 1 in
      elim (sign-cases (kernel t (Syscall.read fd 8192)).ret) [
        | inl (failed, none_came) ↦
            rw failed (close-Told s.metrics fd s' (rw none_came (bytes, count, requests)))
        | inr (inl (came, empty, none_came)) ↦
            rw (came, empty) (close-Told s.metrics fd s' (rw none_came (bytes, count, requests)))
        | inr (inr (came, some_came, one)) ↦
            rw (came, some_came)
              (handle_request-Kept fd _ (record s { machine = s' })
                (rw one (bytes, count, one_more)))
      ]

  keeps-Told : Keeps env config Told
  keeps-Told = record {
    accepts = λ m fd s h.
        keeps-Admits (Told m) kernel (Epoll.accept kernel fd s)
          (λ client. register-Told m client (1 + 2 ^ 31))
          (unseen m s (Epoll.accept kernel fd s).1 (view-accept tally tally-Ignores kernel fd s) h);
    serves = serves-Told;
    waits = λ m timeout s.
        unseen m s (Epoll.process_events kernel timeout s).1
          (view-process_events tally tally-Ignores kernel timeout s);
  }

  leave-Tells :
      (r : Outcome (Unit {0}) × Server)
      → Kept r.1
      → Tells (leave env config r).2 (tally (leave env config r).1)
  unfolding leave
  leave-Tells (ok _, s) h =
      drop-keeps (Told s.metrics) kernel (close-Told s.metrics) (λ fd s' h'. h') connection_order
        s.machine h
  leave-Tells (err e, s) h =
      drop-keeps (Told s.metrics) kernel (close-Told s.metrics) (λ fd s' h'. h') connection_order
        s.machine h
  leave-Tells (panic, s) h = h

  enter-Tells :
      (backlog : ℕ) (listen_fd : ℤ) (loads : List Bool) (m : Metrics)
      (r : Outcome Epoll.EpollBackend × Trace)
      → Tells m (tally r.1)
      → Tells
          (enter env config backlog listen_fd loads m r).2
          (tally (enter env config backlog listen_fd loads m r).1)
  unfolding enter
  enter-Tells backlog listen_fd loads m (ok backend, t) h =
      let s : Server = record { machine = record { backend = backend; trace = t }; metrics = m } in
      leave-Tells
        (bind (on_machine (Epoll.register kernel listen_fd 1) s)
          λ _. event_rounds env config backlog listen_fd loads)
        (bind-keeps Kept (on_machine (Epoll.register kernel listen_fd 1) s)
          (λ _. event_rounds env config backlog listen_fd loads)
          (register-Told m listen_fd 1 s.machine h)
          (λ _. event_rounds-keeps env config Told keeps-Told backlog listen_fd loads))
  enter-Tells backlog listen_fd loads m (err e, t) h = h
  enter-Tells backlog listen_fd loads m (panic, t) h = h

  -- Whatever the clients and the kernel do, and however the loop ends: if the counters say before
  -- what was read and written so far, they do so when `event_loop` has returned.
  pub event_loop-Tells :
      (backlog : ℕ) (listen_fd : ℤ) (loads : List Bool) (m : Metrics) (t : Trace)
      → Tells m (tally t)
      → Tells
          (event_loop env config backlog listen_fd loads m t).2
          (tally (event_loop env config backlog listen_fd loads m t).1)
  unfolding event_loop Epoll.new
  event_loop-Tells backlog listen_fd loads m t h =
      enter-Tells backlog listen_fd loads m (Epoll.new kernel 1024 t) h
