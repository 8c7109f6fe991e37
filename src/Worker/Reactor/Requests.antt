-- ===== src/Worker/Reactor/Requests.antt =====
-- `handle_request` of src/worker/reactor.rs: its counters and its errors.
use rust_kernel_engine.Base.{
  ℕ, ◌≡◌, refl, subst, ap, inl, inr, ℤ, pos, is_neg, List, ◌∷◌, false, Outcome, ok, err, panic,
  Error, empty_file, length, Bool-cases, lt→ltb, ◌<◌,
}
use rust_kernel_engine.State.{St, bind, bind-keeps}
use rust_kernel_engine.Std.Keys.{Text}
use rust_kernel_engine.Std.FilePath.{join}
use rust_kernel_engine.Config.{ServerConfig, ServerMode, fast_path, dynamic_path}
use rust_kernel_engine.Http.Parser.{HttpRequest, parse, clean_path}
use rust_kernel_engine.Http.Response.{HttpResponse, to_bytes}
use rust_kernel_engine.Os.{Trace, Syscall, Reply, exists_path, open_file, file_size}
use rust_kernel_engine.File.Mmap.Mapping.{new-empty_file}
use rust_kernel_engine.Net.Epoll
use rust_kernel_engine.Net.Epoll.{Machine, M}
use rust_kernel_engine.Worker.Reactor.{
  Environment, Server, Metrics, on_machine, update_metrics, add_u64, dispatch, respond,
  handle_request, handle_event, handle_events, handle_static_file, serve_file, tail_of,
}

module _ (env : Environment) (config : ServerConfig) where
  open env use {kernel, httparse, lowercase, iteration}

  dispatch-metrics :
      (m : ServerMode) (req : HttpRequest) (s : Server)
      → (dispatch env config m req s).1.metrics ≡ s.metrics
  unfolding dispatch
  dispatch-metrics fast_path req s = refl
  dispatch-metrics dynamic_path req s = refl

  pub respond-metrics :
      (r : Outcome HttpRequest) (s : Server) → (respond env config r s).1.metrics ≡ s.metrics
  unfolding respond
  respond-metrics (err e) s = refl
  respond-metrics panic s = refl
  respond-metrics (ok req) s = dispatch-metrics config.mode req s

  -- What a request does to the counters. An answered request counts the bytes handed to `write`, the
  -- last call of the trace, and one duration; one that fails counts neither.
  abbrev Counts : ℤ → Metrics → Outcome (Unit {0}) × Server → Type 0
  Counts fd m (ok _, s) =
      (bytes : List ℕ) × (reply : Reply) × (earlier : Trace) × (s.machine.trace
        ≡ (Syscall.write fd bytes, reply) ∷ earlier)
      × (s.metrics.bytes_sent ≡ add_u64 m.bytes_sent (length bytes))
      × (s.metrics.requests_duration ≡ add_u64 m.requests_duration 1)
  Counts fd m (_, s) =
      (s.metrics.bytes_sent ≡ m.bytes_sent) × (s.metrics.requests_duration ≡ m.requests_duration)

  write_response-Counts :
      (fd : ℤ) (bytes : List ℕ) (s : Server)
      → Counts fd s.metrics (
          bind (on_machine (Epoll.write kernel fd bytes) s) λ _. update_metrics (λ m. record m {
            bytes_sent = add_u64 m.bytes_sent (length bytes);
            requests_duration = add_u64 m.requests_duration 1;
          }))
  unfolding Epoll.write
  write_response-Counts fd bytes s =
      elim (Bool-cases (is_neg (kernel s.machine.trace (Syscall.write fd bytes)).ret)) [
        | inl e ↦ rw e (refl, refl)
        | inr e ↦ rw e (bytes, _, s.machine.trace, refl, refl, refl)
      ]

  respond-Counts :
      (fd : ℤ) (m : Metrics) (r : Outcome HttpResponse × Server)
      (k : HttpResponse → St Server (Unit {0}))
      → r.1.metrics ≡ m
      → ((response : HttpResponse) (s : Server) → Counts fd s.metrics (k response s))
      → Counts fd m (bind r k)
  respond-Counts fd m (ok response, s) k e h =
      subst (λ n. Counts fd n (k response s)) e (h response s)
  respond-Counts fd m (err f, s) k e h = (ap (λ n. n.bytes_sent) e, ap (λ n. n.requests_duration) e)
  respond-Counts fd m (panic, s) k e h = (ap (λ n. n.bytes_sent) e, ap (λ n. n.requests_duration) e)

  -- The server when a request has been counted.
  abbrev pub counted : Server → Server
  counted s = record s {
    metrics = record (s.metrics) { requests_total = add_u64 s.metrics.requests_total 1 };
  }

  -- Every request is counted once, whatever becomes of it. One that is answered adds one duration,
  -- and to the bytes sent the length of what it handed to `write`, its last system call, however many
  -- bytes the kernel took of it. One that ends in an error or a panic adds neither.
  handle_request-Counts :
      (fd : ℤ) (buf : List ℕ) (s : Server)
      → ((handle_request env config fd buf s).1.metrics.requests_total
          ≡ add_u64 s.metrics.requests_total 1)
        × Counts fd s.metrics (handle_request env config fd buf s)
  unfolding handle_request
  handle_request-Counts fd buf s =
      let r = parse lowercase httparse buf in
      let same = respond-metrics r (counted s) in
      (
        bind-keeps (λ s'. s'.metrics.requests_total ≡ add_u64 s.metrics.requests_total 1)
            (respond env config r (counted s)) _ (ap (λ (m : Metrics). m.requests_total) same)
            (λ response s₁ h₁.
              bind-keeps (λ s'. s'.metrics.requests_total ≡ add_u64 s.metrics.requests_total 1)
                (on_machine (Epoll.write kernel fd (to_bytes iteration response)) s₁) _ h₁
                (λ n s₂ h₂. h₂)),
        respond-Counts fd (counted s).metrics (respond env config r (counted s)) _ same
            (λ response s₁. write_response-Counts fd (to_bytes iteration response) s₁),
      )

  -- The trace when the kernel has answered one more call.
  abbrev pub asked : Syscall → Trace → Trace
  asked call t = (call, kernel t call) ∷ t

  serve_file_empty :
      (path : Text) (t : Trace) (file : ℕ)
      → (kernel t (open_file path)).ret ≡ pos file
      → (kernel (asked (open_file path) t) (file_size (pos file))).ret ≡ pos 0
      → (serve_file env config path t).0 ≡ err empty_file
  unfolding serve_file
  serve_file_empty path t file opened empty =
      rw (new-empty_file kernel path t file opened empty, bind) refl

  static_file_empty :
      (req : HttpRequest) (c : ℕ) (tail : Text) (t : Trace) (file : ℕ)
      → clean_path req ≡ c ∷ tail
      → c < 128
      → is_neg (kernel t (exists_path (join config.static_dir tail))).ret ≡ false
      → (kernel
          (asked (exists_path (join config.static_dir tail)) t)
          (open_file (join config.static_dir tail))).ret
        ≡ pos file
      → (kernel
          (asked
            (open_file (join config.static_dir tail))
            (asked (exists_path (join config.static_dir tail)) t))
          (file_size (pos file))).ret
        ≡ pos 0
      → (handle_static_file env config req t).0 ≡ err empty_file
  unfolding handle_static_file
  static_file_empty req c tail t file e ascii there opened empty =
      rw (e, tail_of, lt→ltb c 128 ascii, there)
        (serve_file_empty (join config.static_dir tail)
          (asked (exists_path (join config.static_dir tail)) t) file opened empty)

  -- In the mode for static files, a request for an existing file of size 0 is not answered:
  -- `handle_request` ends in an error.
  pub handle_request_empty_file :
      (fd : ℤ) (buf : List ℕ) (s : Server) (req : HttpRequest) (c : ℕ) (tail : Text) (file : ℕ)
      → config.mode ≡ fast_path
      → parse lowercase httparse buf ≡ ok req
      → clean_path req ≡ c ∷ tail
      → c < 128
      → is_neg (kernel s.machine.trace (exists_path (join config.static_dir tail))).ret ≡ false
      → (kernel
          (asked (exists_path (join config.static_dir tail)) s.machine.trace)
          (open_file (join config.static_dir tail))).ret
        ≡ pos file
      → (kernel
          (asked
            (open_file (join config.static_dir tail))
            (asked (exists_path (join config.static_dir tail)) s.machine.trace))
          (file_size (pos file))).ret
        ≡ pos 0
      → (handle_request env config fd buf s).0 ≡ err empty_file
  unfolding handle_request
  handle_request_empty_file fd buf s req c tail file m p e ascii there opened empty =
      let failed = static_file_empty req c tail s.machine.trace file e ascii there opened empty in
      rw (p, respond, m, dispatch, failed, bind) refl

  -- An error or a panic of one event ends the loop over the events of a round: the other events are
  -- not handled.
  handle_events_stop :
      (backlog : ℕ) (listen_fd : ℤ) (event : ℤ × ℕ) (events : List (ℤ × ℕ)) (s : Server) (e : Error)
      → (handle_event env config backlog listen_fd event s).0 ≡ err e
      → handle_events env config backlog listen_fd (event ∷ events) s
        ≡ (err e, (handle_event env config backlog listen_fd event s).1)
  unfolding handle_events
  handle_events_stop backlog listen_fd event events s e h = rw (h, bind) refl
