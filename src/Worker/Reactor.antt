-- ===== src/Worker/Reactor.antt =====
-- src/worker/reactor.rs. The kernel, `httparse`, the Unicode tables, the iteration of maps,
-- `serde_json::to_vec` and the text format of `prometheus` are parameters.
pub mod Handlers
pub mod Requests
pub mod Rounds
pub mod Accepting
pub mod Calls
pub mod Delivery
pub mod Descriptors
pub mod EventLoop
pub mod Failures
pub mod FileRequests
pub mod Keeping
pub mod Tallies
pub mod Writes
use rust_kernel_engine.Base.{
  ℕ, zero, suc, ◌+◌, ◌-◌, ◌%◌, ◌^◌, ◌<◌, ℤ, pos, is_neg, List, [], ◌∷◌, ◌++◌, Bool, true, false,
  ◌&&◌, Option, none, some, Outcome, ok, err, panic, Error, encode_failed, ltb, ◌==◌, length, take,
  replicate, if◌then◌else◌, int_eq,
}
use rust_kernel_engine.State.{St, bind, ◌>>=◌, ◌>>◌, pure, fail, crash, of_outcome, attempt}
use rust_kernel_engine.Std.Keys.{Text, text_eq}
use rust_kernel_engine.Std.Str.{codes, from_utf8_lossy, Lowercase}
use rust_kernel_engine.Std.FilePath.{join, extension}
use rust_kernel_engine.Config.{ServerConfig, ServerMode, fast_path, dynamic_path}
use rust_kernel_engine.Http.Parser.{HttpRequest, Httparse, parse, clean_path}
use rust_kernel_engine.Http.Response.{
  HttpResponse, Iteration, ok_response, not_found, bad_request, set_body, json, text, with_header,
  to_bytes,
}
use rust_kernel_engine.Os.{Kernel, Os, Trace, Syscall, exists_path, Reply}
use rust_kernel_engine.Os
use rust_kernel_engine.File.Mmap
use rust_kernel_engine.Net.Epoll
use rust_kernel_engine.Net.Epoll.{Machine, M}

-- The counters; of the histogram only the number of observations. `u64` counters wrap.
pub record Metrics : Type 0 where
  pub requests_total : ℕ
  pub requests_duration : ℕ
  pub bytes_sent : ℕ

-- A `json!` object: fields that are texts or numbers.
pub data JsonField : Type 0 where
  str : Text → JsonField
  num : ℕ → JsonField

abbrev pub JsonObject : Type 0
JsonObject = List (Text × JsonField)

-- What stands outside the source.
pub record Environment : Type 0 where
  pub kernel : Kernel
  pub httparse : Httparse
  pub lowercase : Lowercase
  pub iteration : Iteration
  pub connection_order : Epoll.ConnectionOrder
  pub to_vec : JsonObject → Option (List ℕ)
  pub encode : Metrics → Option (List ℕ)

-- The epoll backend with the trace of system calls, and the metrics.
pub record Server : Type 0 where
  pub machine : Machine
  pub metrics : Metrics

abbrev pub on_machine {ℓ} : {A : Type ℓ} → M A → St Server A
on_machine m s = let (r, machine) = m s.machine in (r, record s { machine = machine })

abbrev pub on_os {ℓ} : {A : Type ℓ} → Os A → St Server A
on_os f = on_machine (Epoll.lift f)

abbrev pub update_metrics : (Metrics → Metrics) → St Server (Unit {0})
update_metrics f s = (ok tt, record s { metrics = f s.metrics })

abbrev pub metrics : St Server Metrics
metrics s = (ok s.metrics, s)

-- `IntCounter::inc_by`
abbrev pub add_u64 : ℕ → ℕ → ℕ
add_u64 a b = (a + b) % 2 ^ 64

-- `&path[1..]`: a panic if the text is empty or the index splits its first character.
tail_of : Text → Outcome Text
tail_of [] = panic
tail_of (c ∷ s) = if ltb c 128 then ok s else panic

unfoldable pub content_type : Text → Text
content_type ext =
    if text_eq ext (codes "html")
    then codes "text/html"
    else if text_eq ext (codes "css")
    then codes "text/css"
    else if text_eq ext (codes "js")
    then codes "application/javascript"
    else if text_eq ext (codes "json")
    then codes "application/json"
    else if text_eq ext (codes "png")
    then codes "image/png"
    else if text_eq ext (codes "jpg")
    then codes "image/jpeg"
    else if text_eq ext (codes "jpeg")
    then codes "image/jpeg"
    else codes "application/octet-stream"

abbrev with_content_type : Option Text → HttpResponse → HttpResponse
with_content_type none response = response
with_content_type (some ext) response =
    with_header response (codes "Content-Type") (content_type ext)

module _ (env : Environment) (config : ServerConfig) where
  open env use {kernel, httparse, lowercase, iteration, connection_order, to_vec, encode}

  -- The mapping is dropped when the response has been built.
  serve_file : Text → Os HttpResponse
  unfolding content_type
  serve_file file_path = do
    mmap ← Mmap.new kernel file_path
    let response = set_body ok_response (Mmap.as_slice mmap)
    λ t. (ok (with_content_type (extension file_path) response), Mmap.drop kernel mmap t)

  unfoldable pub handle_static_file : HttpRequest → Os HttpResponse
  unfolding tail_of serve_file
  handle_static_file req = do
    tail ← of_outcome (tail_of (clean_path req))
    let file_path = join config.static_dir tail
    found ← Os.sys kernel (exists_path file_path)
    if is_neg found.ret then pure not_found else serve_file file_path

  unfoldable pub handle_dynamic : HttpRequest → Metrics → Outcome HttpResponse
  handle_dynamic req m =
      let path = clean_path req in
      let is_get = text_eq req.method (codes "GET") in
      if is_get && text_eq path (codes "/api/health")
      then ok (
          json to_vec ok_response
            ((codes "status", str (codes "healthy")) ∷ (codes "uptime", num 0) ∷ []))
      else if is_get && text_eq path (codes "/api/metrics")
      then elim (encode m) [
        | none ↦ err encode_failed
        | some buffer ↦ ok (
            text
              (with_header ok_response (codes "Content-Type") (codes "text/plain; version=0.0.4"))
              (from_utf8_lossy buffer))
      ]
      else if is_get && text_eq path (codes "/api/stats")
      then ok (
          json to_vec ok_response (
            (codes "requests", num m.requests_total) ∷ (codes "bytes_sent", num m.bytes_sent) ∷ []))
      else ok not_found

  -- The response to a request, by the mode of the server.
  dispatch : ServerMode → HttpRequest → St Server HttpResponse
  unfolding handle_static_file handle_dynamic
  dispatch fast_path req = on_os (handle_static_file req)
  dispatch dynamic_path req = metrics >>= λ m. of_outcome (handle_dynamic req m)

  -- The response to what `parse` returned.
  unfoldable pub respond : Outcome HttpRequest → St Server HttpResponse
  unfolding dispatch
  respond (err e) = pure bad_request
  respond panic = crash
  respond (ok req) = dispatch config.mode req

  unfoldable pub handle_request : ℤ → List ℕ → St Server (Unit {0})
  unfolding respond
  handle_request fd buf = do
    update_metrics (λ m. record m { requests_total = add_u64 m.requests_total 1 })
    response ← respond (parse lowercase httparse buf)
    let response_bytes = to_bytes iteration response
    _ ← on_machine (Epoll.write kernel fd response_bytes)
    update_metrics (λ m. record m {
      bytes_sent = add_u64 m.bytes_sent (length response_bytes);
      requests_duration = add_u64 m.requests_duration 1;
    })

  -- What follows an `accept`: the new connection is registered for `EPOLLIN | EPOLLET` and the loop
  -- goes on, or an error ends it.
  after_accept : Outcome ℤ → M (Unit {0}) → M (Unit {0})
  after_accept (ok client_fd) again = Epoll.register kernel client_fd (1 + 2 ^ 31) >> again
  after_accept (err e) again = pure tt
  after_accept panic again = crash

  -- The inner `loop` over `accept`. A panic stands for fuel that ran out: more connections were
  -- waiting than the fuel allows for.
  pub accept_loop : ℕ → ℤ → M (Unit {0})
  unfolding after_accept
  accept_loop zero listen_fd s = (panic, s)
  accept_loop (suc fuel) listen_fd s =
      bind (attempt (Epoll.accept kernel listen_fd) s)
        λ accepted. after_accept accepted (accept_loop fuel listen_fd)

  -- `vec![0u8; 8192]` after a read of `n` bytes, cut to `n`.
  pub read_buffer : ℕ → List ℕ → List ℕ
  read_buffer n bytes = take n (bytes ++ replicate (8192 - length bytes) 0)

  -- What follows a `read`: a request, or the end of the connection.
  pub after_read : ℤ → Outcome (ℕ × List ℕ) → St Server (Unit {0})
  unfolding read_buffer handle_request
  after_read fd (ok (n, bytes)) =
      if ltb 0 n
      then handle_request fd (read_buffer n bytes)
      else on_machine (Epoll.close kernel fd)
  after_read fd (err e) = on_machine (Epoll.close kernel fd)
  after_read fd panic = crash

  -- The body of the loop over the events of one wait. `EPOLLIN` is the lowest bit of the flags.
  unfoldable pub handle_event : ℕ → ℤ → ℤ × ℕ → St Server (Unit {0})
  unfolding accept_loop after_read
  handle_event backlog listen_fd (fd, flags) =
      if int_eq fd listen_fd
      then on_machine (accept_loop backlog listen_fd)
      else if flags % 2 == 1
      then attempt (on_machine (Epoll.read kernel fd 8192)) >>= after_read fd
      else pure tt

  unfoldable pub handle_events : ℕ → ℤ → List (ℤ × ℕ) → St Server (Unit {0})
  unfolding handle_event
  handle_events backlog listen_fd [] = pure tt
  handle_events backlog listen_fd (event ∷ events) =
      handle_event backlog listen_fd event >>= λ _. handle_events backlog listen_fd events

  -- The `while` loop, as far as the list says what `running.load` returns; the source never stores
  -- `false`, so the loop goes on until an error ends it.
  unfoldable pub event_rounds : ℕ → ℤ → List Bool → St Server (Unit {0})
  unfolding handle_events
  event_rounds backlog listen_fd [] = pure tt
  event_rounds backlog listen_fd (false ∷ loads) = pure tt
  event_rounds backlog listen_fd (true ∷ loads) = do
    events ← on_machine (Epoll.process_events kernel (pos 100))
    handle_events backlog listen_fd events
    event_rounds backlog listen_fd loads

  -- The backend is dropped when `event_loop` returns a result. A panic aborts the program (`panic =
  -- "abort"` of the release profile), so nothing is dropped.
  leave : Outcome (Unit {0}) × Server → Outcome (Unit {0}) × Trace × Metrics
  leave (ok a, s) = (ok a, (Epoll.drop kernel connection_order s.machine).trace, s.metrics)
  leave (err e, s) = (err e, (Epoll.drop kernel connection_order s.machine).trace, s.metrics)
  leave (panic, s) = (panic, s.machine.trace, s.metrics)

  enter :
      ℕ
      → ℤ
      → List Bool
      → Metrics
      → Outcome Epoll.EpollBackend × Trace
      → Outcome (Unit {0}) × Trace × Metrics
  unfolding leave event_rounds
  enter backlog listen_fd loads m (ok backend, t) = leave (
      bind
        (on_machine (Epoll.register kernel listen_fd 1)
          (record { machine = record { backend = backend; trace = t }; metrics = m }))
        λ _. event_rounds backlog listen_fd loads)
  enter backlog listen_fd loads m (err e, t) = (err e, t, m)
  enter backlog listen_fd loads m (panic, t) = (panic, t, m)

  unfoldable pub event_loop :
      ℕ → ℤ → List Bool → Metrics → Trace → Outcome (Unit {0}) × Trace × Metrics
  unfolding enter
  event_loop backlog listen_fd loads m t = enter backlog listen_fd loads m (Epoll.new kernel 1024 t)
