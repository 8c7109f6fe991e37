-- ===== src/Worker/Reactor/FileRequests.antt =====
-- `handle_request` of src/worker/reactor.rs in the mode for static files, from the request to what the
-- client reads.
use rust_kernel_engine.Base.{
  ℕ, ◌≡◌, refl, ◌⊎◌, inl, inr, ◌<◌, ℤ, is_neg, List, ◌∷◌, true, false, some, Outcome, ok, err,
  panic, write_failed, Bool-cases,
}
use rust_kernel_engine.State.{bind}
use rust_kernel_engine.Std.Keys.{Text}
use rust_kernel_engine.Std.FilePath.{join}
use rust_kernel_engine.Config.{ServerConfig, fast_path}
use rust_kernel_engine.Http.Parser.{HttpRequest, parse, clean_path}
use rust_kernel_engine.Http.Response.{HttpResponse, to_bytes}
use rust_kernel_engine.Http.Response.Plain.{read_response-IsPlain}
use rust_kernel_engine.Http.Response.Reader.{Reading, read_response}
use rust_kernel_engine.Os.{Syscall, Reply, Trace, exists_path}
use rust_kernel_engine.File.Mmap
use rust_kernel_engine.File.Mmap.{MmapFile}
use rust_kernel_engine.Net.Epoll
use rust_kernel_engine.Worker.Reactor.Delivery.{Plain, respond-Plain}
use rust_kernel_engine.Worker.Reactor.Handlers.{AnswersFile, handle_static_file-AnswersFile}
use rust_kernel_engine.Worker.Reactor.Requests.{counted}
use rust_kernel_engine.Worker.Reactor.{
  Environment, Server, Metrics, on_machine, update_metrics, respond, dispatch, handle_request,
}

module _ (env : Environment) (config : ServerConfig) where
  open env use {kernel, httparse, lowercase, iteration}

  -- The kernel finds the file.
  abbrev pub Exists : Text → Trace → Type 0
  Exists path t = is_neg (kernel t (exists_path path)).ret ≡ false

  -- What mapping the file gives when it has been found.
  abbrev pub mapped : Text → Trace → Outcome MmapFile
  mapped path t = (Mmap.new kernel path ((exists_path path, kernel t (exists_path path)) ∷ t)).0

  -- What a client reads: 404, or 200 and the bytes of the file.
  abbrev pub IsFile : Text → Trace → Reading → Type 0
  IsFile path t reading =
      ((is_neg (kernel t (exists_path path)).ret ≡ true) × (reading.code ≡ 404))
      ⊎ (Exists path t
          × (reading.code ≡ 200)
          × ((m : MmapFile) × (mapped path t ≡ ok m) × (reading.body ≡ Mmap.as_slice m)))

  abbrev pub Serves : ℤ → Text → Trace → Outcome (Unit {0}) × Server → Type 0
  Serves fd path t (ok _, s) =
      (bytes : List ℕ) × (reply : Reply) × (earlier : Trace) × (reading : Reading)
      × (s.machine.trace ≡ (Syscall.write fd bytes, reply) ∷ earlier)
      × (read_response bytes ≡ some reading)
      × IsFile path t reading
  Serves fd path t (err e, s) = (e ≡ write_failed) ⊎ (Exists path t × (mapped path t ≡ err e))
  Serves fd path t (panic, s) = ⊥

  -- What a client reads from the bytes of a response.
  abbrev reading_of : HttpResponse → Reading
  reading_of r = record {
    code = r.status_code;
    reason = r.status_text;
    headers = iteration.entries r.headers;
    body = r.body;
  }

  write_out-Serves :
      (fd : ℤ) (path : Text) (t : Trace) (p : Outcome HttpResponse × Server)
      (grow : HttpResponse → Metrics → Metrics)
      → Plain p.0
      → AnswersFile env config path t p.0
      → Serves fd path t (
          bind p λ response. λ s.
            bind
              (on_machine (Epoll.write kernel fd (to_bytes iteration response)) s)
              λ _. update_metrics (grow response))
  unfolding Epoll.write
  write_out-Serves fd path t (ok r, s) grow plain (framed, answer) =
      let bytes = to_bytes iteration r in
      let read_back = read_response-IsPlain iteration r plain in
      elim (Bool-cases (is_neg (kernel s.machine.trace (Syscall.write fd bytes)).ret)) [
        | inl e ↦ rw e (inl refl)
        | inr e ↦ rw e (bytes, _, s.machine.trace, reading_of r, refl, read_back, answer)
      ]
  write_out-Serves fd path t (err e, s) grow plain answer = inr answer
  write_out-Serves fd path t (panic, s) grow plain answer = answer

  -- In the mode for static files, take a request whose clean path starts with an ASCII character, and
  -- the file that the rest of it names below the static directory. If `handle_request` ends without
  -- an error, its last system call is a `write` to the client, who reads from all of its bytes 404 if
  -- the file does not exist, and 200 with exactly the bytes of the file if it does. Otherwise the
  -- write failed, or the file exists and could not be mapped; there is no panic.
  pub handle_request-Serves :
      (fd : ℤ) (buf : List ℕ) (s : Server) (req : HttpRequest) (c : ℕ) (tail : Text)
      → config.mode ≡ fast_path
      → parse lowercase httparse buf ≡ ok req
      → clean_path req ≡ c ∷ tail
      → c < 128
      → Serves fd (join config.static_dir tail) s.machine.trace (handle_request env config fd buf s)
  unfolding handle_request
  handle_request-Serves fd buf s req c tail mode parsed path ascii =
      let answer =
        handle_static_file-AnswersFile env config req c tail s.machine.trace path ascii in
      write_out-Serves fd (join config.static_dir tail) s.machine.trace
        (respond env config (parse lowercase httparse buf) (counted env config s)) _
        (respond-Plain env config (parse lowercase httparse buf) (counted env config s))
        (rw (parsed, respond, mode, dispatch) answer)
