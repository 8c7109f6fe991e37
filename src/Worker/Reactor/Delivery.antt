-- ===== src/Worker/Reactor/Delivery.antt =====
-- `handle_request` of src/worker/reactor.rs, from the handlers to what a client reads.
use rust_kernel_engine.Base.{
  ℕ, ◌≡◌, refl, ℤ, is_neg, List, ◌∷◌, Option, none, some, Outcome, ok, err, panic, Bool-cases,
  Option-cases, ◌&&◌, inl, inr, arith,
}
use rust_kernel_engine.State.{St, bind}
use rust_kernel_engine.Std.Keys.{Text, text_eq}
use rust_kernel_engine.Std.FilePath.{join, extension}
use rust_kernel_engine.Std.Str.{codes}
use rust_kernel_engine.Config.{ServerConfig, ServerMode, fast_path, dynamic_path}
use rust_kernel_engine.File.Mmap
use rust_kernel_engine.Http.Parser.{HttpRequest, parse, clean_path}
use rust_kernel_engine.Http.Response.{HttpResponse, to_bytes, ok_response, set_body}
use rust_kernel_engine.Http.Response.Plain.{
  IsPlain, with_header-IsPlain, set_body-IsPlain, text-IsPlain, json-IsPlain, ok_response-IsPlain,
  not_found-IsPlain, bad_request-IsPlain, read_response-IsPlain,
}
use rust_kernel_engine.Http.Response.Reader.{IsClean, read_response}
use rust_kernel_engine.Os.{Trace, Syscall, Reply}
use rust_kernel_engine.Net.Epoll
use rust_kernel_engine.Worker.Reactor.Requests.{counted}
use rust_kernel_engine.Worker.Reactor.{
  Environment, Server, Metrics, on_machine, update_metrics, tail_of, content_type,
  with_content_type, serve_file, handle_static_file, handle_dynamic, dispatch, respond,
  handle_request,
}

content_type-IsClean : (ext : Text) → IsClean (codes "Content-Type", content_type ext)
unfolding content_type
content_type-IsClean ext = ground arith

with_content_type-IsPlain :
    (ext : Option Text) (r : HttpResponse) → IsPlain r → IsPlain (with_content_type ext r)
with_content_type-IsPlain none r p = p
with_content_type-IsPlain (some ext) r p =
    with_header-IsPlain r (codes "Content-Type") (content_type ext) (content_type-IsClean ext) p

-- A response, if there is one, is plain.
abbrev pub Plain : Outcome HttpResponse → Type 0
Plain (ok r) = IsPlain r
Plain _ = Unit

bind-Plain :
    {S A : Type 0} (p : Outcome A × S) (k : A → St S HttpResponse)
    → ((a : A) (s : S) → Plain (k a s).0)
    → Plain (bind p k).0
bind-Plain (ok a, s) k h = h a s
bind-Plain (err e, s) k h = tt
bind-Plain (panic, s) k h = tt

module _ (env : Environment) (config : ServerConfig) where
  open env use {kernel, httparse, lowercase, iteration, to_vec, encode}

  serve_file-Plain : (path : Text) (t : Trace) → Plain (serve_file env config path t).0
  unfolding serve_file
  serve_file-Plain path t = bind-Plain (Mmap.new kernel path t) _ λ mmap t'.
      with_content_type-IsPlain (extension path) (set_body ok_response (Mmap.as_slice mmap))
        (set_body-IsPlain ok_response (Mmap.as_slice mmap) ok_response-IsPlain)

  handle_static_file-Plain :
      (req : HttpRequest) (t : Trace) → Plain (handle_static_file env config req t).0
  unfolding handle_static_file
  handle_static_file-Plain req t =
      bind-Plain (tail_of (clean_path req), t) _
        λ tail t₁.
          elim (Bool-cases
            (is_neg (kernel t₁ (Syscall.exists_path (join config.static_dir tail))).ret)) [
              | inl missing ↦ rw missing not_found-IsPlain
              | inr there ↦ rw there (serve_file-Plain (join config.static_dir tail) _)
            ]

  handle_dynamic-Plain : (req : HttpRequest) (m : Metrics) → Plain (handle_dynamic env config req m)
  unfolding handle_dynamic
  handle_dynamic-Plain req m =
      elim (Bool-cases
        (text_eq req.method (codes "GET") && text_eq (clean_path req) (codes "/api/health"))) [
          | inl a ↦ rw a (json-IsPlain to_vec ok_response _ ok_response-IsPlain)
          | inr a ↦
              elim (Bool-cases (
                text_eq req.method (codes "GET")
                && text_eq (clean_path req) (codes "/api/metrics"))) [
                  | inl b ↦ elim (Option-cases (encode m)) [
                    | inl e ↦ rw (a, b, e) tt
                    | inr (buffer, e) ↦
                        rw (a, b, e)
                          (text-IsPlain _ _ (
                            with_header-IsPlain ok_response (codes "Content-Type")
                              (codes "text/plain; version=0.0.4") (omega arith)
                              ok_response-IsPlain))
                  ]
                  | inr b ↦
                      elim (Bool-cases (
                        text_eq req.method (codes "GET")
                        && text_eq (clean_path req) (codes "/api/stats"))) [
                          | inl c ↦
                              rw (a, b, c) (json-IsPlain to_vec ok_response _ ok_response-IsPlain)
                          | inr c ↦ rw (a, b, c) not_found-IsPlain
                        ]
                ]
        ]

  pub respond-Plain : (r : Outcome HttpRequest) (s : Server) → Plain (respond env config r s).0
  unfolding respond dispatch
  respond-Plain (err e) s = bad_request-IsPlain
  respond-Plain panic s = tt
  respond-Plain (ok req) s = by_mode config.mode
    where
      by_mode : (mode : ServerMode) → Plain (dispatch env config mode req s).0
      by_mode fast_path = handle_static_file-Plain req s.machine.trace
      by_mode dynamic_path = handle_dynamic-Plain req s.metrics

  -- The last call hands `write` the bytes of the response `answer`, from which a client reads it back.
  abbrev pub Delivers : ℤ → Outcome HttpResponse → Server → Type 0
  Delivers fd answer s =
      (r : HttpResponse) × (reply : Reply) × (earlier : Trace) × (answer ≡ ok r)
      × (s.machine.trace ≡ (Syscall.write fd (to_bytes iteration r), reply) ∷ earlier)
      × (read_response (to_bytes iteration r)
          ≡ some (record {
            code = r.status_code;
            reason = r.status_text;
            headers = iteration.entries r.headers;
            body = r.body;
          }))

  write_out-Delivers :
      (fd : ℤ) (p : Outcome HttpResponse × Server) (grow : HttpResponse → Metrics → Metrics)
      → Plain p.0
      → (bind p λ response. λ s.
          bind
            (on_machine (Epoll.write kernel fd (to_bytes iteration response)) s)
            λ _. update_metrics (grow response)).0
        ≡ ok tt
      → Delivers fd p.0
          (bind p λ response. λ s.
            bind
              (on_machine (Epoll.write kernel fd (to_bytes iteration response)) s)
              λ _. update_metrics (grow response)).1
  unfolding Epoll.write
  write_out-Delivers fd (ok r, s) grow plain done =
      elim (Bool-cases
        (is_neg (kernel s.machine.trace (Syscall.write fd (to_bytes iteration r))).ret)) [
          | inl e ↦
              rw e (r, _, s.machine.trace, refl, refl, read_response-IsPlain iteration r plain)
          | inr e ↦
              rw e (r, _, s.machine.trace, refl, refl, read_response-IsPlain iteration r plain)
        ]
  write_out-Delivers fd (err e, s) grow plain done = absurd (cc)
  write_out-Delivers fd (panic, s) grow plain done = absurd (cc)

  -- A request that `handle_request` answers without an error has a response, which is what `respond`
  -- makes of what was parsed. Its bytes are handed to `write`, the last system call, and a client that
  -- gets all of them reads back its status, reason, headers and body.
  pub handle_request-Delivers :
      (fd : ℤ) (buf : List ℕ) (s : Server)
      → (handle_request env config fd buf s).0 ≡ ok tt
      → Delivers fd
          (respond env config (parse lowercase httparse buf) (counted env config s)).0
          (handle_request env config fd buf s).1
  unfolding handle_request
  handle_request-Delivers fd buf s done =
      let r = parse lowercase httparse buf in
      write_out-Delivers fd (respond env config r (counted env config s)) _
        (respond-Plain r (counted env config s)) done
