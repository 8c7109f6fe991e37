-- ===== src/Server/Tallies.antt =====
-- `main` of src/main.rs: the counters against the calls of `read` and `write`.
use rust_kernel_engine.Base.{ℕ, ◌≡◌, refl, ◌∙◌, List, [], ◌∷◌, Bool}
use rust_kernel_engine.Std.Keys.{Text}
use rust_kernel_engine.Os.{Trace}
use rust_kernel_engine.Sys.Affinity.Calls.{view-pin_to_cores}
use rust_kernel_engine.Worker.Metrics.{no_requests}
use rust_kernel_engine.Worker.Reactor.Tallies.{tally, tally-Ignores, Tells, Tells-subst}
use rust_kernel_engine.Worker.Start.Tallies.{start-Told}
use rust_kernel_engine.Server.{Outside, Run, printed_help, stopped, started, no_fuel, main}
use rust_kernel_engine.Server.Ends.{Ends, main-ends}

module _ (outside : Outside) where
  open outside use {aq, prometheus, env, parse_ipv4, num_cpus}

  -- No answer and no request so far.
  abbrev pub IsSilent : Trace → Type 0
  IsSilent t = tally t ≡ (0, 0, 0)

  -- The counters of a reactor that was started say what was read and written; without one, nothing was.
  abbrev pub Told : Run outside → Type 0
  Told printed_help = Unit
  Told (stopped r t) = IsSilent t
  Told (started backend s) = Tells s.metrics (tally s.trace)
  Told no_fuel = Unit

  ends-Told :
      (backlog : ℕ) (loads : List Bool) (args : List Text)
      → Ends outside backlog loads args IsSilent Told
  ends-Told backlog loads args = record {
    helped = tt;
    ran_out = tt;
    pinned = λ t h. view-pin_to_cores tally tally-Ignores env.kernel num_cpus (0 ∷ []) t ∙ h;
    stops = λ r t h. h;
    starts = λ config backend reactor t parsed same none_yet h.
        start-Told aq prometheus env parse_ipv4 backlog loads reactor t (
          Tells-subst no_requests reactor.metrics (0, 0, 0) (tally t) none_yet h
            (refl, refl, refl));
  }

  -- Whatever the command line, the clients and the kernel do, and however the program ends: if nothing
  -- was read or written before, and `main` starts a reactor, then in the end, modulo 2^64, the counter
  -- of requests is the number of all reads that returned bytes, the counter of durations is the number
  -- of all writes that did not fail, and the counter of bytes the number of all bytes handed to these.
  -- If `main` stops before that, no write has succeeded and no read has returned bytes.
  pub main-Told :
      (backlog : ℕ) (loads : List Bool) (args : List Text) (t : Trace)
      → tally t ≡ (0, 0, 0)
      → Told (main outside backlog loads args t)
  main-Told backlog loads args t h =
      main-ends outside backlog loads args IsSilent Told (ends-Told backlog loads args) t h
