-- ===== src/Server/Writes.antt =====
-- `main` of src/main.rs: what the program sends to its clients.
use rust_kernel_engine.Base.{ℕ, ◌≡◌, ◌∙◌, List, [], ◌∷◌, Bool, true}
use rust_kernel_engine.Std.Keys.{Text}
use rust_kernel_engine.Os.{Trace}
use rust_kernel_engine.Sys.Affinity.Calls.{view-pin_to_cores}
use rust_kernel_engine.Worker.Reactor.Writes.{writes_answers, writes_answers-Ignores}
use rust_kernel_engine.Worker.Start.Writes.{start-writes_answers}
use rust_kernel_engine.Server.{Outside, main, trace_of}
use rust_kernel_engine.Server.Ends.{Ends, main-ends}

module _ (outside : Outside) where
  open outside use {
    aq, prometheus, env, parse_ipv4, available_parallelism, num_cpus, rlimit, files,
    io_uring_feature,
  }

  -- The calls so far have written only answers.
  abbrev Answered : Trace → Type 0
  Answered t = writes_answers t ≡ true

  ends-Answered :
      (backlog : ℕ) (loads : List Bool) (args : List Text) (t : Trace)
      → Answered t
      → Ends outside backlog loads args Answered (λ run. Answered (trace_of outside t run))
  ends-Answered backlog loads args t h = record {
    helped = h;
    ran_out = h;
    pinned = λ t' h'.
        view-pin_to_cores writes_answers writes_answers-Ignores env.kernel num_cpus (0 ∷ []) t'
        ∙ h';
    stops = λ r t' h'. h';
    starts = λ config backend reactor t' parsed same zero h'.
        start-writes_answers aq prometheus env parse_ipv4 backlog loads reactor t' h';
  }

  -- Whatever the command line, the clients and the kernel do, and however the program ends: if each
  -- earlier `write` sent an answer that a client can read, with the code 200, 400 or 404, then so does
  -- each `write` of `main`.
  pub main-writes_answers :
      (backlog : ℕ) (loads : List Bool) (args : List Text) (t : Trace)
      → writes_answers t ≡ true
      → writes_answers (trace_of outside t (main outside backlog loads args t)) ≡ true
  main-writes_answers backlog loads args t h =
      main-ends outside backlog loads args Answered (λ run. Answered (trace_of outside t run))
        (ends-Answered backlog loads args t h) t h
