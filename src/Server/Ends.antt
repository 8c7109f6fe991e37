-- ===== src/Server/Ends.antt =====
-- `main` of src/main.rs: the ways in which it ends.
use rust_kernel_engine.Base.{
  ℕ, ◌≡◌, refl, List, [], ◌∷◌, Bool, Option, none, some, Outcome, ok, err, panic,
}
use rust_kernel_engine.Std.Keys.{Text}
use rust_kernel_engine.Os.{Trace}
use rust_kernel_engine.Config.{ServerConfig, Command, serve, help, NetworkBackend, parse_args}
use rust_kernel_engine.Sys.Affinity.{pin_to_cores}
use rust_kernel_engine.Sys.Tuning.Checks.{Limits, check_system_limits}
use rust_kernel_engine.Worker.Metrics.{Reactor, new_reactor, no_requests}
use rust_kernel_engine.Worker.Metrics.Fresh.{IsFresh, new_reactor-IsFresh}
use rust_kernel_engine.Worker.Start.{start}
use rust_kernel_engine.Server.{
  Outside, Run, printed_help, stopped, started, no_fuel, start_reactor, after_limits, after_args,
  main,
}

-- What is to be shown of each end of a run, where `Q` holds of the calls before the reactor starts.
pub record Ends (outside : Outside) (backlog : ℕ) (loads : List Bool) (args : List Text)
    (Q : Trace → Type 0) (P : Run outside → Type 0) : Type 0 where
  pub helped : P printed_help
  pub ran_out : P no_fuel
  pub pinned : (t : Trace) → Q t → Q (pin_to_cores outside.env.kernel outside.num_cpus (0 ∷ []) t).1
  pub stops : (r : Outcome (Unit {0})) (t : Trace) → Q t → P (stopped r t)
  pub starts :
      (config : ServerConfig) (backend : NetworkBackend) (reactor : Reactor outside.prometheus)
      (t : Trace)
      → parse_args outside.available_parallelism outside.io_uring_feature args ≡ some (serve config)
      → reactor.config ≡ config
      → reactor.metrics ≡ no_requests
      → Q t
      → P (
          started backend (
            start outside.aq outside.prometheus outside.env outside.parse_ipv4 backlog loads reactor
              t))

module _ (outside : Outside) (backlog : ℕ) (loads : List Bool) (args : List Text)
    (Q : Trace → Type 0) (P : Run outside → Type 0)
    (ends : Ends outside backlog loads args Q P) where
  open outside use {
    aq, prometheus, env, parse_ipv4, io_uring_feature, available_parallelism, num_cpus, rlimit,
    files,
  }

  start_reactor-ends :
      (config : ServerConfig) (backend : NetworkBackend) (t : Trace)
      (r : Outcome (Reactor prometheus))
      → parse_args available_parallelism io_uring_feature args ≡ some (serve config)
      → IsFresh prometheus config r
      → Q t
      → P (start_reactor outside backlog loads backend t r)
  unfolding start_reactor
  start_reactor-ends config backend t (ok reactor) e (same, zero) h =
      ends.starts config backend reactor t e same zero h
  start_reactor-ends config backend t (err f) e fresh h = ends.stops (err f) t h
  start_reactor-ends config backend t panic e fresh h = ends.stops panic t h

  after_limits-ends :
      (config : ServerConfig) (t : Trace) (r : Outcome Limits)
      → parse_args available_parallelism io_uring_feature args ≡ some (serve config)
      → Q t
      → P (after_limits outside backlog loads config t r)
  unfolding after_limits
  after_limits-ends config t (ok limits) e h =
      start_reactor-ends config _ (pin_to_cores env.kernel num_cpus (0 ∷ []) t).1
        (new_reactor prometheus config) e (new_reactor-IsFresh prometheus config) (ends.pinned t h)
  after_limits-ends config t (err f) e h = ends.stops (err f) t h
  after_limits-ends config t panic e h = ends.stops panic t h

  after_args-ends :
      (t : Trace) (command : Option (Command ServerConfig))
      → parse_args available_parallelism io_uring_feature args ≡ command
      → Q t
      → P (after_args outside backlog loads t command)
  unfolding after_args
  after_args-ends t none e h = ends.ran_out
  after_args-ends t (some help) e h = ends.helped
  after_args-ends t (some (serve config)) e h =
      after_limits-ends config t (check_system_limits rlimit files) e h

  -- Whatever `main` reads, it ends in one of these ways.
  pub main-ends : (t : Trace) → Q t → P (main outside backlog loads args t)
  unfolding main
  main-ends t h = after_args-ends t _ refl h
