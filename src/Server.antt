-- ===== src/Server.antt =====
-- src/main.rs, `main`. The answers of the system that `main` reads once are parameters; so are the
-- files that it reads, and the crates. Logging and the text of `--help` are left out.
pub mod Closing
pub mod Ends
pub mod Runs
pub mod Tallies
pub mod Writes
use rust_kernel_engine.Base.{
  ℕ, List, [], ◌∷◌, Bool, Option, none, some, Outcome, ok, err, panic, Error,
}
use rust_kernel_engine.Std.Keys.{Text}
use rust_kernel_engine.Os.{Trace}
use rust_kernel_engine.Config.{
  ServerConfig, Command, serve, help, NetworkBackend, parse_args, detect_backend,
}
use rust_kernel_engine.Net.IoUring
use rust_kernel_engine.Net.IoUring.{RingLibrary}
use rust_kernel_engine.Sys.Affinity.{pin_to_cores}
use rust_kernel_engine.Sys.Tuning.{Files}
use rust_kernel_engine.Sys.Tuning.Checks.{Limits, check_system_limits}
use rust_kernel_engine.Worker.ArrayQueue.{ArrayQueue}
use rust_kernel_engine.Worker.Queue.{Task}
use rust_kernel_engine.Worker.Metrics.{Prometheus, Reactor, new_reactor}
use rust_kernel_engine.Worker.Reactor.{Environment}
use rust_kernel_engine.Worker.Start.{Started, start}

-- What stands outside the source: crates, the build's feature, and what the system answers.
pub record Outside : Type 1 where
  pub aq : ArrayQueue Task
  pub prometheus : Prometheus
  pub ring : RingLibrary
  pub env : Environment
  pub parse_ipv4 : Text → Option ℕ
  pub io_uring_feature : Bool
  pub available_parallelism : Option ℕ
  pub num_cpus : ℕ
  pub rlimit : Option (ℕ × ℕ)
  pub files : Files

module _ (outside : Outside) where
  open outside use {
    aq, prometheus, ring, env, parse_ipv4, io_uring_feature, available_parallelism, num_cpus,
    rlimit, files,
  }

  -- How the program ends: by `--help`, by an error or a panic before the reactor starts, or as `start`
  -- ends, with the backend that was detected. `no_fuel` does not occur.
  pub data Run : Type 0 where
    printed_help : Run
    stopped : Outcome (Unit {0}) → Trace → Run
    started : NetworkBackend → Started aq → Run
    no_fuel : Run

  start_reactor : ℕ → List Bool → NetworkBackend → Trace → Outcome (Reactor prometheus) → Run
  start_reactor backlog loads backend t (ok reactor) =
      started backend (start aq prometheus env parse_ipv4 backlog loads reactor t)
  start_reactor backlog loads backend t (err e) = stopped (err e) t
  start_reactor backlog loads backend t panic = stopped panic t

  -- Everything behind the check of the limits; a pin that fails is only logged.
  after_limits : ℕ → List Bool → ServerConfig → Trace → Outcome Limits → Run
  unfolding start_reactor
  after_limits backlog loads config t (ok limits) =
      let backend =
        detect_backend io_uring_feature (IoUring.is_available ring io_uring_feature)
          config.use_io_uring in
      let (pinned, t') = pin_to_cores env.kernel num_cpus (0 ∷ []) t in
      start_reactor backlog loads backend t' (new_reactor prometheus config)
  after_limits backlog loads config t (err e) = stopped (err e) t
  after_limits backlog loads config t panic = stopped panic t

  after_args : ℕ → List Bool → Trace → Option (Command ServerConfig) → Run
  unfolding after_limits
  after_args backlog loads t none = no_fuel
  after_args backlog loads t (some help) = printed_help
  after_args backlog loads t (some (serve config)) =
      after_limits backlog loads config t (check_system_limits rlimit files)

  unfoldable pub main : ℕ → List Bool → List Text → Trace → Run
  unfolding after_args
  main backlog loads args t =
      after_args backlog loads t (parse_args available_parallelism io_uring_feature args)

-- The calls that a run has made, those of a start `t` included.
abbrev pub trace_of : (outside : Outside) → Trace → Run outside → Trace
trace_of outside t printed_help = t
trace_of outside t (stopped r t') = t'
trace_of outside t (started backend s) = s.trace
trace_of outside t no_fuel = t

-- What `main` returns, by `--help` or of the reactor.
abbrev pub result_of : (outside : Outside) → Run outside → Outcome (Unit {0})
result_of outside printed_help = ok tt
result_of outside (stopped r t) = r
result_of outside (started backend s) = s.result
result_of outside no_fuel = ok tt
