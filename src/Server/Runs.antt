-- ===== src/Server/Runs.antt =====
-- The runs of `main` in src/main.rs.
use rust_kernel_engine.Base.{
  ℕ, ◌≤◌, ◌≡◌, ◌≢◌, refl, panic, ◌∙◌, ℤ, List, [], ◌∷◌, Bool, true, false, some,
}
use rust_kernel_engine.Std.Keys.{Text}
use rust_kernel_engine.Std.Numbers.{usize_max}
use rust_kernel_engine.Os.{Trace}
use rust_kernel_engine.Config.{ServerConfig, detect_backend}
use rust_kernel_engine.Config.Arguments.{args_for, parse_args-args_for}
use rust_kernel_engine.Net.Epoll.Interest.{watched, watched-Ignores}
use rust_kernel_engine.Net.Epoll.Drop.{Deletes}
use rust_kernel_engine.Net.IoUring
use rust_kernel_engine.Sys.Affinity.{pin_to_cores}
use rust_kernel_engine.Sys.Affinity.Calls.{view-pin_to_cores}
use rust_kernel_engine.Sys.Tuning.{check_file_descriptors}
use rust_kernel_engine.Sys.Tuning.Checks.{check_system_limits}
use rust_kernel_engine.Worker.ArrayQueue.{IsFifo}
use rust_kernel_engine.Worker.Metrics.{no_requests}
use rust_kernel_engine.Worker.Metrics.Registration.{IsRegistry, new_reactor-names}
use rust_kernel_engine.Worker.Start.{start}
use rust_kernel_engine.Worker.Start.Composition.{start_releases}
use rust_kernel_engine.Server.Ends.{Ends, main-ends}
use rust_kernel_engine.Server.{
  Outside, Run, result_of, started, start_reactor, after_limits, after_args, main, trace_of,
}

module _ (outside : Outside) where
  open outside use {
    aq, prometheus, ring, env, parse_ipv4, io_uring_feature, available_parallelism, num_cpus,
    rlimit, files,
  }

  module _ (fifo : IsFifo aq) (deletes : Deletes env.kernel) where
    -- The kernel watches nothing.
    abbrev Unwatched : Trace → Type 0
    Unwatched t = (fd : ℤ) → watched fd t ≡ false

    -- It watches nothing after a run, unless that panicked.
    abbrev Released : Trace → Run outside → Type 0
    Released t run = result_of outside run ≢ panic → Unwatched (trace_of outside t run)

    ends-Unwatched :
        (backlog : ℕ) (loads : List Bool) (args : List Text) (t : Trace)
        → Unwatched t
        → Ends outside backlog loads args Unwatched (Released t)
    ends-Unwatched backlog loads args t h = record {
      helped = λ _. h;
      ran_out = λ _. h;
      pinned = λ t' h' fd.
          view-pin_to_cores (watched fd) (watched-Ignores fd) env.kernel num_cpus (0 ∷ []) t'
          ∙ h' fd;
      stops = λ r t' h' _. h';
      starts = λ config backend reactor t' parsed same zero h' ends fd.
          start_releases aq fifo prometheus env parse_ipv4 backlog loads reactor t' fd deletes h'
            ends;
    }

    -- Whatever the command line is: if the kernel watches nothing before, and deletes what it is
    -- asked to delete, then it watches nothing when `main` ends, unless by a panic.
    pub main_releases :
        (backlog : ℕ) (loads : List Bool) (args : List Text) (t : Trace) (fd : ℤ)
        → ((g : ℤ) → watched g t ≡ false)
        → result_of outside (main outside backlog loads args t) ≢ panic
        → watched fd (trace_of outside t (main outside backlog loads args t)) ≡ false
    main_releases backlog loads args t fd none_yet ends =
        main-ends outside backlog loads args Unwatched (Released t)
          (ends-Unwatched backlog loads args t none_yet) t none_yet ends fd

  -- On a command line written for a configuration whose numbers fit their types, in a build with the
  -- feature `io_uring` on a system whose limits can be read, `main` detects the backend that the
  -- configuration allows, asks for one processor, and starts a reactor with exactly this configuration
  -- and counters at 0.
  pub main-args_for :
      (documented : IsRegistry prometheus) (backlog : ℕ) (loads : List Bool) (config : ServerConfig)
      (t : Trace) (soft hard : ℕ)
      → io_uring_feature ≡ true
      → rlimit ≡ some (soft, hard)
      → config.port ≤ 65535
      → config.num_workers ≤ usize_max
      → (registry : prometheus.Registry) × (main outside backlog loads (args_for config) t
          ≡ started
              (detect_backend io_uring_feature
                (IoUring.is_available ring io_uring_feature)
                config.use_io_uring)
              (start aq prometheus env parse_ipv4 backlog loads
                (record {
                  config = config;
                  running = false;
                  registry = registry;
                  metrics = no_requests;
                })
                (pin_to_cores env.kernel num_cpus (0 ∷ []) t).1))
  unfolding main after_args after_limits start_reactor check_system_limits check_file_descriptors
  main-args_for documented backlog loads config t soft hard feature limits port workers =
      let (registry, made, _) = new_reactor-names prometheus documented config in
      (
        registry,
        rw (feature, limits, parse_args-args_for available_parallelism config port workers, made)
            refl,
      )
