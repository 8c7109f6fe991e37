-- ===== src/Server/Closing.antt =====
-- `main` of src/main.rs: the descriptors that the program leaves open.
use rust_kernel_engine.Base.{
  ℕ, ◌≡◌, ◌≢◌, panic, ap, ◌∙◌, ℤ, is_neg, List, [], ◌∷◌, Bool, false, some, arith,
}
use rust_kernel_engine.Std.Keys.{Text}
use rust_kernel_engine.Os.{Trace, epoll_create1}
use rust_kernel_engine.Os.Descriptors.{OpenAtMost, IsFresh, Adds}
use rust_kernel_engine.Config.{ServerConfig, serve, parse_args}
use rust_kernel_engine.Net.Epoll.Drop.{Deletes}
use rust_kernel_engine.Sys.Affinity.{pin_to_cores}
use rust_kernel_engine.Worker.ArrayQueue.{IsFifo}
use rust_kernel_engine.Worker.Start.Closing.{start_closes}
use rust_kernel_engine.Server.{Outside, Run, result_of, main, trace_of}
use rust_kernel_engine.Server.Ends.{Ends, main-ends}

module _ (outside : Outside) (fifo : IsFifo outside.aq) where
  open outside use {
    aq, prometheus, env, parse_ipv4, io_uring_feature, available_parallelism, num_cpus,
  }
  open env use {kernel}

  -- A configuration that is read from the arguments has an IPv4 address for its host.
  abbrev pub HasAddress : List Text → Type 0
  HasAddress args =
      (config : ServerConfig)
      → parse_args available_parallelism io_uring_feature args ≡ some (serve config)
      → (ip : ℕ) × (parse_ipv4 config.host ≡ some ip)

  module _ (creates : (t : Trace) → is_neg (kernel t epoll_create1).ret ≡ false)
      (fresh : IsFresh kernel) (adds : Adds kernel) (deletes : Deletes kernel) (fd : ℤ)
      (n : ℕ) where
    pinned_open :
        (t : Trace)
        → OpenAtMost fd n t
        → OpenAtMost fd n (pin_to_cores kernel num_cpus (0 ∷ []) t).1
    unfolding pin_to_cores
    pinned_open t h = ground (arith, h)

    -- No more are open after a run, unless that panicked.
    abbrev Closed : Trace → Run outside → Type 0
    Closed t run = result_of outside run ≢ panic → OpenAtMost fd n (trace_of outside t run)

    ends_open :
        (backlog : ℕ) (loads : List Bool) (args : List Text) (t : Trace)
        → HasAddress args
        → OpenAtMost fd n t
        → Ends outside backlog loads args (OpenAtMost fd n) (Closed t)
    ends_open backlog loads args t address h = record {
      helped = λ _. h;
      ran_out = λ _. h;
      pinned = pinned_open;
      stops = λ r t' h' _. h';
      starts = λ config backend reactor t' parsed same zero h' ends.
          let (ip, e) = address config parsed in
          start_closes aq fifo prometheus env parse_ipv4 creates fresh adds deletes fd n backlog
            loads reactor ip t' (ap (λ (c : ServerConfig). parse_ipv4 c.host) same ∙ e) h' ends;
    }

    -- Take a kernel that makes an epoll instance, watches and deletes what it is asked to, and accepts
    -- a connection under a descriptor that is not open; and arguments that name no host but an IPv4
    -- address. Whatever the clients do and unless the program panics, `main` then leaves open no
    -- descriptor that it opened: for each descriptor, if at most `n` more were opened than closed
    -- before, so it is in the end.
    pub main_closes :
        (backlog : ℕ) (loads : List Bool) (args : List Text) (t : Trace)
        → HasAddress args
        → OpenAtMost fd n t
        → result_of outside (main outside backlog loads args t) ≢ panic
        → OpenAtMost fd n (trace_of outside t (main outside backlog loads args t))
    main_closes backlog loads args t address h ends =
        main-ends outside backlog loads args (OpenAtMost fd n) (Closed t)
          (ends_open backlog loads args t address h) t h ends
