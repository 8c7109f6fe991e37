-- ===== src/Worker/Metrics/Fresh.antt =====
-- `Reactor::new` of src/worker/reactor.rs: what a new reactor holds, whatever the registry does.
use rust_kernel_engine.Base.{◌≡◌, Outcome, ok, arith}
use rust_kernel_engine.Config.{ServerConfig}
use rust_kernel_engine.Worker.Metrics.{Prometheus, Reactor, no_requests, new_metrics, new_reactor}

module _ (prometheus : Prometheus) where
  -- The given configuration, and counters at 0.
  abbrev pub IsFresh : ServerConfig → Outcome (Reactor prometheus) → Type 0
  IsFresh config (ok reactor) = (reactor.config ≡ config) × (reactor.metrics ≡ no_requests)
  IsFresh config _ = Unit

  pub new_reactor-IsFresh : (config : ServerConfig) → IsFresh config (new_reactor prometheus config)
  unfolding new_reactor new_metrics
  new_reactor-IsFresh config = ground arith
