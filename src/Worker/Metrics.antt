-- ===== src/Worker/Metrics.antt =====
-- src/worker/reactor.rs, `Metrics::new` and `Reactor::new`. The crate `prometheus` is an interface.
pub mod Fresh
pub mod Registration
use rust_kernel_engine.Base.{
  ℕ, List, Bool, true, false, Option, none, some, Outcome, ok, err, ◌>>=◌, metric_failed,
  if◌then◌else◌, ok_or,
}
use rust_kernel_engine.Std.Keys.{Text}
use rust_kernel_engine.Std.Str.{codes}
use rust_kernel_engine.Config.{ServerConfig}
use rust_kernel_engine.Worker.Reactor.{Metrics}

-- `accepts` tells whether a metric can be made of a name and a help text.
pub record Prometheus : Type 1 where
  pub Registry : Type 0
  pub empty : Registry
  pub accepts : (name help : Text) → Bool
  pub register : Text → Registry → Option Registry

abbrev pub no_requests : Metrics
no_requests = record { requests_total = 0; requests_duration = 0; bytes_sent = 0 }

module _ (prometheus : Prometheus) where
  open prometheus use {Registry, empty, accepts, register}

  pub record Reactor : Type 0 where
    pub config : ServerConfig
    pub running : Bool
    pub registry : Registry
    pub metrics : Metrics

  -- A metric is made, then a clone of it is registered.
  add_metric : Text → Text → Registry → Outcome Registry
  add_metric name help registry =
      if accepts name help then ok_or (register name registry) metric_failed else err metric_failed

  unfoldable pub new_metrics : Registry → Outcome (Metrics × Registry)
  unfolding add_metric
  new_metrics registry = do
    with_total ← add_metric (codes "requests_total") (codes "Total number of requests") registry
    with_duration ←
        add_metric (codes "request_duration_seconds") (codes "Request duration in seconds")
          with_total
    with_bytes ← add_metric (codes "bytes_sent_total") (codes "Total bytes sent") with_duration
    ok (no_requests, with_bytes)

  unfoldable pub new_reactor : ServerConfig → Outcome Reactor
  unfolding new_metrics
  new_reactor config = do
    made ← new_metrics empty
    ok (record { config = config; running = false; registry = made.1; metrics = made.0 })
