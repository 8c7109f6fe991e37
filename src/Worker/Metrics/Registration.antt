-- ===== src/Worker/Metrics/Registration.antt =====
-- `Reactor::new` of src/worker/reactor.rs on a registry that follows its documentation.
use rust_kernel_engine.Base.{
  ℕ, ◌≡◌, refl, ◌≢◌, ◌∙◌, ap, sym, subst, List, [], ◌∷◌, Bool, true, false, ◌&&◌, ◌||◌, some, ok,
  All, leb, ◌==◌,
}
use rust_kernel_engine.Std.Keys.{Text, text_ne}
use rust_kernel_engine.Std.Str.{codes}
use rust_kernel_engine.Config.{ServerConfig}
use rust_kernel_engine.Worker.Metrics.{
  Prometheus, no_requests, add_metric, new_metrics, new_reactor,
}

-- A letter, `_` or `:`.
abbrev is_name_start : ℕ → Bool
is_name_start c =
    (leb b'a' c && leb c b'z') || (leb b'A' c && leb c b'Z') || (c == b'_') || (c == b':')

abbrev all_name : Text → Bool
all_name [] = true
all_name (c ∷ s) = (is_name_start c || (leb b'0' c && leb c b'9')) && all_name s

abbrev pub is_metric_name : Text → Bool
is_metric_name [] = false
is_metric_name (c ∷ s) = is_name_start c && all_name s

-- The documented behaviour: a metric with a valid name and a help text can be made, and a name that
-- is not taken can be registered.
pub record IsRegistry (prometheus : Prometheus) : Type 0 where
  pub names : prometheus.Registry → List Text
  pub names_empty : names prometheus.empty ≡ []
  pub accepts_valid :
      (name help : Text)
      → is_metric_name name ≡ true
      → help ≢ []
      → prometheus.accepts name help ≡ true
  pub register_new :
      (name : Text) (r : prometheus.Registry)
      → All (λ n. n ≢ name) (names r)
      → (r' : prometheus.Registry) × (prometheus.register name r ≡ some r')
        × (names r' ≡ name ∷ names r)

module _ (prometheus : Prometheus) (documented : IsRegistry prometheus) where
  open documented use {names, names_empty, accepts_valid, register_new}

  add_metric_new :
      (name help : Text) (r : prometheus.Registry)
      → is_metric_name name ≡ true
      → help ≢ []
      → All (λ n. n ≢ name) (names r)
      → (r' : prometheus.Registry) × (add_metric prometheus name help r ≡ ok r')
        × (names r' ≡ name ∷ names r)
  unfolding add_metric
  add_metric_new name help r valid said fresh =
      let (r', e, more) = register_new name r fresh in
      (r', rw (accepts_valid name help valid said, e) refl, more)

  -- A metric more in a registry with the names `taken`.
  abbrev Adds : Text → Text → prometheus.Registry → List Text → Type 0
  Adds name help r taken =
      (r' : prometheus.Registry) × (add_metric prometheus name help r ≡ ok r')
      × (names r' ≡ name ∷ taken)

  add_metric-Adds :
      (name help : Text) (r : prometheus.Registry) (taken : List Text)
      → is_metric_name name ≡ true
      → help ≢ []
      → All (λ n. n ≢ name) taken
      → names r ≡ taken
      → Adds name help r taken
  add_metric-Adds name help r taken valid said fresh e =
      let (r', made, more) =
        add_metric_new name help r valid said (subst (All (λ n. n ≢ name)) (sym e) fresh) in
      (r', made, more ∙ ap (λ l. name ∷ l) e)

  abbrev Registers : ServerConfig → Type 0
  Registers config =
      (registry : prometheus.Registry) × (new_reactor prometheus config
        ≡ ok (record {
          config = config;
          running = false;
          registry = registry;
          metrics = no_requests;
        }))
      × (names registry
          ≡ codes "bytes_sent_total"
            ∷ codes "request_duration_seconds"
            ∷ codes "requests_total"
            ∷ [])

  third-Registers :
      (config : ServerConfig) (r₁ r₂ : prometheus.Registry)
      → add_metric prometheus
          (codes "requests_total")
          (codes "Total number of requests")
          prometheus.empty
        ≡ ok r₁
      → add_metric prometheus
          (codes "request_duration_seconds")
          (codes "Request duration in seconds")
          r₁
        ≡ ok r₂
      → Adds
          (codes "bytes_sent_total")
          (codes "Total bytes sent")
          r₂
          (codes "request_duration_seconds" ∷ codes "requests_total" ∷ [])
      → Registers config
  unfolding new_reactor new_metrics
  third-Registers config r₁ r₂ e₁ e₂ (r₃, e₃, n₃) = (r₃, rw (e₁, e₂, e₃) refl, n₃)

  second-Registers :
      (config : ServerConfig) (r₁ : prometheus.Registry)
      → add_metric prometheus
          (codes "requests_total")
          (codes "Total number of requests")
          prometheus.empty
        ≡ ok r₁
      → Adds
          (codes "request_duration_seconds")
          (codes "Request duration in seconds")
          r₁
          (codes "requests_total" ∷ [])
      → Registers config
  second-Registers config r₁ e₁ (r₂, e₂, n₂) = third-Registers config r₁ r₂ e₁ e₂ (
      add_metric-Adds (codes "bytes_sent_total") (codes "Total bytes sent") r₂ _ refl
        (text_ne _ _ refl) (text_ne _ _ refl, (text_ne _ _ refl, tt)) n₂)

  first-Registers :
      (config : ServerConfig)
      → Adds (codes "requests_total") (codes "Total number of requests") prometheus.empty []
      → Registers config
  first-Registers config (r₁, e₁, n₁) = second-Registers config r₁ e₁ (
      add_metric-Adds (codes "request_duration_seconds") (codes "Request duration in seconds") r₁ _
        refl (text_ne _ _ refl) (text_ne _ _ refl, tt) n₁)

  -- `Reactor::new` always succeeds: the counters start at 0, the reactor is not running, and exactly
  -- its three metrics are registered.
  pub new_reactor-names :
      (config : ServerConfig)
      → (registry : prometheus.Registry) × (new_reactor prometheus config
          ≡ ok (record {
            config = config;
            running = false;
            registry = registry;
            metrics = no_requests;
          }))
        × (names registry
            ≡ codes "bytes_sent_total"
              ∷ codes "request_duration_seconds"
              ∷ codes "requests_total"
              ∷ [])
  new_reactor-names config = first-Registers config (
      add_metric-Adds (codes "requests_total") (codes "Total number of requests") prometheus.empty
        [] refl (text_ne _ _ refl) tt names_empty)
