-- ===== src/Infra/Telemetry.antt =====
-- internal/infra/telemetry/telemetry.go and metrics.go. A provider of the library of
-- OpenTelemetry is a number.
use kenshu_elaris_project_st.Base.{ℕ, ℤ, String, Bool, Option, none, some, List, [], ◌∷◌, concat}
use kenshu_elaris_project_st.Domain.Errors.{Error, Result, ok, err}
use kenshu_elaris_project_st.Config.{AppConfig}
use kenshu_elaris_project_st.App.World.{Action, ◌>>=◌, write, failure}
use kenshu_elaris_project_st.Mq.Amqp.{Wire, library}

-- What an exporter is given: the endpoint, a host and a port, and whether the transport is insecure.
pub record ExporterOptions : Type 0 where
  pub endpoint : String
  pub port : ℤ
  pub insecure : Bool

pub data InstrumentKind : Type 0 where
  int64_histogram : InstrumentKind
  int64_counter : InstrumentKind
  float64_histogram : InstrumentKind

-- What the start and the shutdown call. `set_globals` is the three calls of package otel,
-- `instrument` the creation of an instrument of a meter, and `join` is `errors.Join`.
pub record Otel (D : Type 0) : Type 0 where
  pub new_resource : (service_name : String) → D → Result ℕ × D
  pub new_trace_exporter : ExporterOptions → D → Result ℕ × D
  pub new_tracer_provider : (exporter resource : ℕ) → D → ℕ × D
  pub new_metric_exporter : ExporterOptions → D → Result ℕ × D
  pub new_meter_provider : (exporter resource : ℕ) → D → ℕ × D
  pub set_globals : (tracer_provider meter_provider : ℕ) → D → Unit {0} × D
  pub instrument : InstrumentKind → (name : String) → D → Option Error × D
  pub shutdown_tracer : (tracer_provider : ℕ) → D → Option Error × D
  pub shutdown_meter : (meter_provider : ℕ) → D → Option Error × D
  pub join : List Error → Error

-- What the function that `Init` answers has captured.
pub record Providers : Type 0 where
  pub trace_provider : ℕ
  pub meter_provider : ℕ

abbrev pub otel_trace_options : AppConfig → ExporterOptions
otel_trace_options cfg = record {
  endpoint = cfg.telemetry.otlp_endpoint;
  port = cfg.telemetry.otlp_grpc_port;
  insecure = cfg.telemetry.otlp_insecure;
}

abbrev pub otel_metric_options : AppConfig → ExporterOptions
otel_metric_options cfg = record {
  endpoint = cfg.telemetry.otlp_endpoint;
  port = cfg.telemetry.otlp_grpc_port;
  insecure = cfg.telemetry.otlp_insecure;
}

module _ {D : Type 0} (otel : Otel D) where
  -- An error is logged and answered; the rest runs on a value.
  checked :
      {A B : Type 0}
      → String
      → (A → Action (Wire D) (Result B))
      → Result A
      → Action (Wire D) (Result B)
  checked message rest (ok x) w = rest x w
  checked message rest (err e) w = (err e, (write (failure message e) w).1)

  trace_provider_of : ℕ → Result ℕ → Action (Wire D) (Result ℕ)
  trace_provider_of resource (err e) w = (err e, w)
  trace_provider_of resource (ok exporter) w =
      let (provider, v) = library (otel.new_tracer_provider exporter resource) w in (ok provider, v)

  unfoldable pub new_trace_provider : ℕ → AppConfig → Action (Wire D) (Result ℕ)
  unfolding trace_provider_of
  new_trace_provider resource cfg =
      library (otel.new_trace_exporter (otel_trace_options cfg)) >>= trace_provider_of resource

  meter_provider_of : ℕ → Result ℕ → Action (Wire D) (Result ℕ)
  meter_provider_of resource (err e) w = (err e, w)
  meter_provider_of resource (ok exporter) w =
      let (provider, v) = library (otel.new_meter_provider exporter resource) w in (ok provider, v)

  unfoldable pub new_meter_provider : ℕ → AppConfig → Action (Wire D) (Result ℕ)
  unfolding meter_provider_of
  new_meter_provider resource cfg =
      library (otel.new_metric_exporter (otel_metric_options cfg)) >>= meter_provider_of resource

  unless_error : Action (Wire D) (Option Error) → Option Error → Action (Wire D) (Option Error)
  unless_error rest none w = rest w
  unless_error rest (some e) w = (some e, w)

  -- `initMetrics`.
  unfoldable pub init_metrics : Action (Wire D) (Option Error)
  unfolding unless_error
  init_metrics =
      library (otel.instrument int64_histogram "app.startup.duration")
      >>= unless_error (
          library (otel.instrument int64_counter "mq.publish")
          >>= unless_error (library (otel.instrument float64_histogram "mq.publish.duration_ms")))

  metrics_made : Providers → Option Error → Action (Wire D) (Result Providers)
  metrics_made providers none w = (ok providers, w)
  metrics_made providers (some e) w = (err e, (write (failure "create startup histogram" e) w).1)

  installed : Providers → Action (Wire D) (Result Providers)
  unfolding metrics_made init_metrics
  installed p = library (otel.set_globals p.trace_provider p.meter_provider) >>= λ done.
      (init_metrics >>= metrics_made p)

  -- `Init`.
  unfoldable pub init : AppConfig → Action (Wire D) (Result Providers)
  unfolding checked installed new_trace_provider new_meter_provider
  init cfg =
      library (otel.new_resource (concat cfg.name.service_name (concat ":" cfg.name.version)))
      >>= checked "create otel resource" (λ resource.
        new_trace_provider resource cfg
        >>= checked "create trace provider" (λ tracer.
          new_meter_provider resource cfg
          >>= checked "create meter provider"
              (λ meter. installed (record { trace_provider = tracer; meter_provider = meter }))))

  joined : Option Error → Option Error → Option Error
  joined none none = none
  joined (some e) none = some (otel.join (e ∷ []))
  joined none (some f) = some (otel.join (f ∷ []))
  joined (some e) (some f) = some (otel.join (otel.join (e ∷ []) ∷ f ∷ []))

  -- The function that `Init` answers.
  unfoldable pub shutdown : Providers → D → Option Error × D
  unfolding joined
  shutdown p x =
      let (e, y) = otel.shutdown_tracer p.trace_provider x in
      let (f, z) = otel.shutdown_meter p.meter_provider y in (joined e f, z)
