-- ===== src/Telemetry/Runtime.antt =====
-- telemetry/runtime.py: the providers of OpenTelemetry, as the record of what they are made of, and
-- the runtime that a process configures once. The lock makes each call one step.
use asante_secure_multi_agen.Prelude.{
  ℕ, String, Option, none, some, List, [], ◌∷◌, ◌==◌, if◌then◌else◌, getenv_or,
}
use asante_secure_multi_agen.Prelude.Dict.{Dict}
use asante_secure_multi_agen.Prelude.Exec.{
  runtime_error, Result, ok, err, Action, pure, gets, lift, ◌>>=◌, ◌>>◌, modify,
}
use asante_secure_multi_agen.Reliability.Config.{Environment}

abbrev pub service_name : String
service_name = "asante-secure-multi-agent"

abbrev pub service_version : String
service_version = "0.6.0"

abbrev pub default_exporter : String
default_exporter = "console"

-- Where spans or metrics are exported to.
pub data Exporter : Type 0 where
  console_exporter otlp_exporter : Exporter

pub record TracerProvider : Type 0 where
  pub resource : Dict String
  pub span_processors : List Exporter

-- Each metric reader has its exporter and its interval in milliseconds.
pub record MeterProvider : Type 0 where
  pub resource : Dict String
  pub metric_readers : List (Exporter × ℕ)

pub record TelemetryRuntime : Type 0 where
  pub tracer_provider : TracerProvider
  pub meter_provider : MeterProvider
  pub exporter : String

-- The module's `_runtime`, and the providers that are set for the process.
pub record Process : Type 0 where
  pub runtime : Option TelemetryRuntime
  pub tracer_provider : Option TracerProvider
  pub meter_provider : Option MeterProvider

module _ (getenv : Environment) where
  unfoldable pub resource : Dict String
  resource =
      ("service.name", service_name)
      ∷ ("service.version", service_version)
      ∷ ("deployment.environment.name", getenv_or (getenv "ASANTE_ENVIRONMENT") "local")
      ∷ []

  abbrev pub providers : List Exporter → List (Exporter × ℕ) → TracerProvider × MeterProvider
  providers processors readers = (
    record { resource = resource; span_processors = processors },
    record { resource = resource; metric_readers = readers },
  )

  unfoldable pub build_providers : String → Result (TracerProvider × MeterProvider)
  unfolding resource
  build_providers exporter =
      if exporter == "console"
      then ok (providers (console_exporter ∷ []) ((console_exporter, 10_000) ∷ []))
      else if exporter == "otlp"
      then ok (providers (otlp_exporter ∷ []) ((otlp_exporter, 10_000) ∷ []))
      else if exporter == "none"
      then ok (providers [] [])
      else err (runtime_error "ASANTE_OTEL_EXPORTER must be 'console', 'otlp', or 'none'")

  module _ (strip lower : String → String) where
    abbrev pub chosen_exporter : String
    chosen_exporter = lower (strip (getenv_or (getenv "ASANTE_OTEL_EXPORTER") default_exporter))

    abbrev pub runtime_of : TracerProvider × MeterProvider → TelemetryRuntime
    runtime_of (tracers, meters) = record {
      tracer_provider = tracers;
      meter_provider = meters;
      exporter = chosen_exporter;
    }

    -- What follows the test of `_runtime`.
    abbrev pub configure : Option TelemetryRuntime → Action Process TelemetryRuntime
    configure (some runtime) = pure runtime
    configure none = do
      made ← lift (build_providers chosen_exporter)
      modify (λ process. record {
        runtime = some (runtime_of made);
        tracer_provider = some made.0;
        meter_provider = some made.1;
      })
      pure (runtime_of made)

    unfoldable pub configure_telemetry : Action Process TelemetryRuntime
    configure_telemetry = do runtime ← gets (λ process. process.runtime); configure runtime
