-- ===== src/Tests/Observed.antt =====
-- The bridge of spans and the set-up of telemetry at concrete inputs.
use asante_secure_multi_agen.Prelude.{
  ℕ, ◌<◌, String, ◌≡◌, refl, none, some, List, [], ◌∷◌, ◌++◌, All,
}
use asante_secure_multi_agen.Prelude.Exec.{Result}
use asante_secure_multi_agen.Reliability.Config.{Environment}
use asante_secure_multi_agen.Telemetry.Bridge.{
  Callback, trace_start, span_start, SdkSpan, Event, after_all, no_spans, shutdown, notify,
  on_trace_start,
}
use asante_secure_multi_agen.Telemetry.Counts.{times_ended}
use asante_secure_multi_agen.Telemetry.Spans.{shutdown-ends}
use asante_secure_multi_agen.Telemetry.Structure.{notify-Exports, Exports}
use asante_secure_multi_agen.Telemetry.Runtime.{Process, TelemetryRuntime, configure_telemetry}

abbrev asking : SdkSpan String
asking = record {
  span_id = "s-1";
  parent_id = none;
  trace_id = "t-1";
  span_type = some "generation";
  name = none;
  model = some "small";
  content = "what the guest said";
}

-- A workflow with one span that is not ended.
abbrev seen : List (Callback String)
seen = trace_start "t-1" (some "stay") 0 ∷ span_start asking 0 ∷ []

shutdown-ends_example :
    ((span : ℕ)
      → span < (shutdown (after_all seen no_spans)).1.created
      → times_ended span (shutdown (after_all seen no_spans)).1.log ≡ 1)
    × ((shutdown (after_all seen no_spans)).1.created ≡ (after_all seen no_spans).created)
    × ((shutdown (after_all seen no_spans)).1.spans ≡ [])
    × ((shutdown (after_all seen no_spans)).1.trace_roots ≡ [])
unfolding notify on_trace_start
shutdown-ends_example = shutdown-ends seen (refl, (refl, tt))

notify-Exports_example :
    (new : List Event) × ((notify (span_start asking 0) no_spans).1.log ≡ new ++ [])
    × All (Exports (span_start asking 0)) new
notify-Exports_example = notify-Exports (span_start asking 0) no_spans

abbrev unset : Environment
unset name = none

abbrev to_collector : Environment
to_collector name = some "otlp"

abbrev same : String → String
same s = s

abbrev new_process : Process
new_process = record { runtime = none; tracer_provider = none; meter_provider = none }

abbrev set_up : Result TelemetryRuntime × Process
set_up = configure_telemetry to_collector same same new_process
