-- ===== src/Metrics.antt =====
-- src/asante_secure_multi_agent/telemetry/metrics.py: the metric records, as the list of the
-- counter increments with their attributes. Durations go to a histogram that nothing reads.
use asante_secure_multi_agen.Prelude.{ℕ, String, Bool, List, [], ◌∷◌, ◌++◌, if◌then◌else◌}
use asante_secure_multi_agen.Prelude.Exec.{Action, modify}

pub data Metric : Type 0 where
  authorization_decision : String → String → String → Metric
  mcp_call : String → String → Metric
  credit_execution : String → Metric
  credit_retry : ℕ → Metric
  credit_deduplication : Metric
  cache_lookup : String → Metric
  cache_denied_before_lookup : String → Metric
  operation_execution : String → String → Metric

abbrev pub Meter : Type 0
Meter = List Metric

abbrev emit : Metric → Action Meter Unit
emit m = modify (λ ms. ms ++ m ∷ [])

unfoldable pub record_authorization : String → String → String → Action Meter Unit
record_authorization action effect phase = emit (authorization_decision action effect phase)

unfoldable pub record_mcp_call : String → String → Action Meter Unit
record_mcp_call outcome tool_name = emit (mcp_call tool_name outcome)

-- `"hit" if hit else "expired" if expired else "miss"`
unfoldable pub record_cache_lookup : Bool → Bool → Action Meter Unit
record_cache_lookup hit expired =
    emit (cache_lookup (if hit then "hit" else if expired then "expired" else "miss"))

unfoldable pub record_cache_denied_before_lookup : String → Action Meter Unit
record_cache_denied_before_lookup phase = emit (cache_denied_before_lookup phase)

unfoldable pub record_credit_execution : String → Action Meter Unit
record_credit_execution outcome = emit (credit_execution outcome)

unfoldable pub record_credit_retry : ℕ → Action Meter Unit
record_credit_retry attempt = emit (credit_retry attempt)

unfoldable pub record_credit_deduplication : Action Meter Unit
record_credit_deduplication = emit credit_deduplication

unfoldable pub record_operation_execution : String → String → Action Meter Unit
record_operation_execution action outcome = emit (operation_execution action outcome)
