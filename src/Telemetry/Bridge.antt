-- ===== src/Telemetry/Bridge.antt =====
-- telemetry/bridge.py: `OpenAIAgentsOpenTelemetryProcessor`. A span object of OpenTelemetry is
-- known by its number in the order of creation, and what was done to the objects is a log, newest
-- first. A callback is one step. The lock of the source guards only its dictionaries, so callbacks
-- from several threads may run into each other between two uses of it, which is not modelled. A
-- callback's ambient context is an argument.
use asante_secure_multi_agen.Prelude.{
  ℕ, ◌+◌, String, Bool, false, not, ◌&&◌, Option, none, some, List, [], ◌∷◌, ◌==◌, if◌then◌else◌,
  is_some, fstring,
}
use asante_secure_multi_agen.Prelude.Dict.{Dict, get, put, remove}
use asante_secure_multi_agen.Prelude.Exec.{ok, Action, gets, ◌>>=◌, ◌>>◌, modify}

-- A span of the Agents SDK. `none` stands also for an attribute that is no text; what the model
-- said and what the tools were given and answered is `content`.
pub record SdkSpan (Content : Type 0) : Type 0 where
  pub span_id : String
  pub parent_id : Option String
  pub trace_id : String
  pub span_type : Option String
  pub name : Option String
  pub model : Option String
  pub content : Content

-- The parent of a span of OpenTelemetry: another span, or the current context.
pub data Context : Type 0 where
  in_span : ℕ → Context
  current : ℕ → Context

pub data Event : Type 0 where
  started : (span : ℕ) (name : String) (parent : Context) (attributes : Dict String) → Event
  set_error : (span : ℕ) (error_type : String) → Event
  ended : (span : ℕ) → Event

pub record Processor : Type 0 where
  pub trace_roots : Dict ℕ
  pub trace_parent_contexts : Dict Context
  pub spans : Dict ℕ
  pub created : ℕ
  pub log : List Event

-- `isinstance(value, str) and value`
abbrev pub is_name : Option String → Bool
is_name none = false
is_name (some s) = not (s == "")

abbrev pub text_of : Option String → String → String
text_of none default = default
text_of (some s) default = s

unfoldable pub otel_span_name : String → Option String → String
otel_span_name span_type safe_name =
    if span_type == "agent" && is_name safe_name
    then fstring ("openai.agent " ∷ text_of safe_name "" ∷ [])
    else if span_type == "function" && is_name safe_name
    then fstring ("openai.tool " ∷ text_of safe_name "" ∷ [])
    else fstring ("openai." ∷ span_type ∷ [])

unfoldable pub gen_ai_operation : String → Option String
gen_ai_operation =
    get (("agent", "invoke_agent") ∷ ("generation", "chat") ∷ ("function", "execute_tool") ∷ [])

-- `d[key] = value` under a test.
abbrev pub put_if : Bool → Dict String → String → String → Dict String
put_if c d key value = if c then put d key value else d

unfoldable pub span_attributes : String → Option String → Option String → Dict String
unfolding gen_ai_operation
span_attributes span_type safe_name safe_model =
    let operation = gen_ai_operation span_type in
    let base =
      ("asante.component", "agent_runtime") ∷ ("openai.agents.span.type", span_type) ∷ [] in
    let with_operation =
      put_if (is_some operation) base "gen_ai.operation.name" (text_of operation "") in
    let with_name =
      put_if (is_name safe_name) with_operation "openai.agents.operation.name"
        (text_of safe_name "") in
    put_if (is_name safe_model) with_name "gen_ai.request.model" (text_of safe_model "")

-- `self._tracer.start_span`, which answers the number of the new span.
abbrev pub start_span : String → Context → Dict String → Action Processor ℕ
start_span name parent attributes p = (
  ok p.created,
  record p { created = p.created + 1; log = started p.created name parent attributes ∷ p.log },
)

abbrev pub end_span : ℕ → Processor → Processor
end_span span p = record p { log = ended span ∷ p.log }

abbrev pub end_each : Dict ℕ → Processor → Processor
end_each [] p = p
end_each (e ∷ d) p = end_each d (end_span e.1 p)

abbrev pub end_found : Option ℕ → Processor → Processor
end_found none p = p
end_found (some span) p = end_span span p

unfoldable pub on_trace_start : String → Option String → ℕ → Action Processor Unit
on_trace_start trace_id name ambient = do
  root ← start_span "openai.agents.workflow" (current ambient) (
      ("asante.component", "agent_runtime")
      ∷ ("gen_ai.operation.name", "agent_workflow")
      ∷ ("openai.agents.workflow.name", text_of name "Agent workflow")
      ∷ [])
  modify (λ p. record p {
    trace_roots = put p.trace_roots trace_id root;
    trace_parent_contexts = put p.trace_parent_contexts trace_id (current ambient);
  })

unfoldable pub on_trace_end : String → Action Processor Unit
on_trace_end trace_id = do
  root ← gets (λ p. get p.trace_roots trace_id)
  modify (λ p. record p {
    trace_roots = remove p.trace_roots trace_id;
    trace_parent_contexts = remove p.trace_parent_contexts trace_id;
  })
  modify (end_found root)

-- The parent span, if it is mirrored, or else the root of the trace, or else the current context.
abbrev pub get_parent : Dict ℕ → Option String → Option ℕ
get_parent spans none = none
get_parent spans (some parent_id) = get spans parent_id

abbrev pub or_root : Option ℕ → Option ℕ → Option ℕ
or_root none root = root
or_root (some parent) root = some parent

abbrev pub parent_context : Option ℕ → ℕ → Context
parent_context none ambient = current ambient
parent_context (some parent) ambient = in_span parent

module _ {Content : Type 0} where
  unfoldable pub on_span_start : SdkSpan Content → ℕ → Action Processor Unit
  unfolding span_attributes otel_span_name
  on_span_start span ambient = do
    let span_type = text_of span.span_type "unknown"
    parent ←
        gets (λ p. or_root (get_parent p.spans span.parent_id) (get p.trace_roots span.trace_id))
    mirrored ←
        start_span (otel_span_name span_type span.name) (parent_context parent ambient)
          (span_attributes span_type span.name span.model)
    modify (λ p. record p { spans = put p.spans span.span_id mirrored })

abbrev pub set_status : Bool → ℕ → Processor → Processor
set_status error span p =
    if error then record p { log = set_error span "openai.agents.span_error" ∷ p.log } else p

abbrev pub finish_found : Option ℕ → Bool → Processor → Processor
finish_found none error p = p
finish_found (some span) error p = end_span span (set_status error span p)

unfoldable pub on_span_end : String → Bool → Action Processor Unit
on_span_end span_id error = do
  mirrored ← gets (λ p. get p.spans span_id)
  modify (λ p. record p { spans = remove p.spans span_id })
  modify (finish_found mirrored error)

unfoldable pub shutdown : Action Processor Unit
shutdown = do
  spans ← gets (λ p. p.spans)
  roots ← gets (λ p. p.trace_roots)
  modify (λ p. record p { spans = []; trace_roots = []; trace_parent_contexts = [] })
  modify (end_each spans)
  modify (end_each roots)

abbrev pub force_flush : Action Processor Unit
force_flush p = (ok tt, p)

abbrev pub no_spans : Processor
no_spans = record {
  trace_roots = [];
  trace_parent_contexts = [];
  spans = [];
  created = 0;
  log = [];
}

-- A callback of the Agents SDK.
pub data Callback (Content : Type 0) : Type 0 where
  trace_start : (trace_id : String) (name : Option String) (ambient : ℕ) → Callback Content
  trace_end : (trace_id : String) → Callback Content
  span_start : (span : SdkSpan Content) (ambient : ℕ) → Callback Content
  span_end : (span_id : String) (error : Bool) → Callback Content
  shut_down flush : Callback Content

module _ {Content : Type 0} where
  unfoldable pub notify : Callback Content → Action Processor Unit
  notify (trace_start trace_id name ambient) = on_trace_start trace_id name ambient
  notify (trace_end trace_id) = on_trace_end trace_id
  notify (span_start span ambient) = on_span_start span ambient
  notify (span_end span_id error) = on_span_end span_id error
  notify shut_down = shutdown
  notify flush = force_flush

  -- The processor after a sequence of callbacks.
  abbrev pub after_all : List (Callback Content) → Processor → Processor
  after_all [] p = p
  after_all (c ∷ cs) p = after_all cs (notify c p).1
