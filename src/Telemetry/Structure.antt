-- ===== src/Telemetry/Structure.antt =====
-- What the bridge exports of a span.
use asante_secure_multi_agen.Prelude.{
  ℕ, String, ◌≡◌, refl, sym, ap, ◌∙◌, inl, inr, Bool, true, false, Option, none, some, List, [],
  ◌∷◌, ◌++◌, arith, ◌==◌, is_some, eq_iff, fstring, Bool-cases, Option-cases, All, All-append,
}
use asante_secure_multi_agen.Prelude.Dict.{Dict, get, put}
use Prim.{⊥}
use mathlib.Core.List.{append_assoc}
use asante_secure_multi_agen.Telemetry.Bridge.{
  Callback, trace_start, trace_end, span_start, span_end, shut_down, flush, Processor, SdkSpan,
  Event, started, set_error, ended, notify, shutdown, on_trace_start, on_trace_end, on_span_start,
  on_span_end, end_each, end_span, span_attributes, gen_ai_operation, text_of, is_name, put_if,
  otel_span_name, current,
}

-- The attributes of a mirrored workflow: constants, and its name.
pub data RootAttribute (workflow : Option String) : String → String → Type 0 where
  root_component : RootAttribute workflow "asante.component" "agent_runtime"
  root_operation : RootAttribute workflow "gen_ai.operation.name" "agent_workflow"
  root_name :
      RootAttribute workflow "openai.agents.workflow.name" (text_of workflow "Agent workflow")

module _ (P : String × String → Type 0) where
  All-put : (d : Dict String) (k v : String) → P (k, v) → All P d → All P (put d k v)
  All-put [] k v p h = (p, tt)
  All-put (e ∷ d) k v p (h, hs) = elim (Bool-cases (e.0 == k)) [
    | inl y ↦ rw y (p, hs)
    | inr n ↦ rw n (h, All-put d k v p hs)
  ]

  All-put_if :
      (c : Bool) (d : Dict String) (k v : String)
      → (c ≡ true → P (k, v))
      → All P d
      → All P (put_if c d k v)
  All-put_if true d k v p h = All-put d k v (p refl) h
  All-put_if false d k v p h = h

is_name-some : (o : Option String) → is_name o ≡ true → o ≡ some (text_of o "")
is_name-some none h = ground (arith, h)
is_name-some (some s) h = refl

is_some-some : (o : Option String) → is_some o ≡ true → o ≡ some (text_of o "")
is_some-some none h = ground (arith, h)
is_some-some (some s) h = refl

type_of :
    (o : Option String) (s : String)
    → (text_of o "unknown" == s) ≡ true
    → ("unknown" == s) ≡ false
    → o ≡ some s
type_of none s h other = ground (arith, h, other)
type_of (some t) s h other = ap some ((eq_iff t s).0 h)

module _ {Content : Type 0} where
  -- The attributes of a mirrored span: a constant, or the type, the operation that goes with the
  -- type, the name or the model of the span.
  pub data SpanAttribute (span : SdkSpan Content) : String → String → Type 0 where
    of_component : SpanAttribute span "asante.component" "agent_runtime"
    of_type : SpanAttribute span "openai.agents.span.type" (text_of span.span_type "unknown")
    of_operation :
        (s : String)
        → gen_ai_operation (text_of span.span_type "unknown") ≡ some s
        → SpanAttribute span "gen_ai.operation.name" s
    of_name :
        (s : String) → span.name ≡ some s → SpanAttribute span "openai.agents.operation.name" s
    of_model : (s : String) → span.model ≡ some s → SpanAttribute span "gen_ai.request.model" s

  -- The name of a mirrored span: a prefix with the name of an agent or a function, or the type.
  pub data SpanTitle (span : SdkSpan Content) (title : String) : Type 0 where
    of_agent :
        (s : String)
        → span.span_type ≡ some "agent"
        → span.name ≡ some s
        → title ≡ fstring ("openai.agent " ∷ s ∷ [])
        → SpanTitle span title
    of_function :
        (s : String)
        → span.span_type ≡ some "function"
        → span.name ≡ some s
        → title ≡ fstring ("openai.tool " ∷ s ∷ [])
        → SpanTitle span title
    of_other :
        title ≡ fstring ("openai." ∷ text_of span.span_type "unknown" ∷ []) → SpanTitle span title

  -- What a callback may do to the spans of OpenTelemetry.
  abbrev pub Exports : Callback Content → Event → Type 0
  Exports (span_start span ambient) (started h title parent attributes) =
      SpanTitle span title × All (λ e. SpanAttribute span e.0 e.1) attributes
  Exports (trace_start trace_id workflow ambient) (started h title parent attributes) =
      (title ≡ "openai.agents.workflow")
      × (parent ≡ current ambient)
      × All (λ e. RootAttribute workflow e.0 e.1) attributes
  Exports (span_end span_id error) (set_error h error_type) =
      error_type ≡ "openai.agents.span_error"
  Exports (span_end span_id error) (ended h) = Unit
  Exports (trace_end trace_id) (ended h) = Unit
  Exports shut_down (ended h) = Unit
  Exports c e = ⊥

  span_attributes-All :
      (span : SdkSpan Content)
      → All
          (λ e. SpanAttribute span e.0 e.1)
          (span_attributes (text_of span.span_type "unknown") span.name span.model)
  unfolding span_attributes
  span_attributes-All span =
      let P = λ (e : String × String). SpanAttribute span e.0 e.1 in
      let base : Dict String =
        ("asante.component", "agent_runtime")
        ∷ ("openai.agents.span.type", text_of span.span_type "unknown")
        ∷ [] in
      let first : All P base = (of_component, (of_type, tt)) in
      All-put_if P _ _ _ _ (λ h. of_model _ (is_name-some span.model h))
        (All-put_if P _ _ _ _ (λ h. of_name _ (is_name-some span.name h))
          (All-put_if P _ base _ _ (λ h. of_operation _ (is_some-some _ h)) first))

  otel_span_name-SpanTitle :
      (span : SdkSpan Content)
      → SpanTitle span (otel_span_name (text_of span.span_type "unknown") span.name)
  unfolding otel_span_name
  otel_span_name-SpanTitle span = elim (Bool-cases (is_name span.name)) [
    | inr n ↦ of_other (ground (arith, n))
    | inl y ↦ elim (Bool-cases (text_of span.span_type "unknown" == "agent")) [
      | inl a ↦
          of_agent (text_of span.name "") (type_of span.span_type "agent" a refl)
            (is_name-some span.name y) (rw (a, y) refl)
      | inr a ↦ elim (Bool-cases (text_of span.span_type "unknown" == "function")) [
        | inl b ↦
            of_function (text_of span.name "") (type_of span.span_type "function" b refl)
              (is_name-some span.name y) (rw (a, b, y) refl)
        | inr b ↦ of_other (rw (a, b) refl)
      ]
    ]
  ]

  end_each-log :
      (c : Callback Content) (d : Dict ℕ) (p : Processor)
      → ((h : ℕ) → Exports c (ended h))
      → (new : List Event) × ((end_each d p).log ≡ new ++ p.log) × All (Exports c) new
  end_each-log c [] p may = ([], refl, tt)
  end_each-log c (e ∷ d) p may =
      let (new, same, exports) = end_each-log c d (end_span e.1 p) may in
      (
        new ++ (ended e.1 ∷ []),
        same ∙ sym (append_assoc new (ended e.1 ∷ []) p.log),
        All-append (Exports c) new (ended e.1 ∷ []) exports (may e.1, tt),
      )

  -- Each callback, on any state of the processor, adds to what was done to the spans of
  -- OpenTelemetry only this: a new span, which is named by its type and, for an agent or a function,
  -- its name, and whose attributes are constants and the type, the operation of the type, the name
  -- and the model of the span; the span of a workflow, whose name is constant, beneath the
  -- ambient context, with constants and the name of the workflow; a constant error type; and ends
  -- of spans. It takes nothing back.
  pub notify-Exports :
      (c : Callback Content) (p : Processor)
      → (new : List Event) × ((notify c p).1.log ≡ new ++ p.log) × All (Exports c) new
  unfolding notify on_trace_start on_trace_end on_span_start on_span_end shutdown
  notify-Exports (trace_start trace_id workflow ambient) p =
      (_ ∷ [], refl, ((refl, refl, (root_component, (root_operation, (root_name, tt)))), tt))
  notify-Exports (trace_end trace_id) p = elim (Option-cases (get p.trace_roots trace_id)) [
    | inl e ↦ rw e ([], refl, tt)
    | inr (h, e) ↦ rw e (_ ∷ [], refl, (tt, tt))
  ]
  notify-Exports (span_start span ambient) p =
      (_ ∷ [], refl, ((otel_span_name-SpanTitle span, span_attributes-All span), tt))
  notify-Exports (span_end span_id error) p = elim (Option-cases (get p.spans span_id)) [
    | inl e ↦ rw e ([], refl, tt)
    | inr (h, e) ↦ rw e (elim (Bool-cases error) [
      | inl y ↦ rw y (_ ∷ _ ∷ [], refl, (tt, (refl, tt)))
      | inr n ↦ rw n (_ ∷ [], refl, (tt, tt))
    ])
  ]
  notify-Exports shut_down p =
      let q = record p { spans = []; trace_roots = []; trace_parent_contexts = [] } in
      let (first, same, exports) = end_each-log shut_down p.spans q (λ h. tt) in
      let (second, same', exports') =
        end_each-log shut_down p.trace_roots (end_each p.spans q) (λ h. tt) in
      (
        second ++ first,
        same' ∙ ap (λ log. second ++ log) same ∙ sym (append_assoc second first p.log),
        All-append (Exports shut_down) second first exports' exports,
      )
  notify-Exports flush p = ([], refl, tt)
