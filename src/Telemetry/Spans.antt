-- ===== src/Telemetry/Spans.antt =====
-- Every mirrored span is ended once.
use asante_secure_multi_agen.Prelude.{
  ℕ, ◌+◌, ◌≤◌, ◌<◌, ◌≡◌, refl, ap, ◌∙◌, inl, inr, none, List, [], ◌∷◌, arith, ltb, ltb→lt,
  Bool-cases, Option-cases,
}
use asante_secure_multi_agen.Prelude.Dict.{get}
use asante_secure_multi_agen.Telemetry.Bridge.{
  Callback, trace_start, trace_end, span_start, span_end, shut_down, flush, Processor, notify,
  after_all, no_spans, shutdown, on_trace_start, on_trace_end, on_span_start, on_span_end, end_each,
}
use asante_secure_multi_agen.Telemetry.Counts.{
  hit, tracked, times_ended, Distinct, Distinct-put, Distinct-remove, tracked-put, tracked-remove,
  end_each-ended,
}

-- How often a span was ended or is still to be ended.
abbrev owed : ℕ → Processor → ℕ
owed h p = times_ended h p.log + (tracked h p.spans + tracked h p.trace_roots)

record IsBalanced (p : Processor) : Type 0 where
  distinct_spans : Distinct p.spans
  distinct_roots : Distinct p.trace_roots
  once : (h : ℕ) → h < p.created → owed h p ≡ 1
  never : (h : ℕ) → p.created ≤ h → owed h p ≡ 0

no_spans-IsBalanced : IsBalanced no_spans
no_spans-IsBalanced = record {
  distinct_spans = tt;
  distinct_roots = tt;
  once = λ h l. omega (arith, l);
  never = λ h l. omega arith;
}

hit-same : (h k : ℕ) → h ≤ k → k ≤ h → hit h k ≡ 1
hit-same h k a b = ground arith

hit-below : (h k : ℕ) → h < k → hit h k ≡ 0
hit-below h k a = ground arith

hit-above : (h k : ℕ) → k < h → hit h k ≡ 0
hit-above h k a = ground arith

-- What a new span adds.
grown-once :
    (p : Processor) (total h : ℕ)
    → IsBalanced p
    → total ≡ owed h p + hit h p.created
    → (h < p.created + 1 → total ≡ 1) × (p.created + 1 ≤ h → total ≡ 0)
grown-once p total h b e = elim (Bool-cases (ltb h p.created)) [
  | inl l ↦
      let lt = ltb→lt h p.created l in
      (λ g. omega (arith, e, b.once h lt, hit-below h p.created lt), λ g. omega (arith, lt, g))
  | inr l ↦
      let ge : p.created ≤ h = ground (arith, l) in
      (
        λ g. omega (arith, e, b.never h ge, hit-same h p.created (omega (arith, g)) ge),
        λ g. omega (arith, e, b.never h ge, hit-above h p.created (omega (arith, g))),
      )
]

kept-IsBalanced :
    (p p' : Processor)
    → p'.created ≡ p.created
    → ((h : ℕ) → owed h p' ≡ owed h p)
    → Distinct p'.spans
    → Distinct p'.trace_roots
    → IsBalanced p
    → IsBalanced p'
kept-IsBalanced p p' same kept ds dr b = record {
  distinct_spans = ds;
  distinct_roots = dr;
  once = λ h l. kept h ∙ b.once h (omega (arith, l, same));
  never = λ h l. kept h ∙ b.never h (omega (arith, l, same));
}

shutdown-owed :
    (h : ℕ) (p : Processor)
    → let p' = (shutdown p).1 in
      (times_ended h p'.log ≡ owed h p)
      × (p'.created ≡ p.created)
      × (p'.spans ≡ [])
      × (p'.trace_roots ≡ [])
unfolding shutdown
shutdown-owed h p =
    let q = record p { spans = []; trace_roots = []; trace_parent_contexts = [] } in
    let (n, c, s, r) = end_each-ended h p.spans q in
    let (n', c', s', r') = end_each-ended h p.trace_roots (end_each p.spans q) in
    (omega (arith, n, n'), c' ∙ c, s' ∙ s, r' ∙ r)

module _ {Content : Type 0} where
  -- A start has an id that is not in use.
  abbrev pub Fresh : Callback Content → Processor → Type 0
  Fresh (trace_start trace_id name ambient) p = get p.trace_roots trace_id ≡ none
  Fresh (trace_end trace_id) p = Unit
  Fresh (span_start span ambient) p = get p.spans span.span_id ≡ none
  Fresh (span_end span_id error) p = Unit
  Fresh shut_down p = Unit
  Fresh flush p = Unit

  abbrev pub AllFresh : List (Callback Content) → Processor → Type 0
  AllFresh [] p = Unit
  AllFresh (c ∷ cs) p = Fresh c p × AllFresh cs (notify c p).1

  notify-IsBalanced :
      (c : Callback Content) (p : Processor) → Fresh c p → IsBalanced p → IsBalanced (notify c p).1
  unfolding notify on_trace_start on_trace_end on_span_start on_span_end shutdown
  notify-IsBalanced (trace_start trace_id name ambient) p fresh b = record {
    distinct_spans = b.distinct_spans;
    distinct_roots = Distinct-put p.trace_roots trace_id p.created b.distinct_roots;
    once = λ h.
        (grown-once p _ h b
          (omega (arith, tracked-put h p.trace_roots trace_id p.created fresh))).0;
    never = λ h.
        (grown-once p _ h b
          (omega (arith, tracked-put h p.trace_roots trace_id p.created fresh))).1;
  }
  notify-IsBalanced (trace_end trace_id) p fresh b =
      elim (Option-cases (get p.trace_roots trace_id)) [
        | inl e ↦ rw e (
            kept-IsBalanced p _ refl
              (λ h.
                omega (arith, rw e at (tracked-remove h p.trace_roots trace_id b.distinct_roots)))
              b.distinct_spans (Distinct-remove p.trace_roots trace_id b.distinct_roots) b)
        | inr (k, e) ↦ rw e (
            kept-IsBalanced p _ refl
              (λ h.
                omega (arith, rw e at (tracked-remove h p.trace_roots trace_id b.distinct_roots)))
              b.distinct_spans (Distinct-remove p.trace_roots trace_id b.distinct_roots) b)
      ]
  notify-IsBalanced (span_start span ambient) p fresh b = record {
    distinct_spans = Distinct-put p.spans span.span_id p.created b.distinct_spans;
    distinct_roots = b.distinct_roots;
    once = λ h.
        (grown-once p _ h b (omega (arith, tracked-put h p.spans span.span_id p.created fresh))).0;
    never = λ h.
        (grown-once p _ h b (omega (arith, tracked-put h p.spans span.span_id p.created fresh))).1;
  }
  notify-IsBalanced (span_end span_id error) p fresh b = elim (Option-cases (get p.spans span_id)) [
    | inl e ↦ rw e (
        kept-IsBalanced p _ refl
          (λ h. omega (arith, rw e at (tracked-remove h p.spans span_id b.distinct_spans)))
          (Distinct-remove p.spans span_id b.distinct_spans) b.distinct_roots b)
    | inr (k, e) ↦ rw e (elim (Bool-cases error) [
      | inl y ↦ rw y (
          kept-IsBalanced p _ refl
            (λ h. omega (arith, rw e at (tracked-remove h p.spans span_id b.distinct_spans)))
            (Distinct-remove p.spans span_id b.distinct_spans) b.distinct_roots b)
      | inr n ↦ rw n (
          kept-IsBalanced p _ refl
            (λ h. omega (arith, rw e at (tracked-remove h p.spans span_id b.distinct_spans)))
            (Distinct-remove p.spans span_id b.distinct_spans) b.distinct_roots b)
    ])
  ]
  notify-IsBalanced shut_down p fresh b =
      let (n, c, s, r) = shutdown-owed 0 p in
      kept-IsBalanced p (shutdown p).1 c
        (λ h.
          let (n, c, s, r) = shutdown-owed h p in
          omega (arith, n, ap (tracked h) s, ap (tracked h) r))
        (rw s tt) (rw r tt) b
  notify-IsBalanced flush p fresh b = b

  after_all-IsBalanced :
      (cs : List (Callback Content)) (p : Processor)
      → AllFresh cs p
      → IsBalanced p
      → IsBalanced (after_all cs p)
  after_all-IsBalanced [] p fresh b = b
  after_all-IsBalanced (c ∷ cs) p (f, fs) b =
      after_all-IsBalanced cs (notify c p).1 fs (notify-IsBalanced c p f b)

  -- After any sequence of callbacks on a new processor in which no start has an id that is in use,
  -- `shutdown` leaves every span that the processor has ever made ended, and ended once; it makes
  -- no span, and no span is left to be ended.
  pub shutdown-ends :
      (cs : List (Callback Content))
      → AllFresh cs no_spans
      → let p = after_all cs no_spans in
        let p' = (shutdown p).1 in
        ((span : ℕ) → span < p'.created → times_ended span p'.log ≡ 1)
        × (p'.created ≡ p.created)
        × (p'.spans ≡ [])
        × (p'.trace_roots ≡ [])
  shutdown-ends cs fresh =
      let p = after_all cs no_spans in
      let b = after_all-IsBalanced cs no_spans fresh no_spans-IsBalanced in
      let (n, c, s, r) = shutdown-owed 0 p in
      (λ span l. (shutdown-owed span p).0 ∙ b.once span (omega (arith, l, c)), c, s, r)
