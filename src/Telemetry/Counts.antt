-- ===== src/Telemetry/Counts.antt =====
-- How often a span is in a dictionary of spans, and how often it was ended.
use asante_secure_multi_agen.Prelude.{
  ℕ, ◌+◌, String, ◌≡◌, refl, sym, ap, ◌∙◌, inl, inr, ◌&&◌, Option, none, some, List, [], ◌∷◌, arith,
  ◌==◌, eq_iff, leb, if◌then◌else◌, Bool-cases,
}
use asante_secure_multi_agen.Prelude.Dict.{Dict, get, put, remove, get-put, get-remove}
use asante_secure_multi_agen.Telemetry.Bridge.{
  Event, started, set_error, ended, Processor, end_each, end_span,
}

abbrev pub hit : ℕ → ℕ → ℕ
hit h k = if leb h k && leb k h then 1 else 0

abbrev pub tracked : ℕ → Dict ℕ → ℕ
tracked h [] = 0
tracked h (e ∷ d) = hit h e.1 + tracked h d

abbrev pub times_ended : ℕ → List Event → ℕ
times_ended h [] = 0
times_ended h (ended span ∷ log) = hit h span + times_ended h log
times_ended h (started span name parent attributes ∷ log) = times_ended h log
times_ended h (set_error span error_type ∷ log) = times_ended h log

abbrev pub found : ℕ → Option ℕ → ℕ
found h none = 0
found h (some k) = hit h k

-- Python's dictionaries have each key once.
abbrev pub Distinct {ℓ} : {V : Type ℓ} → Dict V → Type ℓ
Distinct [] = Unit
Distinct (e ∷ d) = (get d e.0 ≡ none) × Distinct d

module _ {ℓ} {V : Type ℓ} where
  pub Distinct-put : (d : Dict V) (k : String) (v : V) → Distinct d → Distinct (put d k v)
  Distinct-put [] k v h = (refl, tt)
  Distinct-put (e ∷ d) k v (h, hs) = elim (Bool-cases (e.0 == k)) [
    | inl y ↦ rw y (ap (get d) (sym ((eq_iff e.0 k).0 y)) ∙ h, hs)
    | inr n ↦
        rw n (
          ground (arith, get-put d k e.0 v, h, n, eq_iff k e.0, eq_iff e.0 k),
          Distinct-put d k v hs,
        )
  ]

  pub Distinct-remove : (d : Dict V) (k : String) → Distinct d → Distinct (remove d k)
  Distinct-remove [] k h = tt
  Distinct-remove (e ∷ d) k (h, hs) = elim (Bool-cases (e.0 == k)) [
    | inl y ↦ rw y (Distinct-remove d k hs)
    | inr n ↦ rw n (ground (arith, get-remove d k e.0, h), Distinct-remove d k hs)
  ]

pub tracked-put :
    (h : ℕ) (d : Dict ℕ) (k : String) (v : ℕ)
    → get d k ≡ none
    → tracked h (put d k v) ≡ tracked h d + hit h v
tracked-put h [] k v a = ground arith
tracked-put h (e ∷ d) k v a = ground (arith, tracked-put h d k v)

remove-absent : {V : Type 0} (d : Dict V) (k : String) → get d k ≡ none → remove d k ≡ d
remove-absent [] k a = refl
remove-absent (e ∷ d) k a = ground (arith, remove-absent d k)

pub tracked-remove :
    (h : ℕ) (d : Dict ℕ) (k : String)
    → Distinct d
    → tracked h (remove d k) + found h (get d k) ≡ tracked h d
tracked-remove h [] k a = refl
tracked-remove h (e ∷ d) k (a, rest) = elim (Bool-cases (e.0 == k)) [
  | inl y ↦ rw (y, remove-absent d k (ap (get d) (sym ((eq_iff e.0 k).0 y)) ∙ a)) (omega arith)
  | inr n ↦ rw n (omega (arith, tracked-remove h d k rest))
]

pub end_each-ended :
    (h : ℕ) (d : Dict ℕ) (p : Processor)
    → let p' = end_each d p in
      (times_ended h p'.log ≡ tracked h d + times_ended h p.log)
      × (p'.created ≡ p.created)
      × (p'.spans ≡ p.spans)
      × (p'.trace_roots ≡ p.trace_roots)
end_each-ended h [] p = (omega arith, refl, refl, refl)
end_each-ended h (e ∷ d) p =
    let (counts, c, s, r) = end_each-ended h d (end_span e.1 p) in (omega (arith, counts), c, s, r)
