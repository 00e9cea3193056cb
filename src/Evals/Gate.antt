-- ===== src/Evals/Gate.antt =====
-- What lets a release through the gate.
use asante_secure_multi_agen.Prelude.{
  ℕ, ◌+◌, ◌≤◌, ◌<◌, ◌≡◌, refl, ◌⊎◌, inl, inr, Bool, true, false, none, List, [], ◌∷◌, arith, leb,
  Bool-cases, length, All,
}
use asante_secure_multi_agen.Floats.{Floats, IsOrdered, float_limit}
use asante_secure_multi_agen.Evals.Report.{
  EvalResult, count, is_critical_failure, is_passed, main, has_side_effect, run_release_evals,
  has_disclosure, default_thresholds, meets_thresholds,
}

-- A quotient of whole numbers up to `float_limit` is 1 or more just if the dividend is not less than
-- the divisor.
abbrev pub IsRatio : (F : Floats) → (ℕ → ℕ → F.Float) → Type 0
IsRatio F ratio =
    (m n : ℕ) → 0 < n → m ≤ n → n ≤ float_limit → F.lef (F.whole 1) (ratio m n) ≡ leb n m

count-le :
    (test : EvalResult → Bool) (results : List EvalResult) → count test results ≤ length results
count-le test [] = omega arith
count-le test (r ∷ results) = ground (arith, count-le test results)

-- A result that does no harm.
abbrev pub IsClean : EvalResult → Type 0
IsClean r =
    (r.passed ≡ true) × (r.unauthorized_side_effect ≡ false) × (r.unauthorized_disclosure ≡ false)

count-IsClean :
    (results : List EvalResult)
    → length results ≤ count is_passed results
    → count has_side_effect results ≡ 0
    → count has_disclosure results ≡ 0
    → All IsClean results
count-IsClean [] p s d = tt
count-IsClean (r ∷ results) p s d =
    let le = count-le is_passed results in
    elim (Bool-cases r.passed) [
      | inr n ↦ ground (arith, n, le, p)
      | inl y ↦ elim (Bool-cases r.unauthorized_side_effect) [
        | inl z ↦ ground (arith, z, s)
        | inr z ↦ elim (Bool-cases r.unauthorized_disclosure) [
          | inl q ↦ ground (arith, q, d)
          | inr q ↦ (
            (y, z, q),
            count-IsClean results (ground (arith, y, p)) (ground (arith, z, s))
                (ground (arith, q, d)),
          )
        ]
      ]
    ]

IsClean-count :
    (results : List EvalResult)
    → All IsClean results
    → (count is_passed results ≡ length results)
      × (count is_critical_failure results ≡ 0)
      × (count has_side_effect results ≡ 0)
      × (count has_disclosure results ≡ 0)
IsClean-count [] h = (refl, refl, refl, refl)
IsClean-count (r ∷ results) ((y, z, q), hs) =
    let (a, b, c, d) = IsClean-count results hs in
    (ground (arith, y, a), ground (arith, y, b), ground (arith, z, c), ground (arith, q, d))

critical-le :
    (results : List EvalResult)
    → count is_critical_failure results + count is_passed results ≤ length results
critical-le [] = omega arith
critical-le (r ∷ results) = elim (Bool-cases r.passed) [
  | inl y ↦ ground (arith, y, critical-le results)
  | inr n ↦ ground (arith, n, critical-le results)
]

-- The gate lets a release through, with the exit code 0, just if there is a result, and every
-- result passed and found neither an unauthorized side effect nor an unauthorized disclosure;
-- otherwise it answers 1. The counts of the report add up, and a critical failure is a failure.
-- Floats are assumed to be ordered, a quotient to be at least 1 just if the dividend is not less
-- than the divisor, and the results to be few enough to be counted by floats.
pub main_lem :
    (F : Floats) (ratio : ℕ → ℕ → F.Float) (results : List EvalResult)
    → IsOrdered F
    → IsRatio F ratio
    → length results ≤ float_limit
    → let report = run_release_evals F ratio none results in
      (main F ratio results ≡ 0 → (0 < length results) × All IsClean results)
      × ((0 < length results) × All IsClean results → main F ratio results ≡ 0)
      × ((main F ratio results ≡ 0) ⊎ (main F ratio results ≡ 1))
      × (report.passed_count + report.failed_count ≡ report.total)
      × (report.critical_failures ≤ report.failed_count)
unfolding main run_release_evals
main_lem F ratio [] ordered is_ratio few =
    let low =
      ordered.not-lef_of_ltf (F.whole 0) (F.whole 1)
        (ordered.ltf-whole 0 1 (omega arith) (omega arith)) in
    rw low (λ h. ground (arith, h), λ h. ground (arith, h), inr refl, omega arith, omega arith)
main_lem F ratio (r ∷ results) ordered is_ratio few =
    let all = r ∷ results in
    let rate =
      is_ratio (count is_passed all) (length all) (omega arith) (count-le is_passed all) few in
    (
      λ h. (
        omega arith,
        count-IsClean all (ground (arith, rate, h)) (ground (arith, rate, h))
            (ground (arith, rate, h)),
      ),
      λ h. let (a, b, c, d) = IsClean-count all h.1 in ground (arith, rate, a, b, c, d),
      elim (Bool-cases (meets_thresholds F ratio (default_thresholds F ratio) all)) [
        | inl y ↦ rw y (inl refl)
        | inr n ↦ rw n (inr refl)
      ],
      omega (arith, count-le is_passed all),
      omega (arith, critical-le all),
    )
