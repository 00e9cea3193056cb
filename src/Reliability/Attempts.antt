-- ===== src/Reliability/Attempts.antt =====
-- How often the retry loop calls its operation, and what comes out of it.
use asante_secure_multi_agen.Prelude.{
  ℕ, zero, suc, ◌+◌, ◌≤◌, ◌<◌, ◌≡◌, refl, ◌⊎◌, inl, inr, true, false, arith, leb, leb→le,
  Bool-cases,
}
use asante_secure_multi_agen.Prelude.Exec.{
  Exc, Result, ok, err, Action, continue, catch, ◌>>=◌, ◌>>◌, Outcome-cases,
}
use asante_secure_multi_agen.Floats.{Floats}
use asante_secure_multi_agen.Reliability.Retry.{
  RetryPolicy, attempts_from, is_transient, wait, backoff, execute_with_bounded_retry, on_error,
}
use mathlib.Core.Path.{subst}

module _ (F : Floats) {S A : Type 0} (operation : Action S A) (policy : RetryPolicy F.Float)
    (on_retry : ℕ → Action S Unit) (sleep : F.Float → Action S Unit) where
  open F use {Float}

  -- What stands between a transient error at an attempt and the next attempt.
  abbrev pub pause : ℕ → Action S Unit
  pause attempt = do
    on_retry attempt
    wait F operation policy on_retry sleep (backoff F policy attempt)

  -- The runs of the loop from an attempt on, with the number of calls of the operation, the state
  -- before, and what comes out. A success, an error that is not transient, or a transient one at
  -- the last attempt ends the loop, as does a pause that raises; any other transient error is
  -- followed by a pause and the next attempt.
  pub data Attempts : ℕ → ℕ → S → Result A × S → Type 0 where
    succeeds :
        {attempt calls : ℕ} {s : S} {r : Result A × S} (a : A) (s' : S)
        → calls ≡ 1
        → operation s ≡ (ok a, s')
        → r ≡ (ok a, s')
        → Attempts attempt calls s r
    fails :
        {attempt calls : ℕ} {s : S} {r : Result A × S} (e : Exc) (s' : S)
        → calls ≡ 1
        → operation s ≡ (err e, s')
        → (is_transient e ≡ false) ⊎ (policy.max_attempts ≤ attempt)
        → r ≡ (err e, s')
        → Attempts attempt calls s r
    breaks :
        {attempt calls : ℕ} {s : S} {r : Result A × S} (e e' : Exc) (s' s'' : S)
        → calls ≡ 1
        → operation s ≡ (err e, s')
        → is_transient e ≡ true
        → pause attempt s' ≡ (err e', s'')
        → r ≡ (err e', s'')
        → Attempts attempt calls s r
    retries :
        {attempt calls : ℕ} {s : S} {r : Result A × S} (e : Exc) (s' s'' : S) (more : ℕ)
        → calls ≡ suc more
        → operation s ≡ (err e, s')
        → is_transient e ≡ true
        → attempt < policy.max_attempts
        → pause attempt s' ≡ (ok tt, s'')
        → Attempts (attempt + 1) more s'' r
        → Attempts attempt calls s r

  abbrev loop : ℕ → ℕ → Action S A
  loop = attempts_from F operation policy on_retry sleep

  after_pause :
      (attempt : ℕ) (again : Action S A) (s : S)
      → (on_retry attempt >>= (λ _.
            wait F operation policy on_retry sleep (backoff F policy attempt) >>= λ _. again))
          s
        ≡ continue (λ _. again) (pause attempt s).0 (pause attempt s).1
  after_pause attempt again s = elim (Outcome-cases (on_retry attempt s)) [
    | inl (u, t, e) ↦ rw e
    | inr (x, t, e) ↦ rw e
  ]

  abbrev Bounded : ℕ → ℕ → S → Action S A → Type 0
  Bounded bound attempt s m = (calls : ℕ) × Attempts attempt calls s (m s) × (calls ≤ bound)

  step-Bounded :
      (left attempt : ℕ) (again : Action S A) (s : S)
      → (attempt < policy.max_attempts → (t : S) → Bounded left (attempt + 1) t again)
      → Bounded
          (suc left)
          attempt
          s
          (catch operation (on_error F operation policy on_retry sleep attempt again))
  step-Bounded left attempt again s rest = elim (Outcome-cases (operation s)) [
    | inl (a, s', e) ↦ (1, succeeds a s' refl e (rw e), omega arith)
    | inr (e, s', oe) ↦ elim (Bool-cases (is_transient e)) [
      | inr hard ↦ (1, fails e s' refl oe (inl hard) (rw (oe, hard)), omega arith)
      | inl soft ↦ elim (Bool-cases (leb policy.max_attempts attempt)) [
        | inl last ↦
            (1, fails e s' refl oe (inr (leb→le _ _ last)) (rw (oe, soft, last)), omega arith)
        | inr more ↦ elim (Outcome-cases (pause attempt s')) [
          | inr (e', s'', pe) ↦ (
            1,
            breaks e e' s' s'' refl oe soft pe
                (rw (oe, soft, more) (rw (after_pause attempt again s') (rw pe))),
            omega arith,
          )
          | inl (u, s'', pe) ↦
              let (n, run, bound) = rest (ground arith) s'' in
              let same : catch operation (on_error F operation policy on_retry sleep attempt again)
                    s
                  ≡ again s'' =
                rw (oe, soft, more) (rw (after_pause attempt again s') (rw pe)) in
              (suc n, rw same (retries e s' s'' n refl oe soft (ground arith) pe run), omega arith)
        ]
      ]
    ]
  ]

  loop-Bounded :
      (left attempt : ℕ) (s : S)
      → left + attempt ≡ policy.max_attempts
      → Bounded (suc left) attempt s (loop (suc left) attempt)
  unfolding attempts_from
  loop-Bounded zero attempt s h = step-Bounded zero attempt _ s (λ more t. absurd (omega arith))
  loop-Bounded (suc left) attempt s h =
      step-Bounded (suc left) attempt (loop (suc left) (attempt + 1)) s
        (λ more t. loop-Bounded left (attempt + 1) t (omega arith))

  all_rounds : (n : ℕ) (s : S) → n ≡ policy.max_attempts → 1 ≤ n → Bounded n 1 s (loop n 1)
  all_rounds zero s e h = absurd (omega arith)
  all_rounds (suc left) s e h = loop-Bounded left 1 s (omega arith)

  -- With a budget of at least one attempt the loop always comes out by one of the runs of
  -- `Attempts` from attempt 1, and calls the operation at most `max_attempts` times. So only
  -- transient errors are retried, and its own `AssertionError` is never reached.
  pub execute_with_bounded_retry-Attempts :
      (s : S)
      → 1 ≤ policy.max_attempts
      → (calls : ℕ) × Attempts 1 calls s
          (execute_with_bounded_retry F operation policy on_retry sleep s)
        × (calls ≤ policy.max_attempts)
  unfolding execute_with_bounded_retry
  execute_with_bounded_retry-Attempts s h = all_rounds policy.max_attempts s refl h

  module _ {κ} (P : S → Type κ) (op_keeps : (s : S) → P s → P (operation s).1)
      (pause_keeps : (attempt : ℕ) (s : S) → P s → P (pause attempt s).1) where
    Attempts-keeps :
        {attempt calls : ℕ} {s : S} {r : Result A × S} → Attempts attempt calls s r → P s → P r.1
    Attempts-keeps {s = s} (succeeds a s' n e eq) h = rw eq (subst (λ x. P x.1) e (op_keeps s h))
    Attempts-keeps {s = s} (fails x s' n e why eq) h = rw eq (subst (λ x. P x.1) e (op_keeps s h))
    Attempts-keeps {attempt} {s = s} (breaks x x' s' s'' n e soft pe eq) h =
        rw eq (subst (λ x. P x.1) pe (pause_keeps attempt s' (subst (λ x. P x.1) e (op_keeps s h))))
    Attempts-keeps {attempt} {s = s} (retries x s' s'' more n e soft lt pe run) h =
        Attempts-keeps run
          (subst (λ x. P x.1) pe (pause_keeps attempt s' (subst (λ x. P x.1) e (op_keeps s h))))

    rounds_keep : (n : ℕ) (s : S) → n ≡ policy.max_attempts → P s → P (loop n 1 s).1
    unfolding attempts_from
    rounds_keep zero s e h = h
    rounds_keep (suc left) s e h = Attempts-keeps (loop-Bounded left 1 s (omega arith)).1 h

    -- What the operation and the pauses keep, the whole loop keeps.
    pub execute_with_bounded_retry-keeps :
        (s : S) → P s → P (execute_with_bounded_retry F operation policy on_retry sleep s).1
    unfolding execute_with_bounded_retry
    execute_with_bounded_retry-keeps s h = rounds_keep policy.max_attempts s refl h
