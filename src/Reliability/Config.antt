-- ===== src/Reliability/Config.antt =====
-- reliability/config.py: settings from the environment. `os.getenv` is an argument, and so are
-- Python's `int` and `float` on a text, which raise `ValueError` on one that is no number.
use asante_secure_multi_agen.Prelude.{
  ℕ, ◌≤◌, String, ◌≡◌, ◌⊎◌, inl, inr, true, ◌&&◌, Option, none, some, [], ◌∷◌, arith, leb,
  if◌then◌else◌, Option-cases, fstring,
}
use asante_secure_multi_agen.Prelude.Exec.{Exc, value_error, Result, ok, err}
use asante_secure_multi_agen.Floats.{Floats}
use asante_secure_multi_agen.Reliability.Retry.{RetryPolicy, make_policy}

pub record McpReliabilityConfig (N : Type 0) : Type 0 where
  pub timeout_seconds : N
  pub max_retry_attempts : ℕ

abbrev pub Environment : Type 0
Environment = String → Option String

-- Python's `int`, `float` and `str`. A number below 0 is out of every range here, so that `int`
-- gives `none` for it.
pub record Builtins (F : Floats) : Type 0 where
  pub int : String → Result (Option ℕ)
  pub float : String → Result F.Float
  pub str_int : ℕ → String
  pub str_float : F.Float → String

abbrev pub bind {ℓ} : {A B : Type ℓ} → Result A → (A → Result B) → Result B
bind (ok a) f = f a
bind (err e) f = err e

abbrev pub or_default {ℓ} : {A : Type ℓ} → (String → Result A) → A → Option String → Result A
or_default parse default none = ok default
or_default parse default (some raw) = parse raw

abbrev pub out_of_range : String → String → String → Exc
out_of_range name minimum maximum =
    value_error (fstring (name ∷ " must be between " ∷ minimum ∷ " and " ∷ maximum ∷ []))

module _ (F : Floats) (py : Builtins F) (getenv : Environment) where
  open F use {Float, lef, whole}
  open py use {int, float, str_int, str_float}

  abbrev pub int_in_range : String → ℕ → ℕ → Option ℕ → Result ℕ
  int_in_range name minimum maximum none =
      err (out_of_range name (str_int minimum) (str_int maximum))
  int_in_range name minimum maximum (some n) =
      if leb minimum n && leb n maximum
      then ok n
      else err (out_of_range name (str_int minimum) (str_int maximum))

  -- `_int_env`
  unfoldable pub int_env : String → ℕ → ℕ → ℕ → Result ℕ
  int_env name default minimum maximum =
      bind (or_default int (some default) (getenv name)) (int_in_range name minimum maximum)

  abbrev pub float_in_range : String → Float → Float → Float → Result Float
  float_in_range name minimum maximum x =
      if lef minimum x && lef x maximum
      then ok x
      else err (out_of_range name (str_float minimum) (str_float maximum))

  -- `_float_env`
  unfoldable pub float_env : String → Float → Float → Float → Result Float
  float_env name default minimum maximum =
      bind (or_default float default (getenv name)) (float_in_range name minimum maximum)

  -- The defaults 0.05 and 0.2 are arguments, being no whole numbers.
  unfoldable pub credit_retry_policy_from_env : Float → Float → Result (RetryPolicy Float)
  unfolding int_env float_env
  credit_retry_policy_from_env default_backoff default_max_backoff =
      bind (int_env "ASANTE_CREDIT_MAX_ATTEMPTS" 2 1 4) λ attempts.
        bind (float_env "ASANTE_CREDIT_RETRY_BACKOFF_SECONDS" default_backoff (whole 0) (whole 2))
          λ initial.
            bind
              (float_env "ASANTE_CREDIT_RETRY_MAX_BACKOFF_SECONDS" default_max_backoff (whole 0)
                (whole 5))
              λ maximum. make_policy F attempts initial maximum

  unfoldable pub mcp_reliability_config_from_env : Result (McpReliabilityConfig Float)
  unfolding int_env float_env
  mcp_reliability_config_from_env =
      bind (float_env "ASANTE_MCP_TIMEOUT_SECONDS" (whole 10) (whole 1) (whole 60)) λ timeout.
        bind (int_env "ASANTE_MCP_MAX_RETRIES" 1 0 3)
          λ retries. ok (record { timeout_seconds = timeout; max_retry_attempts = retries })

  -- Whatever the environment holds, a retry policy that is read from it makes one to four
  -- attempts, and has both backoffs within their ranges.
  pub credit_retry_policy_bounds :
      (default_backoff default_max_backoff : Float) (policy : RetryPolicy Float)
      → credit_retry_policy_from_env default_backoff default_max_backoff ≡ ok policy
      → (1 ≤ policy.max_attempts)
        × (policy.max_attempts ≤ 4)
        × (lef (whole 0) policy.initial_backoff_seconds ≡ true)
        × (lef policy.initial_backoff_seconds (whole 2) ≡ true)
        × (lef (whole 0) policy.max_backoff_seconds ≡ true)
        × (lef policy.max_backoff_seconds (whole 5) ≡ true)
  unfolding credit_retry_policy_from_env make_policy
  credit_retry_policy_bounds d m policy h = ground arith

  -- A whole number that a setting gives is in its range; it is the default if the environment does
  -- not have the setting, and else the number that the setting's text names.
  pub int_env_lem :
      (name : String) (default minimum maximum n : ℕ)
      → int_env name default minimum maximum ≡ ok n
      → (minimum ≤ n)
        × (n ≤ maximum)
        × (((getenv name ≡ none) × (n ≡ default))
            ⊎ ((raw : String) × (getenv name ≡ some raw) × (int raw ≡ ok (some n))))
  unfolding int_env
  int_env_lem name default minimum maximum n h = elim (Option-cases (getenv name)) [
    | inl e ↦ ground (arith, e)
    | inr (raw, e) ↦ ground (arith, e)
  ]
