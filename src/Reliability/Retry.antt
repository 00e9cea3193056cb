-- ===== src/Reliability/Retry.antt =====
-- reliability/credit.py: the retry policy, the idempotency key and `execute_with_bounded_retry`.
use asante_secure_multi_agen.Prelude.{
  ℕ, zero, suc, ◌+◌, ◌-◌, ◌^◌, String, Bool, true, false, [], ◌∷◌, ltb, leb, if◌then◌else◌, fstring,
}
use asante_secure_multi_agen.Prelude.Exec.{
  Exc, value_error, assertion_error, transient_credit_provider_error, Result, ok, err, Action, pure,
  raise, catch, ◌>>◌,
}
use asante_secure_multi_agen.Floats.{Floats}

pub record RetryPolicy (N : Type 0) : Type 0 where
  pub max_attempts : ℕ
  pub initial_backoff_seconds : N
  pub max_backoff_seconds : N

-- What `except TransientCreditProviderError` catches.
abbrev pub is_transient : Exc → Bool
is_transient (transient_credit_provider_error _) = true
is_transient _ = false

module _ (F : Floats) where
  open F use {Float, ltf, whole, mul, format_2f}

  -- `RetryPolicy(...)` with its `__post_init__`
  unfoldable pub make_policy : ℕ → Float → Float → Result (RetryPolicy Float)
  make_policy max_attempts initial_backoff max_backoff =
      if ltb max_attempts 1
      then err (value_error "max_attempts must be at least 1")
      else if ltf initial_backoff (whole 0)
      then err (value_error "initial_backoff_seconds cannot be negative")
      else if ltf max_backoff (whole 0)
      then err (value_error "max_backoff_seconds cannot be negative")
      else ok (record {
        max_attempts = max_attempts;
        initial_backoff_seconds = initial_backoff;
        max_backoff_seconds = max_backoff;
      })

  unfoldable pub build_credit_idempotency_key : (String → String) → String → String → Float → String
  build_credit_idempotency_key sha256 task_id reservation_id amount = fstring (
      "credit:"
      ∷ sha256 (
          fstring (
            "guest.credit.issue\n"
            ∷ task_id
            ∷ "\n"
            ∷ reservation_id
            ∷ "\n"
            ∷ format_2f amount
            ∷ []))
      ∷ [])

  -- `min(initial * 2 ** (attempt - 1), max)`: Python's `min` keeps the first unless the second is
  -- less.
  unfoldable pub backoff : RetryPolicy Float → ℕ → Float
  backoff policy attempt =
      let delay = mul policy.initial_backoff_seconds (whole (2 ^ (attempt - 1))) in
      if ltf policy.max_backoff_seconds delay then policy.max_backoff_seconds else delay

  -- The loop, from `attempt` on with `left` rounds left. `on_retry` and `sleep` are actions on
  -- the state of the operation.
  module _ {S A : Type 0} (operation : Action S A) (policy : RetryPolicy Float)
      (on_retry : ℕ → Action S Unit) (sleep : Float → Action S Unit) where
    abbrev pub wait : Float → Action S Unit
    wait delay = if ltf (whole 0) delay then sleep delay else pure tt

    abbrev pub on_error : ℕ → Action S A → Exc → Action S A
    on_error attempt again e =
        if is_transient e
        then (if leb policy.max_attempts attempt
            then raise e
            else do on_retry attempt; wait (backoff policy attempt); again)
        else raise e

    unfoldable pub attempts_from : ℕ → ℕ → Action S A
    attempts_from zero attempt = raise (assertion_error "retry loop exited unexpectedly")
    attempts_from (suc left) attempt =
        let again = attempts_from left (attempt + 1) in catch operation (on_error attempt again)

    unfoldable pub execute_with_bounded_retry : Action S A
    unfolding attempts_from
    execute_with_bounded_retry = attempts_from policy.max_attempts 1
