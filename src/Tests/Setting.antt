-- ===== src/Tests/Setting.antt =====
-- The retry loop, the cache, the policy, the stores and the settings at concrete inputs.
use asante_secure_multi_agen.Prelude.{
  ℕ, ◌+◌, ◌≤◌, ◌<◌, String, ◌≡◌, refl, ◌⊎◌, true, false, none, some, [], ◌∷◌, arith, ◌==◌, ltb, leb,
  if◌then◌else◌, is_some,
}
use asante_secure_multi_agen.Prelude.Exec.{
  value_error, transient_credit_provider_error, ok, err, Action,
}
use asante_secure_multi_agen.Reliability.Attempts.{execute_with_bounded_retry-Attempts, Attempts}
use asante_secure_multi_agen.Reliability.Config.{
  credit_retry_policy_bounds, Builtins, Environment, credit_retry_policy_from_env, int_env,
  float_env,
}
use asante_secure_multi_agen.Cache.View.{get_entry-view, put_entry-view, view}
use asante_secure_multi_agen.Security.Policy.{
  credit_bands, credit_at_most, credit_request_between, verified_approved_credit,
}
use asante_secure_multi_agen.Tools.Idempotence.{second_call-Replays, Replays}
use asante_secure_multi_agen.Cache.Store.{InMemoryCacheStore, get_entry, put_entry}
use asante_secure_multi_agen.Reliability.Retry.{
  RetryPolicy, make_policy, execute_with_bounded_retry,
}
use asante_secure_multi_agen.Values.{Fields, num}
use asante_secure_multi_agen.Tools.Providers.{create_work_order, send_message, issue}
use asante_secure_multi_agen.Tests.Data.{dollars, no_log, two_tries, dollars-IsOrdered}

-- Fails with a transient error at its first call.
abbrev flaky : Action ℕ ℕ
flaky s = (if leb s 0 then err (transient_credit_provider_error "busy") else ok s, s + 1)

abbrev no_wait : ℕ → Action ℕ Unit
no_wait n s = (ok tt, s)

execute_with_bounded_retry-Attempts_example :
    (calls : ℕ) × Attempts dollars flaky two_tries no_wait no_wait 1 calls 0
      (execute_with_bounded_retry dollars flaky two_tries no_wait no_wait 0)
    × (calls ≤ 2)
execute_with_bounded_retry-Attempts_example =
    execute_with_bounded_retry-Attempts dollars flaky two_tries no_wait no_wait 0 (omega arith)

abbrev cached : InMemoryCacheStore ℕ
cached = record {
  entries = ("k", record { value = 7; created_at = 0; expires_at = 10 }) ∷ [];
  get_calls = 0;
}

get_entry-view_example :
    ((get_entry "k" 5 cached).0.value ≡ view cached 5 "k")
    × ((get_entry "k" 5 cached).0.hit ≡ is_some (view cached 5 "k"))
    × ((get_entry "k" 5 cached).1.get_calls ≡ 0 + 1)
    × ((later : ℕ) (j : String)
        → 5 ≤ later
        → view (get_entry "k" 5 cached).1 later j ≡ view cached later j)
get_entry-view_example = get_entry-view cached "k" 5

abbrev thirty : ℕ
thirty = 30

put_entry-view_example :
    ((thirty ≡ 0)
      × ((put_entry "j" 8 30 5 cached).0
          ≡ err (value_error "ttl_seconds must be greater than zero"))
      × ((put_entry "j" 8 30 5 cached).1 ≡ cached))
    ⊎ ((0 < 30)
        × ((put_entry "j" 8 30 5 cached).0 ≡ ok tt)
        × ((put_entry "j" 8 30 5 cached).1.get_calls ≡ 0)
        × ((later : ℕ) (j : String)
            → view (put_entry "j" 8 30 5 cached).1 later j ≡ (
                if "j" == j
                then (if leb (5 + 30) later then none else some 8)
                else view cached later j)))
put_entry-view_example = put_entry-view cached "j" 8 30 5

abbrev twenty : Fields ℕ
twenty = ("amount", num 20) ∷ []

credit_bands_example :
    (ltb 0 20 ≡ true
      → leb 20 25 ≡ true
      → (credit_at_most dollars 25 twenty ≡ true)
        × (credit_at_most dollars 100 twenty ≡ true)
        × (credit_request_between dollars 25 100 twenty ≡ false))
    × (ltb 25 20 ≡ true
        → leb 20 100 ≡ true
        → (credit_at_most dollars 25 twenty ≡ false)
          × (credit_at_most dollars 100 twenty ≡ true)
          × (credit_request_between dollars 25 100 twenty ≡ true))
    × (ltb 100 20 ≡ true
        → (credit_at_most dollars 25 twenty ≡ false)
          × (credit_at_most dollars 100 twenty ≡ false)
          × (credit_request_between dollars 25 100 twenty ≡ false)
          × (verified_approved_credit dollars 100 twenty ≡ false))
    × (ltb 0 20 ≡ false
        → (credit_at_most dollars 25 twenty ≡ false)
          × (credit_at_most dollars 100 twenty ≡ false)
          × (credit_request_between dollars 25 100 twenty ≡ false)
          × (verified_approved_credit dollars 100 twenty ≡ false))
credit_bands_example = credit_bands dollars dollars-IsOrdered twenty 20 refl

second_call-Replays_example :
    ((hex hex' : String) (now now' : ℕ) (id id' cat cat' urg urg' desc desc' : String)
      → Replays "k" (create_work_order hex now id cat urg desc "k" no_log).1 (
          create_work_order hex' now' id' cat' urg' desc' "k"
            (create_work_order hex now id cat urg desc "k" no_log).1))
    × ((hex hex' : String) (now now' : ℕ) (id id' said said' : String)
        → Replays "k"
            (send_message hex now id said "k" no_log).1
            (send_message hex' now' id' said' "k" (send_message hex now id said "k" no_log).1))
    × ((id id' : String) (amount amount' : ℕ) (reason reason' : String)
        → Replays "k"
            (issue id amount reason (some "k") no_log).1
            (issue id' amount' reason' (some "k") (issue id amount reason (some "k") no_log).1))
second_call-Replays_example = second_call-Replays "k" no_log

abbrev python : Builtins dollars
python = record {
  int = λ s. ok (some 3);
  float = λ s. ok 1;
  str_int = λ n. "n";
  str_float = λ n. "n";
}

-- An environment with every setting.
abbrev full : Environment
full s = some "3"

abbrev from_full : RetryPolicy ℕ
from_full = record { max_attempts = 3; initial_backoff_seconds = 1; max_backoff_seconds = 1 }

credit_retry_policy_bounds_example :
    (1 ≤ 3) × (3 ≤ 4) × (leb 0 1 ≡ true) × (leb 1 2 ≡ true) × (leb 0 1 ≡ true) × (leb 1 5 ≡ true)
unfolding credit_retry_policy_from_env int_env float_env make_policy
credit_retry_policy_bounds_example =
    credit_retry_policy_bounds dollars python full 0 0 from_full refl
