-- ===== src/Tests/Release.antt =====
-- The release gate and the direct endpoints at concrete inputs.
use asante_secure_multi_agen.Values.{num, text}
use asante_secure_multi_agen.Prelude.{
  ℕ, ◌+◌, ◌≤◌, ◌<◌, ◌≡◌, ◌⊎◌, true, false, none, List, [], ◌∷◌, arith, leb, if◌then◌else◌, All,
}
use asante_secure_multi_agen.Floats.{float_limit}
use asante_secure_multi_agen.Identity.Human.{AuthenticatedHuman}
use asante_secure_multi_agen.Identity.Workload.{reservations_workload, service_recovery_workload}
use asante_secure_multi_agen.Evals.Report.{EvalResult, run_release_evals, main}
use asante_secure_multi_agen.Evals.Gate.{main_lem, IsClean}
use asante_secure_multi_agen.Api.Direct.{DirectDraw, dev_issue_credit, dev_get_reservation}
use asante_secure_multi_agen.Api.Operator.{direct_calls-OnlyForOperator, OnlyForOperator}
use asante_secure_multi_agen.Security.Delegation.{
  issue_reservations_delegation, issue_service_recovery_delegation,
}
use asante_secure_multi_agen.Tools.Providers.{issue}
use asante_secure_multi_agen.Tools.Reservation.{ReadTimes}
use asante_secure_multi_agen.Tools.Safety.Credit.{OnlyLedger}
use asante_secure_multi_agen.Tools.Safety.Reservation.{OnlyReads}
use asante_secure_multi_agen.Tests.Data.{
  dollars, dollars-IsOrdered, library, hotel, texts, opening, two_tries,
}

-- Whole division, as far as its comparison with 1 goes.
abbrev at_least : ℕ → ℕ → ℕ
at_least m n = if leb n m then 1 else 0

at_least-IsRatio : (m n : ℕ) → 0 < n → m ≤ n → n ≤ float_limit → leb 1 (at_least m n) ≡ leb n m
at_least-IsRatio m n h le few = ground arith

abbrev blocked : EvalResult
blocked = record {
  name = "policy_deny_has_no_side_effect";
  category = "normal";
  passed = true;
  critical = true;
  unauthorized_side_effect = false;
  unauthorized_disclosure = false;
  details = "";
}

abbrev results : List EvalResult
results = blocked ∷ []

abbrev zero_code : ℕ
zero_code = 0

main_lem_example :
    (main dollars at_least results ≡ 0 → (0 < 1) × All IsClean results)
    × ((0 < 1) × All IsClean results → main dollars at_least results ≡ 0)
    × ((main dollars at_least results ≡ 0) ⊎ (main dollars at_least results ≡ 1))
    × ((run_release_evals dollars at_least none results).passed_count
          + (run_release_evals dollars at_least none results).failed_count
        ≡ (run_release_evals dollars at_least none results).total)
    × ((run_release_evals dollars at_least none results).critical_failures
        ≤ (run_release_evals dollars at_least none results).failed_count)
main_lem_example =
    main_lem dollars at_least results dollars-IsOrdered at_least-IsRatio (omega arith)

abbrev direct_draw : DirectDraw
direct_draw = record {
  task_hex = "task-3";
  task_at = 5;
  grants = record { now = 5; root_hex = "r"; child_hex = "c" };
  trace_id = none;
}

abbrev clerk : AuthenticatedHuman
clerk = record {
  principal_id = "oauth:i#s";
  subject = "s";
  issuer = "i";
  audiences = "a" ∷ [];
  client_id = "c";
  scopes = [];
}

abbrev read_times : ReadTimes
read_times = record { now = 5; looked_up = 1; stored = 2 }

direct_calls-OnlyForOperator_example :
    OnlyForOperator dollars library hotel texts.sha256 30 service_recovery_workload
      "guest.credit.issue" "R-3001"
      (("amount", num 20) ∷ ("reason", text "noise") ∷ [])
      direct_draw
      "direct guest credit test"
      clerk
      (λ task.
        issue_service_recovery_delegation dollars library hotel direct_draw.grants task 100 25)
      (OnlyLedger dollars library hotel texts.sha256)
      opening
      (dev_issue_credit dollars library hotel texts.sha256 30 issue two_tries 5 direct_draw "R-3001"
        20 "noise" clerk opening).1.business
    × OnlyForOperator dollars library hotel texts.sha256 30 reservations_workload "reservation.read"
        "R-3001" [] direct_draw "direct reservation read test" clerk
        (λ task. issue_reservations_delegation dollars library hotel direct_draw.grants task)
        (OnlyReads library hotel texts.sha256 30)
        opening
        (dev_get_reservation dollars library hotel texts.sha256 30 read_times direct_draw "R-3001"
          clerk opening).1.business
direct_calls-OnlyForOperator_example =
    direct_calls-OnlyForOperator dollars library hotel texts.sha256 30 issue two_tries 5 read_times
      direct_draw "R-3001" 20 "noise" clerk opening
