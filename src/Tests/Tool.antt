-- ===== src/Tests/Tool.antt =====
-- The fence and the tools at concrete calls.
use asante_secure_multi_agen.Tools.Keys.{maintenance_key-shared}
use asante_secure_multi_agen.Tools.Idempotence.{Replays}
use asante_secure_multi_agen.Prelude.{ℕ, ◌≡◌, refl, [], ◌∷◌}
use asante_secure_multi_agen.Prelude.Exec.{Action, pure}
use asante_secure_multi_agen.Tools.Fence.{gated-Fenced, Fenced}
use asante_secure_multi_agen.Tools.Safety.Operations.{maintenance_key}
use asante_secure_multi_agen.Tools.Safety.Approved.{execute_approved-OnlyIfAdmitted, ExecutedOnce}
use asante_secure_multi_agen.Approvals.Store.{ApprovalRecord, from_row}
use asante_secure_multi_agen.Tools.Reservation.{ReadTimes}
use asante_secure_multi_agen.Ruhusa.{Authorization, Invocation}
use asante_secure_multi_agen.World.{World}
use asante_secure_multi_agen.Tests.Data.{
  no_log, library, stay, agreed, hotel, opening, dollars, draw, texts,
}
use asante_secure_multi_agen.Tools.ApprovedCredit.{execute_approved}
use asante_secure_multi_agen.Values.{Fields, text}
use asante_secure_multi_agen.Tools.Gate.{gated}
use asante_secure_multi_agen.Tools.Providers.{issue, create_work_order}
use asante_secure_multi_agen.Metrics.{record_cache_denied_before_lookup}

abbrev pay : Invocation ℕ
pay = record {
  invoking_principal_id = "a";
  executing_principal_id = "b";
  principal_type = "agent";
  task = stay;
  action = "guest.credit.issue";
  resource = "reservation:R-3001";
  arguments = [];
  expires_at = 5;
  tool_id = "t";
  implementation_id = "i";
  delegation_chain = [];
}

abbrev answer : ℕ → Authorization → Action (World library) (Fields ℕ)
answer permit auth = pure (("status", text "issued") ∷ [])

gated-Fenced_example :
    Fenced library pay answer opening
      (gated library pay record_cache_denied_before_lookup (pure tt) answer opening)
gated-Fenced_example =
    gated-Fenced library pay record_cache_denied_before_lookup (pure tt) answer opening

abbrev times : ReadTimes
times = record { now = 5; looked_up = 1; stored = 2 }

abbrev with_agreed : World library
with_agreed = record opening { business = record opening.business { approvals = agreed ∷ [] } }

abbrev to_pay : ApprovalRecord ℕ
to_pay = from_row agreed

execute_approved-OnlyIfAdmitted_example :
    ExecutedOnce library hotel issue to_pay.status to_pay stay [] with_agreed
      (execute_approved library hotel issue to_pay stay [] 5 with_agreed)
execute_approved-OnlyIfAdmitted_example =
    execute_approved-OnlyIfAdmitted library hotel issue to_pay stay [] 5 with_agreed

maintenance_key-shared_example :
    (maintenance_key dollars library hotel texts draw "R-3001" "pipes\nhigh" "low" "leak" stay
      ≡ maintenance_key dollars library hotel texts draw "R-3001" "pipes" "high" "low\nleak" stay)
    × Replays
        (maintenance_key dollars library hotel texts draw "R-3001" "pipes\nhigh" "low" "leak" stay)
        (create_work_order "0123456789" 5 "R-3001" "pipes\nhigh" "low" "leak"
          (maintenance_key dollars library hotel texts draw "R-3001" "pipes\nhigh" "low" "leak"
            stay)
          no_log).1
        (create_work_order "9876543210" 6 "R-3001" "pipes" "high" "low\nleak"
          (maintenance_key dollars library hotel texts draw "R-3001" "pipes" "high" "low\nleak"
            stay)
          (create_work_order "0123456789" 5 "R-3001" "pipes\nhigh" "low" "leak"
            (maintenance_key dollars library hotel texts draw "R-3001" "pipes\nhigh" "low" "leak"
              stay)
            no_log).1)
maintenance_key-shared_example =
    maintenance_key-shared dollars library hotel texts draw stay "R-3001" "pipes" "leak"
      "0123456789" "9876543210" 5 6 no_log refl refl refl refl
