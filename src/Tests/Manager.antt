-- ===== src/Tests/Manager.antt =====
-- A manager's decisions at concrete requests.
use asante_secure_multi_agen.Prelude.{ℕ, ◌≡◌, ◌⊎◌, true, false, none, some, [], ◌∷◌}
use asante_secure_multi_agen.Prelude.Dict.{put}
use asante_secure_multi_agen.Prelude.Exec.{http_exception, Result, ok, err}
use asante_secure_multi_agen.Api.Guards.{
  deny_credit_request_lem, approve_credit_request_lem, with_approvals,
}
use asante_secure_multi_agen.Api.Payment.{pay_approved-OnlyIfAdmitted, PaidBy}
use asante_secure_multi_agen.Approvals.Table.{pending, approved, denied, executed, update, Row}
use asante_secure_multi_agen.Approvals.Store.{decided, expected, from_row, to_dict}
use asante_secure_multi_agen.Api.Decisions.{
  ApproveDraw, may_approve, no_scope, approve_credit_request, deny_credit_request, pay_approved,
  decision_response,
}
use asante_secure_multi_agen.Identity.Human.{AuthenticatedHuman}
use asante_secure_multi_agen.Values.{Fields, flag}
use asante_secure_multi_agen.World.{World}
use asante_secure_multi_agen.Tests.Data.{dollars, library, hotel, opening, agreed, asked, asked_id}
use asante_secure_multi_agen.Approvals.Rows.{row_of}
use asante_secure_multi_agen.Tools.Providers.{issue}
use asante_secure_multi_agen.Tools.Safety.Approved.{OnlyCredits}
use asante_secure_multi_agen.Tools.ApprovedCredit.{or_empty}

abbrev manager : AuthenticatedHuman
manager = record {
  principal_id = "manager-1";
  subject = "m";
  issuer = "i";
  audiences = [];
  client_id = "c";
  scopes = "asante:approve" ∷ [];
}

abbrev waiting : World library
waiting = record opening { business = record opening.business { approvals = asked ∷ [] } }

abbrev denial : Result (Fields ℕ) × World library
denial = deny_credit_request dollars library hotel issue 2 asked_id none manager waiting

deny_credit_request_lem_example :
    (may_approve manager ≡ false → denial ≡ (err no_scope, waiting))
    × (may_approve manager ≡ true
        → (row_of asked_id (asked ∷ []) ≡ none
            → denial ≡ (err (http_exception 404 "unknown approval request: approval-1"), waiting))
          × ((row : Row ℕ)
              → row_of asked_id (asked ∷ []) ≡ some row
              → (row.status ≡ pending
                  → denial ≡ (
                    ok (to_dict (from_row (decided denied 2 "manager-1" none row))),
                    with_approvals dollars library hotel issue waiting
                        (update asked_id (decided denied 2 "manager-1" none) (asked ∷ [])),
                  ))
                × (row.status ≡ denied → denial ≡ (ok (to_dict (from_row row)), waiting))
                × (row.status ≡ approved
                    → denial
                      ≡ (err (http_exception 409 (expected asked_id approved "pending")), waiting))
                × (row.status ≡ executed
                    → denial ≡ (
                      err (http_exception 409 (expected asked_id executed "pending")),
                      waiting,
                    ))))
deny_credit_request_lem_example =
    deny_credit_request_lem dollars library hotel issue 2 asked_id none manager waiting

abbrev approving : ApproveDraw
approving = record {
  decided_at = 2;
  task_hex = "t";
  task_at = 3;
  grant = record { now = 3; root_hex = "g"; child_hex = "h" };
  executed_at = 4;
  trace_id = none;
}

abbrev approval_of : Result (Fields ℕ) × World library
approval_of =
    approve_credit_request dollars library hotel issue approving asked_id none manager waiting

approve_credit_request_lem_example :
    (may_approve manager ≡ false → approval_of ≡ (err no_scope, waiting))
    × (may_approve manager ≡ true
        → (row_of asked_id (asked ∷ []) ≡ none
            → approval_of
              ≡ (err (http_exception 404 "unknown approval request: approval-1"), waiting))
          × ((row : Row ℕ)
              → row_of asked_id (asked ∷ []) ≡ some row
              → (row.status ≡ pending
                  → approval_of
                    ≡ pay_approved dollars library hotel issue approving asked_id manager
                        (from_row (decided approved 2 "manager-1" none row))
                        (with_approvals dollars library hotel issue waiting
                          (update asked_id (decided approved 2 "manager-1" none) (asked ∷ []))))
                × (row.status ≡ approved
                    → approval_of
                      ≡ pay_approved dollars library hotel issue approving asked_id manager
                          (from_row row)
                          waiting)
                × (row.status ≡ denied
                    → approval_of
                      ≡ (err (http_exception 409 (expected asked_id denied "pending")), waiting))
                × (row.status ≡ executed
                    → approval_of ≡ (
                      ok (
                          decision_response dollars library hotel issue
                            (from_row row)
                            (put
                              (or_empty (from_row row).execution_result)
                              "deduplicated"
                              (flag true))
                            none),
                      waiting,
                    ))))
approve_credit_request_lem_example =
    approve_credit_request_lem dollars library hotel issue approving asked_id none manager waiting

abbrev deciding : World library
deciding = record opening { business = record opening.business { approvals = agreed ∷ [] } }

abbrev paid : Result (Fields ℕ) × World library
paid =
    pay_approved dollars library hotel issue approving asked_id manager (from_row agreed) deciding

pay_approved-OnlyIfAdmitted_example :
    (paid.1.business ≡ deciding.business)
    ⊎ (PaidBy dollars library hotel issue approving manager (from_row agreed)
        × OnlyCredits library hotel issue deciding.business paid.1.business)
pay_approved-OnlyIfAdmitted_example =
    pay_approved-OnlyIfAdmitted dollars library hotel issue approving asked_id manager
      (from_row agreed) deciding
