-- ===== src/Tests/Approval.antt =====
-- The approval store at concrete requests.
use asante_secure_multi_agen.Prelude.{
  ℕ, String, ◌≡◌, refl, true, not, Option, none, some, List, [], ◌∷◌,
}
use asante_secure_multi_agen.Prelude.Dict.{get}
use asante_secure_multi_agen.Prelude.Exec.{approval_state_error, ok, err}
use asante_secure_multi_agen.Approvals.History.{perform-Becomes}
use asante_secure_multi_agen.Approvals.Audit.{after-IsJustified, IsJustified}
use asante_secure_multi_agen.Approvals.Finality.{decide_final, mark_executed_once}
use asante_secure_multi_agen.Approvals.Once.{create_credit_request_once}
use asante_secure_multi_agen.Approvals.Requests.{
  create_credit_request, new_row, is_request, insert_credit_request, find_credit_request,
}
use asante_secure_multi_agen.Approvals.Commands.{
  Becomes, Command, decide_of, mark_executed_of, create_credit_request_of, perform, target, after,
}
use asante_secure_multi_agen.Values.{Fields, text}
use asante_secure_multi_agen.Approvals.Table.{Row, executed, select, order_asc, insert_asc, update}
use asante_secure_multi_agen.Approvals.Store.{
  ApprovalRecord, decide, mark_executed, from_row, expected,
}
use asante_secure_multi_agen.Tests.Data.{dollars, asked_id, sixty, agreed, asked}
use asante_secure_multi_agen.Approvals.Rows.{row_of}
use asante_secure_multi_agen.Approvals.Json.{dumps, read}

abbrev yes_ : Command ℕ
yes_ = decide_of asked_id true "manager" none 2

perform-Becomes_example :
    Becomes dollars yes_ asked_id
      (row_of asked_id (asked ∷ []))
      (row_of asked_id (perform dollars yes_ (asked ∷ [])).1)
perform-Becomes_example = perform-Becomes dollars yes_ asked_id (asked ∷ [])

-- A request that is asked for, approved and executed, the newest call first.
abbrev story : List (Command ℕ)
story =
    mark_executed_of "approval:7" [] 3
    ∷ decide_of "approval:7" true "manager" none 2
    ∷ create_credit_request_of sixty "7" 1
    ∷ []

abbrev ending : Row ℕ
ending = record agreed {
  approval_id = "approval:7";
  status = executed;
  executed_at = some 3;
  execution_result_json = some [];
}

after-IsJustified_example : IsJustified "approval:7" story ending executed
unfolding after perform create_credit_request decide mark_executed select new_row is_request
    order_asc insert_asc insert_credit_request find_credit_request update dumps
after-IsJustified_example = after-IsJustified dollars "approval:7" story ending refl

decide_final_example :
    (record' : ApprovalRecord ℕ) × ((decide asked_id true "manager" none 2 (asked ∷ [])).0
      ≡ ok record')
    × (record'.status ≡ target true)
    × (record'.decided_by ≡ some "manager")
    × ((by' : String) (memo' : Option String) (now' : ℕ)
        → (decide asked_id true by' memo' now'
              (decide asked_id true "manager" none 2 (asked ∷ [])).1
            ≡ (ok record', (decide asked_id true "manager" none 2 (asked ∷ [])).1))
          × (decide asked_id
                (not true)
                by'
                memo'
                now'
                (decide asked_id true "manager" none 2 (asked ∷ [])).1
              ≡ (
                err (approval_state_error (expected asked_id (target true) "pending")),
                (decide asked_id true "manager" none 2 (asked ∷ [])).1,
              )))
unfolding select
decide_final_example = decide_final asked_id true "manager" none 2 (asked ∷ []) asked refl refl

abbrev issued : Fields ℕ
issued = ("status", text "issued") ∷ []

mark_executed_once_example :
    (record' : ApprovalRecord ℕ) × (stored : Fields ℕ) × ((mark_executed asked_id issued 3
        (agreed ∷ [])).0
      ≡ ok record')
    × (record'.status ≡ executed)
    × (record'.execution_result ≡ some stored)
    × ((k : String) (path : List String) → read path (get stored k) ≡ read path (get issued k))
    × ((result' : Fields ℕ) (now' : ℕ)
        → mark_executed asked_id result' now' (mark_executed asked_id issued 3 (agreed ∷ [])).1
          ≡ (ok record', (mark_executed asked_id issued 3 (agreed ∷ [])).1))
unfolding select
mark_executed_once_example = mark_executed_once asked_id issued 3 (agreed ∷ []) agreed refl refl

create_credit_request_once_example :
    create_credit_request dollars sixty "8" 2 (create_credit_request dollars sixty "7" 1 []).1 ≡ (
      ok (from_row (new_row dollars sixty "7" 1)),
      (create_credit_request dollars sixty "7" 1 []).1,
    )
unfolding create_credit_request select new_row is_request order_asc insert_asc insert_credit_request
    find_credit_request
create_credit_request_once_example =
    create_credit_request_once dollars sixty sixty "7" "8" 1 2 []
      (from_row (new_row dollars sixty "7" 1)) (new_row dollars sixty "7" 1 ∷ []) refl
      (refl, refl, refl)
