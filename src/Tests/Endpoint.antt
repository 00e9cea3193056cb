-- ===== src/Tests/Endpoint.antt =====
-- The MCP endpoint, the registry, the delegations and the policy at concrete calls.
use asante_secure_multi_agen.Prelude.{
  ℕ, String, ◌≡◌, ◌≢◌, ◌⊎◌, Bool, true, false, List, [], ◌∷◌, ◌==◌, ltb, leb, if◌then◌else◌,
  fstring, All,
}
use asante_secure_multi_agen.Prelude.Exec.{
  value_error, trusted_task_not_found_error, Exc, Result, ok, err,
}
use asante_secure_multi_agen.Mcp.Registry.{
  register-require, unregister-require, NoConflict, AsanteRunContext, Registry, require, register,
  unregister, contains,
}
use asante_secure_multi_agen.Mcp.Calls.{
  call_issue_guest_credit-Trusted, call_get_reservation-Trusted,
  call_create_maintenance_request-Trusted, call_send_guest_message-Trusted,
  call_request_guest_credit-Trusted, Uses,
}
use asante_secure_multi_agen.Security.Chains.{
  issue_service_recovery_delegation-IsChain, IsBounded, IsChain,
}
use asante_secure_multi_agen.Security.Policy.{policy_rules}
use asante_secure_multi_agen.Security.Paying.{policy_rules-MayPay, MayPay, pays, holds}
use asante_secure_multi_agen.Security.Executor.{
  issue_approval_executor_delegation-IsExecutorGrant, IsExecutorGrant,
}
use asante_secure_multi_agen.Mcp.Server.{
  App, call_get_reservation, call_issue_guest_credit, call_request_guest_credit,
  call_create_maintenance_request, call_send_guest_message,
}
use asante_secure_multi_agen.Mcp.Boundary.{Trusted}
use asante_secure_multi_agen.Tools.Reservation.{ReadTimes}
use asante_secure_multi_agen.Values.{Fields, Value, text, num, flag}
use asante_secure_multi_agen.Ruhusa.{DelegationGrant}
use asante_secure_multi_agen.Security.Delegation.{
  GrantDraw, issue_approval_executor_delegation, issue_service_recovery_delegation,
}
use asante_secure_multi_agen.Tests.Data.{
  dollars, stay, library, hotel, texts, opening, draw, two_tries,
}
use asante_secure_multi_agen.Identity.Workload.{
  reservations_workload, service_recovery_workload, guest_support_workload,
  property_operations_workload, approval_executor_workload, require_workload,
}
use asante_secure_multi_agen.Tools.Providers.{create_work_order, send_message, issue, operation_key}
use asante_secure_multi_agen.Approvals.Requests.{create_credit_request}
use asante_secure_multi_agen.Tools.Safety.Credit.{OnlyLedger}
use asante_secure_multi_agen.Tools.Safety.Reservation.{OnlyReads}
use asante_secure_multi_agen.Tools.Operations.{credit_request_of}
use asante_secure_multi_agen.Tools.Safety.Operations.{maintenance_key}

abbrev run : AsanteRunContext ℕ
run = record {
  task = stay;
  reservations_delegation = [];
  property_operations_delegation = [];
  guest_support_message_delegation = [];
  service_recovery_delegation = [];
  service_recovery_credit_request_delegation = [];
}

abbrev running : Registry ℕ
running = ("task-1", run) ∷ []

abbrev str : Value ℕ → String
str v = "issued"

abbrev app : App dollars library hotel texts 30 str
app = record { task_registry = running; world = opening }

abbrev meta_of : String → Fields ℕ
meta_of workload = ("asante/task_id", text "task-1") ∷ ("asante/workload", text workload) ∷ []

call_issue_guest_credit-Trusted_example :
    Trusted dollars library hotel texts 30 str
      (meta_of "service-recovery")
      service_recovery_workload
      (Uses dollars library hotel texts 30 str service_recovery_workload "guest.credit.issue"
        (λ c. c.service_recovery_delegation)
        "R-3001"
        (("amount", num 20) ∷ ("reason", text "noise") ∷ []))
      (λ c. OnlyLedger dollars library hotel texts.sha256)
      app
      (call_issue_guest_credit dollars library hotel texts 30 str issue two_tries 5 "R-3001" 20
        "noise"
        (meta_of "service-recovery")
        app)
call_issue_guest_credit-Trusted_example =
    call_issue_guest_credit-Trusted dollars library hotel texts 30 str issue two_tries 5 "R-3001" 20
      "noise" (meta_of "service-recovery") app

abbrev times : ReadTimes
times = record { now = 5; looked_up = 1; stored = 2 }

call_get_reservation-Trusted_example :
    Trusted dollars library hotel texts 30 str
      (meta_of "reservations")
      reservations_workload
      (Uses dollars library hotel texts 30 str reservations_workload "reservation.read"
        (λ c. c.reservations_delegation)
        "R-3001"
        [])
      (λ c. OnlyReads library hotel texts.sha256 30)
      app
      (call_get_reservation dollars library hotel texts 30 str times "R-3001"
        (meta_of "reservations")
        app)
call_get_reservation-Trusted_example =
    call_get_reservation-Trusted dollars library hotel texts 30 str times "R-3001"
      (meta_of "reservations") app

call_create_maintenance_request-Trusted_example :
    Trusted dollars library hotel texts 30 str
      (meta_of "property-operations")
      property_operations_workload
      (Uses dollars library hotel texts 30 str property_operations_workload "maintenance.create"
        (λ c. c.property_operations_delegation)
        "R-3001"
        (("category", text "plumbing")
          ∷ ("urgency", text "high")
          ∷ ("description", text "leak")
          ∷ []))
      (λ c b b'. b' ≡ record b {
        maintenance =
            (create_work_order draw.uuid draw.now "R-3001" "plumbing" "high" "leak"
              (maintenance_key dollars library hotel texts draw "R-3001" "plumbing" "high" "leak"
                c.task)
              b.maintenance).1;
      })
      app
      (call_create_maintenance_request dollars library hotel texts 30 str draw "R-3001" "plumbing"
        "high" "leak"
        (meta_of "property-operations")
        app)
call_create_maintenance_request-Trusted_example =
    call_create_maintenance_request-Trusted dollars library hotel texts 30 str draw "R-3001"
      "plumbing" "high" "leak" (meta_of "property-operations") app

call_send_guest_message-Trusted_example :
    Trusted dollars library hotel texts 30 str
      (meta_of "guest-support")
      guest_support_workload
      (Uses dollars library hotel texts 30 str guest_support_workload "guest.message.send"
        (λ c. c.guest_support_message_delegation)
        "R-3001"
        (("message", text "ready") ∷ []))
      (λ c b b'. b' ≡ record b {
        messages =
            (send_message draw.uuid draw.now "R-3001" "ready"
              (operation_key texts.sha256 "guest.message.send" c.task.task_id "R-3001" "ready")
              b.messages).1;
      })
      app
      (call_send_guest_message dollars library hotel texts 30 str draw "R-3001" "ready"
        (meta_of "guest-support")
        app)
call_send_guest_message-Trusted_example =
    call_send_guest_message-Trusted dollars library hotel texts 30 str draw "R-3001" "ready"
      (meta_of "guest-support") app

call_request_guest_credit-Trusted_example :
    Trusted dollars library hotel texts 30 str
      (meta_of "service-recovery")
      service_recovery_workload
      (Uses dollars library hotel texts 30 str service_recovery_workload "guest.credit.request"
        (λ c. c.service_recovery_credit_request_delegation)
        "R-3001"
        (("amount", num 60) ∷ ("reason", text "noise") ∷ []))
      (λ c b b'. b' ≡ record b {
        approvals =
            (create_credit_request dollars
              (credit_request_of dollars "R-3001" 60 "noise" c.task)
              draw.uuid
              draw.now
              b.approvals).1;
      })
      app
      (call_request_guest_credit dollars library hotel texts 30 str draw "R-3001" 60 "noise"
        (meta_of "service-recovery")
        app)
call_request_guest_credit-Trusted_example =
    call_request_guest_credit-Trusted dollars library hotel texts 30 str draw "R-3001" 60 "noise"
      (meta_of "service-recovery") app

abbrev differ : AsanteRunContext ℕ → AsanteRunContext ℕ → Bool
differ a b = false

register-require_example :
    ((existing : AsanteRunContext ℕ) × (require running "task-1" ≡ ok existing)
      × (false ≡ false)
      × ((register differ run running).0
          ≡ err (value_error (fstring ("trusted task already registered: " ∷ "task-1" ∷ []))))
      × ((register differ run running).1 ≡ running))
    ⊎ (NoConflict differ run running
        × ((register differ run running).0 ≡ ok tt)
        × ((other : String)
            → require (register differ run running).1 other
              ≡ (if "task-1" == other then ok run else require running other)))
register-require_example = register-require differ run running

unregister-require_example :
    (require (unregister "task-1" running).1 "task-1"
      ≡ err (trusted_task_not_found_error "unknown or expired trusted task"))
    × (contains (unregister "task-1" running).1 "task-1" ≡ false)
    × ((other : String)
        → other ≢ "task-1"
        → require (unregister "task-1" running).1 other ≡ require running other)
unregister-require_example = unregister-require "task-1" running

abbrev grants : GrantDraw
grants = record { now = 5; root_hex = "r"; child_hex = "c" }

abbrev delegated : Result (DelegationGrant ℕ × DelegationGrant ℕ) × ℕ
delegated = issue_service_recovery_delegation dollars library hotel grants stay 100 25 0

issue_service_recovery_delegation-IsChain_example :
    (((ltb 100 25 ≡ true) ⊎ (leb 100 0 ≡ true) ⊎ (leb 25 0 ≡ true))
      × ((problem : String) × (delegated ≡ (err (value_error problem), 0))))
    ⊎ ((ltb 100 25 ≡ false)
        × (leb 100 0 ≡ false)
        × (leb 25 0 ≡ false)
        × IsChain dollars library hotel grants stay service_recovery_workload
            (λ root child.
              IsBounded "guest.credit.issue" 100 root × IsBounded "guest.credit.issue" 25 child)
            0
            delegated)
issue_service_recovery_delegation-IsChain_example =
    issue_service_recovery_delegation-IsChain dollars library hotel grants stay 100 25 0

abbrev executed : Result (List (DelegationGrant ℕ)) × ℕ
executed = issue_approval_executor_delegation dollars library hotel grants stay 100 0

issue_approval_executor_delegation-IsExecutorGrant_example :
    ((e : Exc) × (require_workload hotel approval_executor_workload ≡ err e)
      × (executed ≡ (err e, 0)))
    ⊎ ((leb 100 0 ≡ true) × ((problem : String) × (executed ≡ (err (value_error problem), 0))))
    ⊎ ((leb 100 0 ≡ false) × IsExecutorGrant dollars library hotel grants stay 100 0 executed)
issue_approval_executor_delegation-IsExecutorGrant_example =
    issue_approval_executor_delegation-IsExecutorGrant dollars library hotel grants stay 100 0

-- The arguments of a payment of 60 dollars on an approval.
abbrev payment : Fields ℕ
payment = ("approval_verified", flag true) ∷ ("approval_id", text "a-1") ∷ ("amount", num 60) ∷ []

policy_rules-MayPay_example :
    All
      (λ rule.
        pays dollars rule ≡ true
        → holds dollars rule.condition payment ≡ true
        → MayPay dollars "recovery" "executor" payment rule)
      (policy_rules dollars "reservations" "operations" "support" "recovery" "executor")
policy_rules-MayPay_example =
    policy_rules-MayPay dollars "reservations" "operations" "support" "recovery" "executor" payment
