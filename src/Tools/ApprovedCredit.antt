-- ===== src/Tools/ApprovedCredit.antt =====
-- tools/approved_credit.py: `ApprovedCreditExecutor`.
use asante_secure_multi_agen.Prelude.{
  ℕ, ◌+◌, String, Bool, true, false, Option, none, some, List, [], ◌∷◌, fstring,
}
use asante_secure_multi_agen.Prelude.Exec.{
  Exc, runtime_error, Action, pure, raise, lift, catch, ◌>>=◌, ◌>>◌,
}
use asante_secure_multi_agen.Values.{text, flag, num, Fields, opt_text, merge}
use asante_secure_multi_agen.Metrics.{record_credit_execution}
use asante_secure_multi_agen.Ruhusa.{
  Ruhusa, TaskContext, DelegationGrant, Invocation, Authorization, minutes, earlier,
}
use asante_secure_multi_agen.Identity.Workload.{
  Identities, require_workload, WorkloadIdentity, approval_executor_workload,
}
use asante_secure_multi_agen.Approvals.Table.{Status, approved, executed, status_text}
use asante_secure_multi_agen.Approvals.Store.{ApprovalRecord, mark_executed}
use asante_secure_multi_agen.World.{
  World, on_control, on_meter, on_business, on_ledger, on_approvals,
}
use asante_secure_multi_agen.Tools.Gate.{gated, blocked_result}
use asante_secure_multi_agen.Tools.Operations.{resource_of}
use asante_secure_multi_agen.Tools.Credit.{CreditProvider}

abbrev pub approved_credit_tool_id : String
approved_credit_tool_id = "asante.approved-credit"

abbrev pub approved_credit_tool_implementation : String
approved_credit_tool_implementation = "asante.approved-credit@0.9.0"

-- `d or {}`
abbrev pub or_empty : {N : Type 0} → Option (Fields N) → Fields N
or_empty none = []
or_empty (some d) = d

module _ {N : Type 0} (R : Ruhusa N) (ids : Identities) (provider : CreditProvider N) where
  open R use {Permit, allow, complete, mark_unknown}

  abbrev pub replay : ApprovalRecord N → Fields N
  replay approval = merge (or_empty approval.execution_result) (
      ("status", text "issued")
      ∷ ("approval_id", text approval.approval_id)
      ∷ ("deduplicated", flag true)
      ∷ [])

  abbrev pub approved_key : String → String
  approved_key approval_id = fstring ("approved-credit:" ∷ approval_id ∷ [])

  abbrev pub fail_approved : Permit → Exc → Action (World R) (Fields N)
  fail_approved permit e = do
    on_control R (mark_unknown permit)
    on_meter R (record_credit_execution "unknown")
    raise e

  abbrev pub finish_approved :
      ApprovalRecord N → ℕ → Authorization → Fields N → Bool → Action (World R) (Fields N)
  finish_approved approval now auth provider_result false =
      raise (runtime_error "approved credit executed but Ruhusa lifecycle did not complete")
  finish_approved approval now auth provider_result true = do
    let result = merge provider_result (
        ("approval_id", text approval.approval_id)
        ∷ ("effect", text allow)
        ∷ ("policy_id", opt_text auth.policy_id)
        ∷ [])
    on_business R (on_approvals (mark_executed approval.approval_id result now))
    on_meter R (record_credit_execution "issued")
    pure result

  unfoldable pub run_approved :
      ApprovalRecord N → ℕ → Permit → Authorization → Action (World R) (Fields N)
  unfolding record_credit_execution
  run_approved approval now permit auth = do
    provider_result ←
        catch
          (on_business R (
            on_ledger (
              provider approval.reservation_id approval.amount approval.reason
                (some (approved_key approval.approval_id)))))
          (fail_approved permit)
    completed ← on_control R (complete permit)
    finish_approved approval now auth provider_result completed

  abbrev pub approved_invocation :
      ApprovalRecord N
      → TaskContext
      → List (DelegationGrant N)
      → ℕ
      → WorkloadIdentity
      → Invocation N
  approved_invocation approval task chain now executor = record {
    invoking_principal_id = task.initiated_by;
    executing_principal_id = executor.principal_id;
    principal_type = "service";
    task = task;
    action = "guest.credit.issue.approved";
    resource = resource_of approval.reservation_id;
    arguments =
        ("amount", num approval.amount)
        ∷ ("reason", text approval.reason)
        ∷ ("approval_id", text approval.approval_id)
        ∷ ("approval_verified", flag true)
        ∷ [];
    expires_at = earlier task.expires_at (now + minutes 5);
    tool_id = approved_credit_tool_id;
    implementation_id = approved_credit_tool_implementation;
    delegation_chain = chain;
  }

  abbrev pub expected_approved : Status → String
  expected_approved s = fstring ("approval is " ∷ status_text s ∷ "; expected approved" ∷ [])

  abbrev pub execute_by_status :
      Status
      → ApprovalRecord N
      → TaskContext
      → List (DelegationGrant N)
      → ℕ
      → Action (World R) (Fields N)
  execute_by_status executed approval task chain now = pure (replay approval)
  execute_by_status approved approval task chain now = do
    executor ← lift (require_workload ids approval_executor_workload)
    gated R (approved_invocation approval task chain now executor)
        (λ _. record_credit_execution "blocked") (pure tt) (run_approved approval now)
  execute_by_status s approval task chain now = pure (blocked_result "deny" (expected_approved s))

  unfoldable pub execute_approved :
      ApprovalRecord N → TaskContext → List (DelegationGrant N) → ℕ → Action (World R) (Fields N)
  execute_approved approval = execute_by_status approval.status approval
