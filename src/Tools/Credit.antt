-- ===== src/Tools/Credit.antt =====
-- tools/guest_credit.py: `SecuredGuestCreditTool`. The credit provider (the protocol
-- `CreditProvider`) is any action on the ledger, which may raise; `time.sleep` changes no state.
use asante_secure_multi_agen.Prelude.{
  ℕ, ◌+◌, String, Bool, true, false, Option, some, List, [], ◌∷◌,
}
use asante_secure_multi_agen.Prelude.Dict.{get}
use asante_secure_multi_agen.Prelude.Exec.{
  Exc, runtime_error, Action, pure, raise, lift, catch, ◌>>=◌, ◌>>◌,
}
use asante_secure_multi_agen.Floats.{Floats}
use asante_secure_multi_agen.Values.{Value, text, flag, num, Fields, opt_text, merge}
use asante_secure_multi_agen.Metrics.{
  record_credit_execution, record_credit_retry, record_credit_deduplication,
}
use asante_secure_multi_agen.Ruhusa.{
  Ruhusa, TaskContext, DelegationGrant, Invocation, Authorization, minutes, earlier,
}
use asante_secure_multi_agen.Identity.Workload.{
  Identities, require_workload, WorkloadIdentity, supervisor_workload, service_recovery_workload,
}
use asante_secure_multi_agen.Reliability.Retry.{
  RetryPolicy, build_credit_idempotency_key, execute_with_bounded_retry,
}
use asante_secure_multi_agen.World.{World, on_control, on_meter, on_business, on_ledger}
use asante_secure_multi_agen.Tools.Providers.{KeyedLog}
use asante_secure_multi_agen.Tools.Gate.{gated}
use asante_secure_multi_agen.Tools.Operations.{resource_of}

abbrev pub credit_tool_id : String
credit_tool_id = "asante.guest-credit"

abbrev pub credit_tool_implementation : String
credit_tool_implementation = "asante.guest-credit@0.9.0"

-- `CreditProvider.issue`: reservation, amount, reason and idempotency key.
abbrev pub CreditProvider : Type 0 → Type 0
CreditProvider N = String → N → String → Option String → Action (KeyedLog N) (Fields N)

-- `bool(result.get("deduplicated", False))`; a provider has a Boolean there.
abbrev pub is_set : {N : Type 0} → Option (Value N) → Bool
is_set (some (flag b)) = b
is_set _ = false

module _ (F : Floats) (R : Ruhusa F.Float) (ids : Identities) (sha256 : String → String) where
  open F use {Float}
  open R use {Permit, allow, complete, mark_unknown}

  abbrev pub record_outcome : Bool → Action (World R) Unit
  record_outcome true = do
    on_meter R record_credit_deduplication
    on_meter R (record_credit_execution "deduplicated")
  record_outcome false = on_meter R (record_credit_execution "issued")

  abbrev pub finish_credit : Authorization → Fields Float → Bool → Action (World R) (Fields Float)
  finish_credit auth result false = do
    on_meter R (record_credit_execution "error")
    raise (runtime_error "credit executed but Ruhusa could not complete execution lifecycle")
  finish_credit auth result true = do
    record_outcome (is_set (get result "deduplicated"))
    pure (merge result (("effect", text allow) ∷ ("policy_id", opt_text auth.policy_id) ∷ []))

  abbrev pub fail_credit : Permit → Exc → Action (World R) (Fields Float)
  fail_credit permit e = do
    on_control R (mark_unknown permit)
    on_meter R (record_credit_execution "unknown")
    raise e

  -- The provider write, retried within the policy.
  unfoldable pub write_credit :
      CreditProvider Float
      → RetryPolicy Float
      → String
      → Float
      → String
      → String
      → Action (World R) (Fields Float)
  unfolding record_credit_retry
  write_credit provider policy reservation_id amount reason key =
      execute_with_bounded_retry F
        (on_business R (on_ledger (provider reservation_id amount reason (some key)))) policy
        (λ attempt. on_meter R (record_credit_retry attempt)) (λ _. pure tt)

  unfoldable pub run_credit :
      CreditProvider Float
      → RetryPolicy Float
      → String
      → Float
      → String
      → TaskContext
      → Permit
      → Authorization
      → Action (World R) (Fields Float)
  unfolding record_credit_execution record_credit_deduplication
  run_credit provider policy reservation_id amount reason task permit auth = do
    let key = build_credit_idempotency_key F sha256 task.task_id reservation_id amount
    result ←
        catch (write_credit provider policy reservation_id amount reason key) (fail_credit permit)
    completed ← on_control R (complete permit)
    finish_credit auth result completed

  abbrev pub credit_invocation :
      String
      → Float
      → String
      → TaskContext
      → List (DelegationGrant Float)
      → ℕ
      → WorkloadIdentity
      → WorkloadIdentity
      → Invocation Float
  credit_invocation reservation_id amount reason task chain now supervisor executing = record {
    invoking_principal_id = supervisor.principal_id;
    executing_principal_id = executing.principal_id;
    principal_type = "agent";
    task = task;
    action = "guest.credit.issue";
    resource = resource_of reservation_id;
    arguments = ("amount", num amount) ∷ ("reason", text reason) ∷ [];
    expires_at = earlier task.expires_at (now + minutes 5);
    tool_id = credit_tool_id;
    implementation_id = credit_tool_implementation;
    delegation_chain = chain;
  }

  unfoldable pub issue_credit :
      CreditProvider Float
      → RetryPolicy Float
      → ℕ
      → String
      → Float
      → String
      → TaskContext
      → List (DelegationGrant Float)
      → Action (World R) (Fields Float)
  issue_credit provider policy now reservation_id amount reason task chain = do
    supervisor ← lift (require_workload ids supervisor_workload)
    executing ← lift (require_workload ids service_recovery_workload)
    gated R (credit_invocation reservation_id amount reason task chain now supervisor executing)
        (λ _. record_credit_execution "blocked") (record_credit_execution "error")
        (run_credit provider policy reservation_id amount reason task)
