-- ===== src/Tools/Operations.antt =====
-- tools/guest_operations.py: `SecuredGuestOperationsTool`. `str.strip` and `str.lower` are
-- arguments, as are SHA-256, the drawn `uuid4` and the clock.
use asante_secure_multi_agen.Prelude.{
  ℕ, ◌+◌, String, Bool, true, false, not, ◌||◌, Option, some, List, [], ◌∷◌, ◌==◌, if◌then◌else◌,
  is_some, fstring,
}
use asante_secure_multi_agen.Prelude.Dict.{get}
use asante_secure_multi_agen.Prelude.Exec.{
  Exc, runtime_error, message, Action, pure, raise, lift, catch, ◌>>=◌, ◌>>◌,
}
use asante_secure_multi_agen.Floats.{Floats}
use asante_secure_multi_agen.Values.{Value, text, flag, num, Fields, opt_text, merge}
use asante_secure_multi_agen.Metrics.{record_operation_execution}
use asante_secure_multi_agen.Ruhusa.{
  Ruhusa, TaskContext, DelegationGrant, Invocation, Authorization, minutes, earlier,
}
use asante_secure_multi_agen.Identity.Workload.{
  Identities, require_workload, WorkloadIdentity, supervisor_workload, property_operations_workload,
  guest_support_workload, service_recovery_workload,
}
use asante_secure_multi_agen.Approvals.Table.{status_text}
use asante_secure_multi_agen.Approvals.Requests.{
  find_credit_request, create_credit_request, CreditRequest,
}
use asante_secure_multi_agen.World.{
  Business, World, on_control, on_meter, on_business, on_maintenance, on_messages, on_approvals,
}
use asante_secure_multi_agen.Tools.Providers.{operation_key, create_work_order, send_message}
use asante_secure_multi_agen.Tools.Gate.{blocked_result, gated}

-- Python's functions on text, and SHA-256 in hex.
pub record TextOps : Type 0 where
  pub strip : String → String
  pub lower : String → String
  pub sha256 : String → String

-- What a call draws from its surroundings: the time, and the text of a `uuid4`.
pub record Draw : Type 0 where
  pub now : ℕ
  pub uuid : String

abbrev pub guest_operations_tool_id : String
guest_operations_tool_id = "asante.guest-operations"

abbrev pub guest_operations_tool_implementation : String
guest_operations_tool_implementation = "asante.guest-operations@0.9.0"

-- `urgency in MAINTENANCE_URGENCIES`
abbrev pub is_urgency : String → Bool
is_urgency u = u == "low" || (u == "medium" || (u == "high" || u == "emergency"))

-- `str(result.get("status", "completed"))`; every operation has a text there.
abbrev pub status_or : {N : Type 0} → String → Option (Value N) → String
status_or default (some (text s)) = s
status_or default _ = default

abbrev pub resource_of : String → String
resource_of reservation_id = fstring ("reservation:" ∷ reservation_id ∷ [])

module _ (F : Floats) where
  open F use {Float}

  abbrev pub credit_request_of : String → Float → String → TaskContext → CreditRequest Float
  credit_request_of reservation_id amount reason task = record {
    task_id = task.task_id;
    requested_by = task.initiated_by;
    reservation_id = reservation_id;
    amount = amount;
    reason = reason;
    policy_id = some "service-recovery-credit-request";
  }

  -- The nested function `create_request`.
  unfoldable pub create_request :
      Draw → String → Float → String → TaskContext → Action (Business Float) (Fields Float)
  create_request draw reservation_id amount reason task = do
    existing ← on_approvals (find_credit_request F task.task_id reservation_id amount)
    r ← on_approvals (
        create_credit_request F (credit_request_of reservation_id amount reason task) draw.uuid
          draw.now)
    pure (
        ("status", text (fstring ("approval_" ∷ status_text r.status ∷ [])))
        ∷ ("approval_id", text r.approval_id)
        ∷ ("reservation_id", text reservation_id)
        ∷ ("amount", num amount)
        ∷ ("reason", text r.reason)
        ∷ ("deduplicated", flag (is_some existing))
        ∷ [])

module _ (F : Floats) (R : Ruhusa F.Float) (ids : Identities) (py : TextOps) where
  open F use {Float}
  open R use {Permit, allow, complete, mark_unknown}
  open py use {strip, lower, sha256}

  -- The end of `_execute`, once the operation has returned.
  abbrev pub finish_operation :
      String → Authorization → Fields Float → Bool → Action (World R) (Fields Float)
  finish_operation action auth result false = do
    on_meter R (record_operation_execution action "error")
    raise (runtime_error "operation executed but Ruhusa lifecycle did not complete")
  finish_operation action auth result true = do
    on_meter R (record_operation_execution action (status_or "completed" (get result "status")))
    pure (merge result (("effect", text allow) ∷ ("policy_id", opt_text auth.policy_id) ∷ []))

  -- `except Exception` around the operation.
  abbrev pub fail_operation : String → Permit → Exc → Action (World R) (Fields Float)
  fail_operation action permit e = do
    on_control R (mark_unknown permit)
    on_meter R (record_operation_execution action "unknown")
    raise e

  unfoldable pub run_operation :
      String
      → Action (Business Float) (Fields Float)
      → Permit
      → Authorization
      → Action (World R) (Fields Float)
  unfolding record_operation_execution
  run_operation action operation permit auth = do
    result ← catch (on_business R operation) (fail_operation action permit)
    completed ← on_control R (complete permit)
    finish_operation action auth result completed

  abbrev pub operation_invocation :
      String
      → String
      → Fields Float
      → TaskContext
      → List (DelegationGrant Float)
      → ℕ
      → WorkloadIdentity
      → WorkloadIdentity
      → Invocation Float
  operation_invocation action reservation_id arguments task chain now supervisor executing =
      record {
        invoking_principal_id = supervisor.principal_id;
        executing_principal_id = executing.principal_id;
        principal_type = "agent";
        task = task;
        action = action;
        resource = resource_of reservation_id;
        arguments = arguments;
        expires_at = earlier task.expires_at (now + minutes 5);
        tool_id = guest_operations_tool_id;
        implementation_id = guest_operations_tool_implementation;
        delegation_chain = chain;
      }

  -- `_execute`
  unfoldable pub execute_operation :
      String
      → String
      → String
      → Fields Float
      → TaskContext
      → List (DelegationGrant Float)
      → ℕ
      → Action (Business Float) (Fields Float)
      → Action (World R) (Fields Float)
  execute_operation action workload reservation_id arguments task chain now operation = do
    supervisor ← lift (require_workload ids supervisor_workload)
    executing ← lift (require_workload ids workload)
    gated R
        (operation_invocation action reservation_id arguments task chain now supervisor executing)
        (λ _. record_operation_execution action "blocked")
        (record_operation_execution action "error") (run_operation action operation)

  unfoldable pub create_maintenance_request :
      Draw
      → String
      → String
      → String
      → String
      → TaskContext
      → List (DelegationGrant Float)
      → Action (World R) (Fields Float)
  create_maintenance_request draw reservation_id category urgency description task chain =
      let normalized = lower (strip urgency) in
      let payload = fstring (strip category ∷ "\n" ∷ normalized ∷ "\n" ∷ strip description ∷ []) in
      let key = operation_key sha256 "maintenance.create" task.task_id reservation_id payload in
      if not (is_urgency normalized)
      then pure
          (blocked_result "deny" (fstring ("unsupported maintenance urgency: " ∷ urgency ∷ [])))
      else execute_operation "maintenance.create" property_operations_workload reservation_id
          (("category", text category)
            ∷ ("urgency", text normalized)
            ∷ ("description", text description)
            ∷ [])
          task chain draw.now
          (on_maintenance (
            create_work_order draw.uuid draw.now reservation_id category normalized description
              key))

  unfoldable pub send_guest_message :
      Draw
      → String
      → String
      → TaskContext
      → List (DelegationGrant Float)
      → Action (World R) (Fields Float)
  send_guest_message draw reservation_id message task chain =
      let key =
        operation_key sha256 "guest.message.send" task.task_id reservation_id (strip message) in
      if strip message == ""
      then pure (blocked_result "deny" "message is empty")
      else execute_operation "guest.message.send" guest_support_workload reservation_id
          (("message", text message) ∷ []) task chain draw.now
          (on_messages (send_message draw.uuid draw.now reservation_id message key))

  unfoldable pub request_guest_credit :
      Draw
      → String
      → Float
      → String
      → TaskContext
      → List (DelegationGrant Float)
      → Action (World R) (Fields Float)
  request_guest_credit draw reservation_id amount reason task chain =
      execute_operation "guest.credit.request" service_recovery_workload reservation_id
        (("amount", num amount) ∷ ("reason", text reason) ∷ []) task chain draw.now
        (create_request F draw reservation_id amount reason task)
