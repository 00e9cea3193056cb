-- ===== src/Security/Delegation.antt =====
-- security/delegation.py: the grants of an agent run. The clock and the hex of each `uuid4` are
-- arguments; the grant store belongs to the authorization library. The spans are not modelled.
use asante_secure_multi_agen.Prelude.{ℕ, ◌+◌, String, List, [], ◌∷◌, if◌then◌else◌, fstring}
use asante_secure_multi_agen.Prelude.Exec.{
  value_error, Result, ok, err, Action, pure, lift, ◌>>=◌, ◌>>◌, raise_if,
}
use asante_secure_multi_agen.Ruhusa.{minutes, earlier, Ruhusa, Scope, TaskContext, DelegationGrant}
use asante_secure_multi_agen.Floats.{Floats}
use asante_secure_multi_agen.Identity.Workload.{
  Identities, guest_support_workload, property_operations_workload, require_workload,
  reservations_workload, service_recovery_workload, approval_executor_workload, supervisor_workload,
}

abbrev pub guest_credit_action : String
guest_credit_action = "guest.credit.issue"

abbrev pub reservation_read_action : String
reservation_read_action = "reservation.read"

abbrev pub maintenance_create_action : String
maintenance_create_action = "maintenance.create"

abbrev pub guest_message_send_action : String
guest_message_send_action = "guest.message.send"

abbrev pub guest_credit_request_action : String
guest_credit_request_action = "guest.credit.request"

abbrev pub approved_credit_action : String
approved_credit_action = "guest.credit.issue.approved"

abbrev pub reservation_resource_prefix : String
reservation_resource_prefix = "reservation:"

-- The time of the call, and the texts of its two draws of `uuid4`.
pub record GrantDraw : Type 0 where
  pub now : ℕ
  pub root_hex : String
  pub child_hex : String

module _ (F : Floats) where
  open F use {Float}

  -- The scope of one action, with no bound on the arguments.
  abbrev pub plain_scope : String → Scope Float
  plain_scope action = record {
    actions = action ∷ [];
    resource_prefixes = reservation_resource_prefix ∷ [];
    max_numeric_arguments = [];
  }

  -- The scope of one action, with a bound on the amount.
  abbrev pub amount_scope : String → Float → Scope Float
  amount_scope action limit = record {
    actions = action ∷ [];
    resource_prefixes = reservation_resource_prefix ∷ [];
    max_numeric_arguments = ("amount", limit) ∷ [];
  }

  abbrev pub limited_scope : String → String → Float → Result (Scope Float)
  limited_scope action problem limit =
      if F.lef limit (F.whole 0) then err (value_error problem) else ok (amount_scope action limit)

  abbrev pub credit_scope : Float → Result (Scope Float)
  credit_scope = limited_scope guest_credit_action "delegation limit must be greater than zero"

  abbrev pub reservation_read_scope : Scope Float
  reservation_read_scope = plain_scope reservation_read_action

  abbrev pub maintenance_scope : Scope Float
  maintenance_scope = plain_scope maintenance_create_action

  abbrev pub guest_message_scope : Scope Float
  guest_message_scope = plain_scope guest_message_send_action

  abbrev pub credit_request_scope : Float → Result (Scope Float)
  credit_request_scope =
      limited_scope guest_credit_request_action "approval request limit must be greater than zero"

  abbrev pub approved_credit_scope : Float → Result (Scope Float)
  approved_credit_scope =
      limited_scope approved_credit_action "approved credit limit must be greater than zero"

  abbrev pub make_grant :
      String → ℕ → ℕ → TaskContext → String → String → Scope Float → DelegationGrant Float
  make_grant hex now expires_at task grantor_id grantee_id scope = record {
    grant_id = fstring ("grant:" ∷ hex ∷ []);
    grantor_id = grantor_id;
    grantee_id = grantee_id;
    task_id = task.task_id;
    scope = scope;
    issued_at = now;
    expires_at = expires_at;
  }

  module _ (R : Ruhusa Float) (ids : Identities) (draw : GrantDraw) (task : TaskContext) where
    open R use {Control, register_grant}

    unfoldable pub issue_chain :
        String
        → Scope Float
        → Scope Float
        → Action Control (DelegationGrant Float × DelegationGrant Float)
    issue_chain child_workload root_scope child_scope = do
      supervisor ← lift (require_workload ids supervisor_workload)
      child ← lift (require_workload ids child_workload)
      let expires_at = earlier task.expires_at (draw.now + minutes 30)
      let root_grant =
          make_grant draw.root_hex draw.now expires_at task task.initiated_by
            supervisor.principal_id root_scope
      let child_grant =
          make_grant draw.child_hex draw.now expires_at task supervisor.principal_id
            child.principal_id child_scope
      register_grant root_grant
      register_grant child_grant
      pure (root_grant, child_grant)

    unfoldable pub issue_reservations_delegation :
        Action Control (DelegationGrant Float × DelegationGrant Float)
    issue_reservations_delegation =
        issue_chain reservations_workload reservation_read_scope reservation_read_scope

    unfoldable pub issue_property_operations_delegation :
        Action Control (DelegationGrant Float × DelegationGrant Float)
    issue_property_operations_delegation =
        issue_chain property_operations_workload maintenance_scope maintenance_scope

    unfoldable pub issue_guest_support_message_delegation :
        Action Control (DelegationGrant Float × DelegationGrant Float)
    issue_guest_support_message_delegation =
        issue_chain guest_support_workload guest_message_scope guest_message_scope

    unfoldable pub issue_service_recovery_delegation :
        Float → Float → Action Control (DelegationGrant Float × DelegationGrant Float)
    issue_service_recovery_delegation supervisor_limit service_recovery_limit = do
      raise_if (F.ltf supervisor_limit service_recovery_limit)
          (value_error "service-recovery delegation cannot exceed supervisor authority")
      root_scope ← lift (credit_scope supervisor_limit)
      child_scope ← lift (credit_scope service_recovery_limit)
      issue_chain service_recovery_workload root_scope child_scope

    unfoldable pub issue_service_recovery_credit_request_delegation :
        Float → Action Control (DelegationGrant Float × DelegationGrant Float)
    issue_service_recovery_credit_request_delegation limit = do
      scope ← lift (credit_request_scope limit)
      issue_chain service_recovery_workload scope scope

    -- `issue_approval_executor_delegation`, which draws one `uuid4`.
    unfoldable pub issue_approval_executor_delegation :
        Float → Action Control (List (DelegationGrant Float))
    issue_approval_executor_delegation limit = do
      executor ← lift (require_workload ids approval_executor_workload)
      let expires_at = earlier task.expires_at (draw.now + minutes 10)
      scope ← lift (approved_credit_scope limit)
      let grant =
          make_grant draw.root_hex draw.now expires_at task task.initiated_by executor.principal_id
            scope
      register_grant grant
      pure (grant ∷ [])

    -- The names of before the specialists.
    unfoldable pub issue_guest_support_delegation :
        Float → Float → Action Control (DelegationGrant Float × DelegationGrant Float)
    issue_guest_support_delegation supervisor_limit guest_support_limit =
        issue_service_recovery_delegation supervisor_limit guest_support_limit

    unfoldable pub issue_guest_support_reservation_delegation :
        Action Control (DelegationGrant Float × DelegationGrant Float)
    issue_guest_support_reservation_delegation = issue_reservations_delegation

    unfoldable pub issue_guest_support_credit_request_delegation :
        Float → Action Control (DelegationGrant Float × DelegationGrant Float)
    issue_guest_support_credit_request_delegation limit =
        issue_service_recovery_credit_request_delegation limit

    unfoldable pub issue_guest_support_service_delegation :
        Action Control (DelegationGrant Float × DelegationGrant Float)
    issue_guest_support_service_delegation = issue_guest_support_message_delegation
