-- ===== src/Api/Decisions.antt =====
-- main.py: `_require_approval_scope`, `approve_credit_request` and `deny_credit_request`, with the
-- authenticated human of identity/human.py. The clocks, the draws of `uuid4` and the trace id are
-- arguments.
use asante_secure_multi_agen.Prelude.{
  ℕ, ◌+◌, String, Bool, true, false, not, Option, [], ◌∷◌, if◌then◌else◌, member, fstring,
}
use asante_secure_multi_agen.Prelude.Dict.{put}
use asante_secure_multi_agen.Prelude.Exec.{
  Exc, lookup_error, trusted_task_not_found_error, approval_state_error, http_exception, Action,
  pure, raise, catch, ◌>>=◌, ◌>>◌, raise_if,
}
use asante_secure_multi_agen.Floats.{Floats}
use asante_secure_multi_agen.Security.Delegation.{GrantDraw, issue_approval_executor_delegation}
use asante_secure_multi_agen.Ruhusa.{Ruhusa, TaskContext, minutes}
use asante_secure_multi_agen.Identity.Workload.{Identities}
use asante_secure_multi_agen.Tools.Credit.{CreditProvider}
use asante_secure_multi_agen.World.{World, on_business, on_control, on_approvals}
use asante_secure_multi_agen.Approvals.Store.{
  ApprovalRecord, Table, require_record, decide, to_dict,
}
use asante_secure_multi_agen.Values.{Fields, obj, items, flag, opt_text}
use asante_secure_multi_agen.Approvals.Table.{same_status, executed}
use asante_secure_multi_agen.Tools.ApprovedCredit.{execute_approved, or_empty}
use asante_secure_multi_agen.Identity.Human.{AuthenticatedHuman}

abbrev pub may_approve : AuthenticatedHuman → Bool
may_approve operator = member "asante:approve" operator.scopes

abbrev pub no_scope : Exc
no_scope = http_exception 403 "asante:approve scope required for human approval decisions"

abbrev pub require_approval_scope : {S : Type 0} → AuthenticatedHuman → Action S Unit
require_approval_scope operator = raise_if (not (may_approve operator)) no_scope

-- `except LookupError` and `except ApprovalStateError`
abbrev pub as_http : Exc → Exc
as_http (lookup_error detail) = http_exception 404 detail
as_http (trusted_task_not_found_error detail) = http_exception 404 detail
as_http (approval_state_error detail) = http_exception 409 detail
as_http e = e

-- What an approval draws: the time of the decision, the new task's id and time, the draw of its
-- grant, the time of the execution, and the trace id.
pub record ApproveDraw : Type 0 where
  pub decided_at : ℕ
  pub task_hex : String
  pub task_at : ℕ
  pub grant : GrantDraw
  pub executed_at : ℕ
  pub trace_id : Option String

module _ (F : Floats) (R : Ruhusa F.Float) (ids : Identities)
    (provider : CreditProvider F.Float) where
  open F use {Float}

  abbrev pub http_errors : {A : Type 0} → Action (World R) A → Action (World R) A
  http_errors action = catch action (λ e. raise (as_http e))

  unfoldable pub deny_credit_request :
      ℕ → String → Option String → AuthenticatedHuman → Action (World R) (Fields Float)
  deny_credit_request now approval_id memo operator = do
    require_approval_scope operator
    approval ←
        http_errors
          (on_business R (on_approvals (decide approval_id false operator.principal_id memo now)))
    pure (to_dict approval)

  -- The body of the `try`: the record as it is if it is executed, or else the decided one.
  abbrev pub decide_or_replay :
      ℕ → String → Option String → AuthenticatedHuman → Action (Table Float) (ApprovalRecord Float)
  decide_or_replay now approval_id memo operator = do
    approval ← require_record approval_id
    if same_status approval.status executed
        then pure approval
        else do decide approval_id true operator.principal_id memo now

  abbrev pub decision_response : ApprovalRecord Float → Fields Float → Option String → Fields Float
  decision_response approval execution trace_id =
      ("approval", obj (items (to_dict approval)))
      ∷ ("execution", obj (items execution))
      ∷ ("trace_id", opt_text trace_id)
      ∷ []

  abbrev pub execution_task : ApproveDraw → String → AuthenticatedHuman → TaskContext
  execution_task draw approval_id operator = record {
    task_id = draw.task_hex;
    initiated_by = operator.principal_id;
    purpose = fstring ("execute approved guest credit " ∷ approval_id ∷ []);
    expires_at = draw.task_at + minutes 10;
  }

  -- What follows the `try` on a record that is not executed.
  unfoldable pub pay_approved :
      ApproveDraw
      → String
      → AuthenticatedHuman
      → ApprovalRecord Float
      → Action (World R) (Fields Float)
  pay_approved draw approval_id operator approval = do
    let task = execution_task draw approval_id operator
    chain ← on_control R (issue_approval_executor_delegation F R ids draw.grant task (F.whole 100))
    result ← execute_approved R ids provider approval task chain draw.executed_at
    refreshed ← on_business R (on_approvals (require_record approval_id))
    pure (decision_response refreshed result draw.trace_id)

  abbrev pub replay_or_pay :
      ApproveDraw
      → String
      → AuthenticatedHuman
      → ApprovalRecord Float
      → Action (World R) (Fields Float)
  replay_or_pay draw approval_id operator approval =
      if same_status approval.status executed
      then pure (
          decision_response approval
            (put (or_empty approval.execution_result) "deduplicated" (flag true)) draw.trace_id)
      else pay_approved draw approval_id operator approval

  unfoldable pub approve_credit_request :
      ApproveDraw → String → Option String → AuthenticatedHuman → Action (World R) (Fields Float)
  approve_credit_request draw approval_id memo operator = do
    require_approval_scope operator
    approval ←
        http_errors (
          on_business R (on_approvals (decide_or_replay draw.decided_at approval_id memo operator)))
    replay_or_pay draw approval_id operator approval
