-- ===== src/Approvals/Store.antt =====
-- `SQLiteApprovalStore` of approvals/store.py. A method that changes the table does so under
-- the store's lock, in one action (`decide_locked`, `mark_executed_locked`); `decide` and
-- `mark_executed` read the record again after it, and are here the two in a row, with no other
-- call between. The clock and `uuid4` are arguments.
use mathlib.Core.Option
use asante_secure_multi_agen.Prelude.{
  ℕ, String, Option, none, some, List, [], ◌∷◌, map, Bool, not, fstring, if◌then◌else◌,
}
use asante_secure_multi_agen.Prelude.Exec.{
  Action, pure, raise, gets, modify, raise_if, ◌>>=◌, ◌>>◌, lookup_error, approval_state_error,
}
use asante_secure_multi_agen.Values.{text, num, instant, Fields, opt_text, opt_instant, opt_obj}
use asante_secure_multi_agen.Approvals.Json.{dumps, loads}
use asante_secure_multi_agen.Approvals.Table.{
  Status, pending, approved, denied, executed, status_text, same_status, Row, select, order_desc,
  fetchone, update, by_id,
}

abbrev pub credit_action : String
credit_action = "guest.credit.issue.approved"

pub record ApprovalRecord (N : Type 0) : Type 0 where
  pub approval_id : String
  pub action : String
  pub task_id : String
  pub requested_by : String
  pub reservation_id : String
  pub amount : N
  pub reason : String
  pub policy_id : Option String
  pub status : Status
  pub created_at : ℕ
  pub decided_at : Option ℕ
  pub decided_by : Option String
  pub decision_note : Option String
  pub executed_at : Option ℕ
  pub execution_result : Option (Fields N)

abbrev pub expected : String → Status → String → String
expected id s wanted =
    fstring ("approval " ∷ id ∷ " is " ∷ status_text s ∷ "; expected " ∷ wanted ∷ [])

abbrev pub Table : Type 0 → Type 0
Table N = List (Row N)

module _ {N : Type 0} where
  unfoldable pub from_row : Row N → ApprovalRecord N
  unfolding loads
  from_row r = record {
    approval_id = r.approval_id;
    action = r.action;
    task_id = r.task_id;
    requested_by = r.requested_by;
    reservation_id = r.reservation_id;
    amount = r.amount;
    reason = r.reason;
    policy_id = r.policy_id;
    status = r.status;
    created_at = r.created_at;
    decided_at = r.decided_at;
    decided_by = r.decided_by;
    decision_note = r.decision_note;
    executed_at = r.executed_at;
    execution_result = Option.map loads r.execution_result_json;
  }

  -- `get`
  unfoldable pub get_record : String → Action (Table N) (Option (ApprovalRecord N))
  unfolding from_row
  get_record id = gets (λ rows. Option.map from_row (fetchone (select (by_id id) rows)))

  abbrev pub or_lookup_error :
      String → Option (ApprovalRecord N) → Action (Table N) (ApprovalRecord N)
  or_lookup_error id none = raise (lookup_error (fstring ("unknown approval request: " ∷ id ∷ [])))
  or_lookup_error id (some r) = pure r

  -- `require`
  unfoldable pub require_record : String → Action (Table N) (ApprovalRecord N)
  unfolding get_record
  require_record id = do r ← get_record id; or_lookup_error id r

  abbrev pub has_status : Status → Row N → Bool
  has_status s r = same_status r.status s

  unfoldable pub list_requests : Option Status → Action (Table N) (List (ApprovalRecord N))
  unfolding from_row
  list_requests none = gets (λ rows. map from_row (order_desc rows))
  list_requests (some s) = gets (λ rows. map from_row (order_desc (select (has_status s) rows)))

  abbrev pub decided : Status → ℕ → String → Option String → Row N → Row N
  decided target now by memo r = record r {
    status = target;
    decided_at = some now;
    decided_by = some by;
    decision_note = memo;
  }

  -- The record that was returned under the lock, or else the one that is there after it.
  unfoldable pub or_read : String → Option (ApprovalRecord N) → Action (Table N) (ApprovalRecord N)
  unfolding require_record
  or_read id none = require_record id
  or_read id (some r) = pure r

  -- What `decide` does under the lock.
  unfoldable pub decide_locked :
      String → Bool → String → Option String → ℕ → Action (Table N) (Option (ApprovalRecord N))
  unfolding require_record
  decide_locked id is_approved by memo now = do
    current ← require_record id
    let target = if is_approved then approved else denied
    if same_status current.status target then pure (some current) else do
      raise_if (not (same_status current.status pending))
          (approval_state_error (expected id current.status "pending"))
      modify (update id (decided target now by memo))
      pure none

  unfoldable pub decide :
      String → Bool → String → Option String → ℕ → Action (Table N) (ApprovalRecord N)
  unfolding decide_locked or_read
  decide id is_approved by memo now = do
    returned ← decide_locked id is_approved by memo now
    or_read id returned

  abbrev pub set_executed : ℕ → Fields N → Row N → Row N
  set_executed now result r = record r {
    status = executed;
    executed_at = some now;
    execution_result_json = some (dumps result);
  }

  -- What `mark_executed` does under the lock.
  unfoldable pub mark_executed_locked :
      String → Fields N → ℕ → Action (Table N) (Option (ApprovalRecord N))
  unfolding require_record
  mark_executed_locked id result now = do
    current ← require_record id
    if same_status current.status executed then pure (some current) else do
      raise_if (not (same_status current.status approved))
          (approval_state_error (expected id current.status "approved"))
      modify (update id (set_executed now result))
      pure none

  unfoldable pub mark_executed : String → Fields N → ℕ → Action (Table N) (ApprovalRecord N)
  unfolding mark_executed_locked or_read
  mark_executed id result now = do
    returned ← mark_executed_locked id result now
    or_read id returned

  unfoldable pub to_dict : ApprovalRecord N → Fields N
  to_dict r =
      ("approval_id", text r.approval_id)
      ∷ ("action", text r.action)
      ∷ ("task_id", text r.task_id)
      ∷ ("requested_by", text r.requested_by)
      ∷ ("reservation_id", text r.reservation_id)
      ∷ ("amount", num r.amount)
      ∷ ("reason", text r.reason)
      ∷ ("policy_id", opt_text r.policy_id)
      ∷ ("status", text (status_text r.status))
      ∷ ("created_at", instant r.created_at)
      ∷ ("decided_at", opt_instant r.decided_at)
      ∷ ("decided_by", opt_text r.decided_by)
      ∷ ("decision_note", opt_text r.decision_note)
      ∷ ("executed_at", opt_instant r.executed_at)
      ∷ ("execution_result", opt_obj r.execution_result)
      ∷ []
