-- ===== src/Approvals/Requests.antt =====
-- Credit requests of approvals/store.py: `find_credit_request`, `_insert_credit_request` and
-- `create_credit_request`.
use mathlib.Core.Option
use asante_secure_multi_agen.Prelude.{
  ℕ, String, Option, none, some, [], ◌∷◌, ◌++◌, Bool, not, ◌&&◌, ◌||◌, is_some, ◌==◌, fstring,
}
use asante_secure_multi_agen.Prelude.Exec.{
  Action, pure, gets, modify, raise_if, ◌>>=◌, ◌>>◌, integrity_error,
}
use asante_secure_multi_agen.Floats.{Floats}
use asante_secure_multi_agen.Approvals.Table.{pending, Row, select, order_asc, fetchone, by_id}
use asante_secure_multi_agen.Approvals.Store.{ApprovalRecord, Table, credit_action, from_row}

-- The keyword arguments of `create_credit_request`.
pub record CreditRequest (N : Type 0) : Type 0 where
  pub task_id : String
  pub requested_by : String
  pub reservation_id : String
  pub amount : N
  pub reason : String
  pub policy_id : Option String

module _ (F : Floats) where
  open F use {Float, eqf}

  -- The `WHERE` of `find_credit_request`.
  unfoldable pub is_request : String → String → Float → Row Float → Bool
  is_request task_id reservation_id amount r =
      r.action == credit_action
      && (r.task_id == task_id && (r.reservation_id == reservation_id && eqf r.amount amount))

  unfoldable pub find_credit_request :
      String → String → Float → Action (Table Float) (Option (ApprovalRecord Float))
  unfolding is_request from_row
  find_credit_request task_id reservation_id amount = gets (λ rows.
      Option.map from_row
        (fetchone (order_asc (select (is_request task_id reservation_id amount) rows))))

  unfoldable pub new_row : CreditRequest Float → String → ℕ → Row Float
  new_row q uuid now = record {
    approval_id = fstring ("approval:" ∷ uuid ∷ []);
    action = credit_action;
    task_id = q.task_id;
    requested_by = q.requested_by;
    reservation_id = q.reservation_id;
    amount = q.amount;
    reason = q.reason;
    policy_id = q.policy_id;
    status = pending;
    created_at = now;
    decided_at = none;
    decided_by = none;
    decision_note = none;
    executed_at = none;
    execution_result_json = none;
  }

  -- The `INSERT`: a key that is there, or a NaN (stored as NULL in a column that is `NOT NULL`),
  -- is an `IntegrityError`.
  unfoldable pub insert_credit_request :
      CreditRequest Float → String → ℕ → Action (Table Float) (ApprovalRecord Float)
  unfolding new_row from_row
  insert_credit_request q uuid now = do
    let r = new_row q uuid now
    taken ← gets (λ rows. is_some (fetchone (select (by_id r.approval_id) rows)))
    raise_if (taken || not (eqf q.amount q.amount)) integrity_error
    modify (λ rows. rows ++ r ∷ [])
    pure (from_row r)

  abbrev or_insert :
      CreditRequest Float
      → String
      → ℕ
      → Option (ApprovalRecord Float)
      → Action (Table Float) (ApprovalRecord Float)
  or_insert q uuid now (some r) = pure r
  or_insert q uuid now none = insert_credit_request q uuid now

  unfoldable pub create_credit_request :
      CreditRequest Float → String → ℕ → Action (Table Float) (ApprovalRecord Float)
  unfolding find_credit_request insert_credit_request
  create_credit_request q uuid now = do
    existing ← find_credit_request q.task_id q.reservation_id q.amount
    or_insert q uuid now existing
