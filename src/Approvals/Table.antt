-- ===== src/Approvals/Table.antt =====
-- The table `approval_requests` of approvals/store.py, with the SQL statements that read and
-- change it. A time is the instant that its ISO text names: texts of UTC instants sort as these.
use asante_secure_multi_agen.Prelude.{
  ℕ, String, Bool, true, false, Option, none, some, List, [], ◌∷◌, ◌==◌, leb, if◌then◌else◌,
}
use asante_secure_multi_agen.Values.{Fields}

-- `ApprovalStatus`
pub data Status : Type 0 where
  pending approved denied executed : Status

abbrev pub status_text : Status → String
status_text pending = "pending"
status_text approved = "approved"
status_text denied = "denied"
status_text executed = "executed"

-- `a == b` on statuses
abbrev pub same_status : Status → Status → Bool
same_status pending pending = true
same_status approved approved = true
same_status denied denied = true
same_status executed executed = true
same_status _ _ = false

-- A row of the table; `execution_result_json` holds the items that the JSON text lists.
pub record Row (N : Type 0) : Type 0 where
  pub approval_id : String
  pub action : String
  pub task_id : String
  pub requested_by : String
  pub reservation_id : String
  pub amount : N
  pub reason : String
  pub policy_id : Option String
  pub status : Status
  pub created_at : ℕ
  pub decided_at : Option ℕ
  pub decided_by : Option String
  pub decision_note : Option String
  pub executed_at : Option ℕ
  pub execution_result_json : Option (Fields N)

module _ {N : Type 0} where
  -- `SELECT * ... WHERE p`, in the order of the rows
  unfoldable pub select : (Row N → Bool) → List (Row N) → List (Row N)
  select p [] = []
  select p (r ∷ rows) = let rest = select p rows in if p r then r ∷ rest else rest

  unfoldable pub insert_asc : Row N → List (Row N) → List (Row N)
  insert_asc r [] = r ∷ []
  insert_asc r (x ∷ rows) =
      if leb r.created_at x.created_at then r ∷ x ∷ rows else x ∷ insert_asc r rows

  -- `ORDER BY created_at ASC`, rows of one instant in the order of the table
  unfoldable pub order_asc : List (Row N) → List (Row N)
  unfolding insert_asc
  order_asc [] = []
  order_asc (r ∷ rows) = insert_asc r (order_asc rows)

  insert_desc : Row N → List (Row N) → List (Row N)
  insert_desc r [] = r ∷ []
  insert_desc r (x ∷ rows) =
      if leb x.created_at r.created_at then r ∷ x ∷ rows else x ∷ insert_desc r rows

  -- `ORDER BY created_at DESC`, rows of one instant in the order of the table
  unfoldable pub order_desc : List (Row N) → List (Row N)
  unfolding insert_desc
  order_desc [] = []
  order_desc (r ∷ rows) = insert_desc r (order_desc rows)

  -- `fetchone()`
  abbrev pub fetchone : List (Row N) → Option (Row N)
  fetchone [] = none
  fetchone (r ∷ _) = some r

  -- `UPDATE ... SET f WHERE approval_id = ?`
  unfoldable pub update : String → (Row N → Row N) → List (Row N) → List (Row N)
  update id f [] = []
  update id f (r ∷ rows) = (if r.approval_id == id then f r else r) ∷ update id f rows

  -- `SELECT * ... WHERE approval_id = ?`
  abbrev pub by_id : String → Row N → Bool
  by_id id r = r.approval_id == id
