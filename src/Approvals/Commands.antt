-- ===== src/Approvals/Commands.antt =====
-- The calls that change the approval store, and what each does to the row of an id.
use asante_secure_multi_agen.Prelude.{
  ℕ, String, ◌≡◌, Bool, not, ◌||◌, Option, none, some, List, [], ◌∷◌, ◌++◌, arith, if◌then◌else◌,
  is_some, fstring,
}
use asante_secure_multi_agen.Prelude.Exec.{Action}
use asante_secure_multi_agen.Floats.{Floats}
use asante_secure_multi_agen.Values.{Fields}
use asante_secure_multi_agen.Approvals.Json.{dumps}
use asante_secure_multi_agen.Approvals.Table.{Status, pending, approved, denied, executed, Row}
use asante_secure_multi_agen.Approvals.Store.{
  ApprovalRecord, Table, decided, set_executed, decide, mark_executed,
}
use asante_secure_multi_agen.Approvals.Requests.{CreditRequest, new_row, create_credit_request}
use asante_secure_multi_agen.Approvals.Rows.{row_of, request_row}
use asante_secure_multi_agen.Approvals.Table.{same_status, update}

pub data Command (N : Type 0) : Type 0 where
  create_credit_request_of : CreditRequest N → String → ℕ → Command N
  decide_of : String → Bool → String → Option String → ℕ → Command N
  mark_executed_of : String → Fields N → ℕ → Command N

abbrev pub target : Bool → Status
target b = if b then approved else denied

-- How one call may change the row of an id: not at all, by inserting a pending one, by deciding
-- a pending one, or by executing an approved one.
pub data Becomes (F : Floats) (c : Command F.Float) (id : String) (old new : Option (Row F.Float))
    : Type 0 where
  stays : new ≡ old → Becomes F c id old new
  inserts :
      (q : CreditRequest F.Float) (uuid : String) (now : ℕ)
      → c ≡ create_credit_request_of q uuid now
      → old ≡ none
      → new
        ≡ some (record {
          approval_id = fstring ("approval:" ∷ uuid ∷ []);
          action = "guest.credit.issue.approved";
          task_id = q.task_id;
          requested_by = q.requested_by;
          reservation_id = q.reservation_id;
          amount = q.amount;
          reason = q.reason;
          policy_id = q.policy_id;
          status = pending;
          created_at = now;
          decided_at = none;
          decided_by = none;
          decision_note = none;
          executed_at = none;
          execution_result_json = none;
        })
      → Becomes F c id old new
  decides :
      (r : Row F.Float) (b : Bool) (by : String) (memo : Option String) (now : ℕ)
      → c ≡ decide_of id b by memo now
      → old ≡ some r
      → r.status ≡ pending
      → new
        ≡ some (record r {
          status = (if b then approved else denied);
          decided_at = some now;
          decided_by = some by;
          decision_note = memo;
        })
      → Becomes F c id old new
  executes :
      (r : Row F.Float) (result : Fields F.Float) (now : ℕ)
      → c ≡ mark_executed_of id result now
      → old ≡ some r
      → r.status ≡ approved
      → new
        ≡ some (record r {
          status = executed;
          executed_at = some now;
          execution_result_json = some (dumps result);
        })
      → Becomes F c id old new

module _ (F : Floats) where
  open F use {Float}

  unfoldable pub perform : Command Float → Action (Table Float) (ApprovalRecord Float)
  perform (create_credit_request_of q uuid now) = create_credit_request F q uuid now
  perform (decide_of id b by memo now) = decide id b by memo now
  perform (mark_executed_of id result now) = mark_executed id result now

  -- The table after a history of calls, the newest call first.
  unfoldable pub after : List (Command Float) → Table Float
  unfolding perform
  after [] = []
  after (c ∷ cs) = (perform c (after cs)).1

-- The table that `decide` and `mark_executed` leave.
abbrev pub decided_rows :
    {N : Type 0} → String → (Row N → Row N) → Table N → Option (Row N) → Table N
decided_rows id f rows none = rows
decided_rows id f rows (some r) = if same_status r.status pending then update id f rows else rows

abbrev pub executed_rows :
    {N : Type 0} → String → (Row N → Row N) → Table N → Option (Row N) → Table N
executed_rows id f rows none = rows
executed_rows id f rows (some r) = if same_status r.status approved then update id f rows else rows

module _ {N : Type 0} where
  pub decide_rows :
      (id : String) (b : Bool) (by : String) (memo : Option String) (now : ℕ) (rows : Table N)
      → (decide id b by memo now rows).1
        ≡ decided_rows id (decided (target b) now by memo) rows (row_of id rows)
  unfolding decide
  decide_rows id b by memo now rows = ground arith

  pub mark_executed_rows :
      (id : String) (result : Fields N) (now : ℕ) (rows : Table N)
      → (mark_executed id result now rows).1
        ≡ executed_rows id (set_executed now result) rows (row_of id rows)
  unfolding mark_executed
  mark_executed_rows id result now rows = ground arith

module _ (F : Floats) where
  open F use {Float}

  abbrev pub created_rows :
      CreditRequest Float → String → ℕ → Table Float → Option (Row Float) → Table Float
  created_rows q uuid now rows none =
      if is_some (row_of (new_row F q uuid now).approval_id rows) || not (F.eqf q.amount q.amount)
      then rows
      else rows ++ new_row F q uuid now ∷ []
  created_rows q uuid now rows (some _) = rows

  pub create_credit_request_rows :
      (q : CreditRequest Float) (uuid : String) (now : ℕ) (rows : Table Float)
      → (create_credit_request F q uuid now rows).1
        ≡ created_rows q uuid now rows (request_row F q.task_id q.reservation_id q.amount rows)
  unfolding create_credit_request
  create_credit_request_rows q uuid now rows = ground arith
