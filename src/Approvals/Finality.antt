-- ===== src/Approvals/Finality.antt =====
-- Repeated calls on an approval request: a request, a decision and an execution are made once.
use asante_secure_multi_agen.Prelude.{
  ℕ, String, ◌≡◌, refl, ap, Bool, true, false, not, Option, some, List, arith, eq_refl,
}
use asante_secure_multi_agen.Prelude.Dict.{get}
use asante_secure_multi_agen.Prelude.Exec.{approval_state_error, ok, err}
use asante_secure_multi_agen.Approvals.Table.{pending, Row, update, approved, executed}
use asante_secure_multi_agen.Approvals.Store.{
  ApprovalRecord, Table, from_row, expected, decided, decide, mark_executed, set_executed,
}
use asante_secure_multi_agen.Approvals.Rows.{row_of, row_of-update}
use asante_secure_multi_agen.Approvals.Commands.{target}
use asante_secure_multi_agen.Values.{Fields}
use asante_secure_multi_agen.Approvals.Json.{loads, dumps, read, read-loads-dumps}

module _ {N : Type 0} where
  row_of-update_self :
      (id : String) (f : Row N → Row N) (rows : Table N) (r : Row N)
      → ((r : Row N) → (f r).approval_id ≡ r.approval_id)
      → row_of id rows ≡ some r
      → row_of id (update id f rows) ≡ some (f r)
  row_of-update_self id f rows r keeps h = rw (row_of-update id id f rows keeps, eq_refl id, h)

  abbrev decided_table : String → Bool → String → Option String → ℕ → Table N → Table N
  decided_table id b by memo now rows = update id (decided (target b) now by memo) rows

  -- On a pending request `decide` succeeds with the outcome, decider and time that it was given.
  pub decide_pending :
      (id : String) (b : Bool) (by : String) (memo : Option String) (now : ℕ) (rows : Table N)
      (r : Row N)
      → row_of id rows ≡ some r
      → r.status ≡ pending
      → decide id b by memo now rows
        ≡ (ok (from_row (decided (target b) now by memo r)), decided_table id b by memo now rows)
  unfolding decide
  decide_pending id b by memo now rows r h p =
      ground (arith, row_of-update_self id (decided (target b) now by memo) rows r (λ _. refl) h)

  -- On a request that is decided, the same decision returns the record and the other is refused.
  pub again :
      (id : String) (b : Bool) (by : String) (memo : Option String) (now : ℕ) (rows : Table N)
      (r : Row N)
      → row_of id rows ≡ some r
      → r.status ≡ target b
      → (decide id b by memo now rows ≡ (ok (from_row r), rows))
        × (decide id (not b) by memo now rows
            ≡ (err (approval_state_error (expected id (target b) "pending")), rows))
  unfolding decide
  again id true by memo now rows r h p = (simp (h, p), simp (h, p))
  again id false by memo now rows r h p = (simp (h, p), simp (h, p))

  -- A decision is made once: after it, the same decision returns the same record and the other
  -- one is refused, whoever makes it, and neither changes the table.
  pub decide_final :
      (id : String) (b : Bool) (by : String) (memo : Option String) (now : ℕ) (rows : Table N)
      (r : Row N)
      → row_of id rows ≡ some r
      → r.status ≡ pending
      → (record' : ApprovalRecord N) × ((decide id b by memo now rows).0 ≡ ok record')
        × (record'.status ≡ target b)
        × (record'.decided_by ≡ some by)
        × ((by' : String) (memo' : Option String) (now' : ℕ)
            → (decide id b by' memo' now' (decide id b by memo now rows).1
                ≡ (ok record', (decide id b by memo now rows).1))
              × (decide id (not b) by' memo' now' (decide id b by memo now rows).1 ≡ (
                err (approval_state_error (expected id (target b) "pending")),
                (decide id b by memo now rows).1,
              )))
  decide_final id b by memo now rows r h p =
      let f = decided (target b) now by memo in
      let e = decide_pending id b by memo now rows r h p in
      let found = row_of-update_self id f rows r (λ _. refl) h in
      (
        from_row (f r),
        ap (λ x. x.0) e,
        unfold from_row in refl,
        unfold from_row in refl,
        λ by' memo' now'. rw e (again id b by' memo' now' (update id f rows) (f r) found refl),
      )

  mark_executed_approved :
      (id : String) (result : Fields N) (now : ℕ) (rows : Table N) (r : Row N)
      → row_of id rows ≡ some r
      → r.status ≡ approved
      → mark_executed id result now rows
        ≡ (ok (from_row (set_executed now result r)), update id (set_executed now result) rows)
  unfolding mark_executed
  mark_executed_approved id result now rows r h p =
      ground (arith, row_of-update_self id (set_executed now result) rows r (λ _. refl) h)

  executed_again :
      (id : String) (result : Fields N) (now : ℕ) (rows : Table N) (r : Row N)
      → row_of id rows ≡ some r
      → r.status ≡ executed
      → mark_executed id result now rows ≡ (ok (from_row r), rows)
  unfolding mark_executed
  executed_again id result now rows r h p = simp (h, p)

  -- An approved request is executed once: `mark_executed` keeps the result, key by key and path by
  -- path into the dictionaries in it, and after
  -- it another `mark_executed`, with any result, returns the same record and changes nothing.
  pub mark_executed_once :
      (id : String) (result : Fields N) (now : ℕ) (rows : Table N) (r : Row N)
      → row_of id rows ≡ some r
      → r.status ≡ approved
      → (record' : ApprovalRecord N) × (stored : Fields N) × ((mark_executed id result now rows).0
          ≡ ok record')
        × (record'.status ≡ executed)
        × (record'.execution_result ≡ some stored)
        × ((k : String) (path : List String) → read path (get stored k) ≡ read path (get result k))
        × ((result' : Fields N) (now' : ℕ)
            → mark_executed id result' now' (mark_executed id result now rows).1
              ≡ (ok record', (mark_executed id result now rows).1))
  mark_executed_once id result now rows r h p =
      let f = set_executed now result in
      let e = mark_executed_approved id result now rows r h p in
      let found = row_of-update_self id f rows r (λ _. refl) h in
      (
        from_row (f r),
        loads (dumps result),
        ap (λ x. x.0) e,
        unfold from_row in refl,
        unfold from_row in refl,
        read-loads-dumps result,
        λ result' now'. rw e (executed_again id result' now' (update id f rows) (f r) found refl),
      )
