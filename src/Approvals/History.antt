-- ===== src/Approvals/History.antt =====
-- The state machine of an approval request, over any sequence of calls.
use mathlib.Core.Option
use asante_secure_multi_agen.Prelude.{
  ℕ, String, ◌≡◌, refl, ap, inl, inr, Bool, true, false, not, ◌||◌, Option, some, [], ◌∷◌, ◌++◌,
  arith, ◌==◌, eq_iff, is_some, Bool-cases, Option-cases,
}
use asante_secure_multi_agen.Floats.{Floats}
use asante_secure_multi_agen.Values.{Fields}
use asante_secure_multi_agen.Approvals.Table.{Status, pending, approved, same_status}
use asante_secure_multi_agen.Approvals.Store.{Table, decided, set_executed}
use asante_secure_multi_agen.Approvals.Requests.{CreditRequest, new_row}
use asante_secure_multi_agen.Approvals.Rows.{row_of, request_row, row_of-update, row_of-append}
use asante_secure_multi_agen.Approvals.Commands.{
  Command, create_credit_request_of, decide_of, mark_executed_of, target, Becomes, stays, inserts,
  decides, executes, perform, decide_rows, mark_executed_rows, create_credit_request_rows,
}

same_status-eq : (a b : Status) → same_status a b ≡ true → a ≡ b
same_status-eq a b h = ground arith

module _ (F : Floats) where
  open F use {Float}

  decide-Becomes :
      (id j : String) (b : Bool) (by : String) (memo : Option String) (now : ℕ) (rows : Table Float)
      → Becomes F
          (decide_of id b by memo now)
          j
          (row_of j rows)
          (row_of j (perform F (decide_of id b by memo now) rows).1)
  unfolding perform
  decide-Becomes id j b by memo now rows = rw decide_rows (elim (Option-cases (row_of id rows)) [
    | inl e ↦ rw e (stays refl)
    | inr (r, e) ↦ rw e (elim (Bool-cases (same_status r.status pending)) [
      | inl p ↦
          rw (p, row_of-update id j (decided (target b) now by memo) rows (λ _. refl))
            (elim (Bool-cases (id == j)) [
              | inl q ↦ rw q (
                  let same : id ≡ j = (eq_iff id j).0 q in
                  let here : row_of j rows ≡ some r = rw (← same) e in
                  decides r b by memo now (cc same) here (same_status-eq r.status pending p)
                    (ap (Option.map (decided (target b) now by memo)) here))
              | inr q ↦ rw q (stays refl)
            ])
      | inr p ↦ rw p (stays refl)
    ])
  ])

  mark_executed-Becomes :
      (id j : String) (result : Fields Float) (now : ℕ) (rows : Table Float)
      → Becomes F
          (mark_executed_of id result now)
          j
          (row_of j rows)
          (row_of j (perform F (mark_executed_of id result now) rows).1)
  unfolding perform
  mark_executed-Becomes id j result now rows =
      rw mark_executed_rows (elim (Option-cases (row_of id rows)) [
        | inl e ↦ rw e (stays refl)
        | inr (r, e) ↦ rw e (elim (Bool-cases (same_status r.status approved)) [
          | inl p ↦
              rw (p, row_of-update id j (set_executed now result) rows (λ _. refl))
                (elim (Bool-cases (id == j)) [
                  | inl q ↦ rw q (
                      let same : id ≡ j = (eq_iff id j).0 q in
                      let here : row_of j rows ≡ some r = rw (← same) e in
                      executes r result now (cc same) here (same_status-eq r.status approved p)
                        (ap (Option.map (set_executed now result)) here))
                  | inr q ↦ rw q (stays refl)
                ])
          | inr p ↦ rw p (stays refl)
        ])
      ])

  inserted-Becomes :
      (q : CreditRequest Float) (uuid : String) (now : ℕ) (j : String) (rows : Table Float)
      → is_some (row_of (new_row F q uuid now).approval_id rows) ≡ false
      → Becomes F
          (create_credit_request_of q uuid now)
          j
          (row_of j rows)
          (row_of j (rows ++ new_row F q uuid now ∷ []))
  unfolding new_row
  inserted-Becomes q uuid now j rows fresh = rw row_of-append (elim (Option-cases (row_of j rows)) [
    | inr (r, e) ↦ rw e (stays refl)
    | inl e ↦ rw e (elim (Bool-cases ((new_row F q uuid now).approval_id == j)) [
      | inl h ↦ rw h (inserts q uuid now refl refl refl)
      | inr h ↦ rw h (stays refl)
    ])
  ])

  create_credit_request-Becomes :
      (q : CreditRequest Float) (uuid : String) (now : ℕ) (j : String) (rows : Table Float)
      → Becomes F
          (create_credit_request_of q uuid now)
          j
          (row_of j rows)
          (row_of j (perform F (create_credit_request_of q uuid now) rows).1)
  unfolding perform
  create_credit_request-Becomes q uuid now j rows =
      rw create_credit_request_rows
        (elim (Option-cases (request_row F q.task_id q.reservation_id q.amount rows)) [
          | inr (r, e) ↦ rw e (stays refl)
          | inl e ↦
              rw e
                (elim (Bool-cases (
                  is_some (row_of (new_row F q uuid now).approval_id rows)
                  || not (F.eqf q.amount q.amount))) [
                    | inl h ↦ rw h (stays refl)
                    | inr h ↦ rw h (inserted-Becomes q uuid now j rows (ground arith))
                  ])
        ])

  -- Whatever a call does, the row of each id stays as it was, is inserted as a pending one, goes
  -- from pending to approved or denied by a `decide` of that id, or from approved to executed by a
  -- `mark_executed` of that id, and no other field of it changes than those that the call writes.
  pub perform-Becomes :
      (c : Command Float) (j : String) (rows : Table Float)
      → Becomes F c j (row_of j rows) (row_of j (perform F c rows).1)
  perform-Becomes (create_credit_request_of q uuid now) j rows =
      create_credit_request-Becomes q uuid now j rows
  perform-Becomes (decide_of id b by memo now) j rows = decide-Becomes id j b by memo now rows
  perform-Becomes (mark_executed_of id result now) j rows =
      mark_executed-Becomes id j result now rows
