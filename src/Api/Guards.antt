-- ===== src/Api/Guards.antt =====
-- What a manager's decision does on every state of the request.
use asante_secure_multi_agen.Prelude.{
  ℕ, String, ◌≡◌, true, false, Option, none, some, [], ◌∷◌, fstring,
}
use asante_secure_multi_agen.Prelude.Dict.{put}
use asante_secure_multi_agen.Prelude.Exec.{http_exception, ok, err}
use asante_secure_multi_agen.Floats.{Floats}
use asante_secure_multi_agen.Ruhusa.{Ruhusa}
use asante_secure_multi_agen.Identity.Workload.{Identities}
use asante_secure_multi_agen.Tools.Credit.{CreditProvider}
use asante_secure_multi_agen.World.{World}
use asante_secure_multi_agen.Api.Decisions.{
  deny_credit_request, may_approve, no_scope, approve_credit_request, ApproveDraw, pay_approved,
  decision_response,
}
use asante_secure_multi_agen.Identity.Human.{AuthenticatedHuman}
use asante_secure_multi_agen.Approvals.Store.{Table, decide, to_dict, from_row, require_record}
use asante_secure_multi_agen.Approvals.Rows.{row_of}
use asante_secure_multi_agen.Approvals.Table.{Row, pending}
use asante_secure_multi_agen.Approvals.Table.{pending, approved, denied, executed, update}
use asante_secure_multi_agen.Approvals.Store.{decide, decided, expected, from_row, to_dict, Table}
use asante_secure_multi_agen.Approvals.Finality.{decide_pending, again}
use asante_secure_multi_agen.Tools.ApprovedCredit.{or_empty}
use asante_secure_multi_agen.Values.{flag}

module _ (F : Floats) (R : Ruhusa F.Float) (ids : Identities)
    (provider : CreditProvider F.Float) where
  open F use {Float}

  -- The world with another table of approvals.
  abbrev pub with_approvals : World R → Table Float → World R
  with_approvals w rows = record w { business = record w.business { approvals = rows } }

  -- Without the scope `asante:approve` a denial is refused with 403 and changes nothing. With it,
  -- an unknown request gives 404 and an approved or executed one 409, and nothing changes; a
  -- pending one is answered as denied by the operator, with the row updated and nothing else; and
  -- a denied one is answered as it is.
  pub deny_credit_request_lem :
      (now : ℕ) (id : String) (memo : Option String) (operator : AuthenticatedHuman) (w : World R)
      → let r = deny_credit_request F R ids provider now id memo operator w in
        let rows = w.business.approvals in
        (may_approve operator ≡ false → r ≡ (err no_scope, w))
        × (may_approve operator ≡ true
            → (row_of id rows ≡ none
                → r ≡ (
                  err (http_exception 404 (fstring ("unknown approval request: " ∷ id ∷ []))),
                  w,
                ))
              × ((row : Row Float)
                  → row_of id rows ≡ some row
                  → (row.status ≡ pending
                      → r ≡ (
                        ok (to_dict (from_row (decided denied now operator.principal_id memo row))),
                        with_approvals w
                            (update id (decided denied now operator.principal_id memo) rows),
                      ))
                    × (row.status ≡ denied → r ≡ (ok (to_dict (from_row row)), w))
                    × (row.status ≡ approved
                        → r ≡ (err (http_exception 409 (expected id approved "pending")), w))
                    × (row.status ≡ executed
                        → r ≡ (err (http_exception 409 (expected id executed "pending")), w))))
  unfolding deny_credit_request decide
  deny_credit_request_lem now id memo operator w = (
    λ h. rw h,
    λ h. (
      λ e. simp (h, e),
      λ row e. (
        λ p.
            let d =
              decide_pending id false operator.principal_id memo now w.business.approvals row e p in
            rw (h, d),
        λ p.
            let d =
              (again id false operator.principal_id memo now w.business.approvals row e p).0 in
            rw (h, d),
        λ p.
            let d = (again id true operator.principal_id memo now w.business.approvals row e p).1 in
            rw (h, d),
        λ p. simp (h, e, p),
      ),
    ),
  )

  approve_pending :
      (draw : ApproveDraw) (id : String) (memo : Option String) (operator : AuthenticatedHuman)
      (w : World R) (row : Row Float)
      → may_approve operator ≡ true
      → row_of id w.business.approvals ≡ some row
      → row.status ≡ pending
      → approve_credit_request F R ids provider draw id memo operator w
        ≡ pay_approved F R ids provider draw id operator
            (from_row (decided approved draw.decided_at operator.principal_id memo row))
            (with_approvals w (
              update id
                (decided approved draw.decided_at operator.principal_id memo)
                w.business.approvals))
  unfolding approve_credit_request require_record
  approve_pending draw id memo operator w row h e p =
      let d =
        decide_pending id true operator.principal_id memo draw.decided_at w.business.approvals row e
          p in
      simp (h, e, p, d)

  -- Without the scope `asante:approve` an approval is refused with 403 and changes nothing. With
  -- it, an unknown request gives 404 and a denied one 409, an executed one is answered with its
  -- stored result, marked as deduplicated, and none of these changes anything; a pending one is
  -- approved by the operator and then paid, and an approved one is paid.
  pub approve_credit_request_lem :
      (draw : ApproveDraw) (id : String) (memo : Option String) (operator : AuthenticatedHuman)
      (w : World R)
      → let r = approve_credit_request F R ids provider draw id memo operator w in
        let rows = w.business.approvals in
        let by = operator.principal_id in
        (may_approve operator ≡ false → r ≡ (err no_scope, w))
        × (may_approve operator ≡ true
            → (row_of id rows ≡ none
                → r ≡ (
                  err (http_exception 404 (fstring ("unknown approval request: " ∷ id ∷ []))),
                  w,
                ))
              × ((row : Row Float)
                  → row_of id rows ≡ some row
                  → (row.status ≡ pending
                      → r
                        ≡ pay_approved F R ids provider draw id operator
                            (from_row (decided approved draw.decided_at by memo row))
                            (with_approvals w
                              (update id (decided approved draw.decided_at by memo) rows)))
                    × (row.status ≡ approved
                        → r ≡ pay_approved F R ids provider draw id operator (from_row row) w)
                    × (row.status ≡ denied
                        → r ≡ (err (http_exception 409 (expected id denied "pending")), w))
                    × (row.status ≡ executed
                        → r ≡ (
                          ok (
                              decision_response F R ids provider
                                (from_row row)
                                (put
                                  (or_empty (from_row row).execution_result)
                                  "deduplicated"
                                  (flag true))
                                draw.trace_id),
                          w,
                        ))))
  unfolding approve_credit_request decide
  approve_credit_request_lem draw id memo operator w =
      let rows = w.business.approvals in
      let by = operator.principal_id in
      (
        λ h. rw h,
        λ h. (
          λ e. simp (h, e),
          λ row e. (
            λ p. approve_pending draw id memo operator w row h e p,
            λ p. simp (h, e, p),
            λ p. simp (h, e, p),
            λ p. simp (h, e, p),
          ),
        ),
      )
