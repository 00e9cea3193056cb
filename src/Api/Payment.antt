-- ===== src/Api/Payment.antt =====
-- What paying an approved credit may change.
use asante_secure_multi_agen.Prelude.{◌+◌, String, ◌≡◌, refl, ap, ◌⊎◌, inl, inr, List, Option-cases}
use asante_secure_multi_agen.Prelude.Exec.{Result, Outcome-cases}
use asante_secure_multi_agen.Tools.Safety.{untouched, allowed}
use asante_secure_multi_agen.Tools.Safety.Approved.{
  execute_approved-OnlyIfAdmitted, OnlyCredits, ExecutedOnce, Pays,
}
use asante_secure_multi_agen.Approvals.Store.{require_record, Table, ApprovalRecord}
use asante_secure_multi_agen.Floats.{Floats}
use asante_secure_multi_agen.Ruhusa.{
  Ruhusa, TaskContext, DelegationGrant, Invocation, Authorization, minutes,
}
use asante_secure_multi_agen.Approvals.Rows.{row_of}
use asante_secure_multi_agen.Identity.Workload.{Identities}
use asante_secure_multi_agen.Tools.Credit.{CreditProvider}
use asante_secure_multi_agen.Api.Decisions.{ApproveDraw, pay_approved, execution_task}
use asante_secure_multi_agen.Identity.Human.{AuthenticatedHuman}
use asante_secure_multi_agen.World.{World, Business}
use asante_secure_multi_agen.Security.Delegation.{issue_approval_executor_delegation}
use asante_secure_multi_agen.Tools.ApprovedCredit.{execute_approved}
use asante_secure_multi_agen.Tools.Fence.{Admitted}
use asante_secure_multi_agen.Values.{Fields}

module _ {N : Type 0} where
  require_record-keeps : (id : String) (rows : Table N) → (require_record id rows).1 ≡ rows
  unfolding require_record
  require_record-keeps id rows = elim (Option-cases (row_of id rows)) [
    | inl e ↦ simp e
    | inr (r, e) ↦ simp e
  ]

module _ (F : Floats) (R : Ruhusa F.Float) (ids : Identities)
    (provider : CreditProvider F.Float) where
  open F use {Float}

  -- An invocation of the approval executor for an approved request, in a task that the operator
  -- initiated and that ends ten minutes after it began, was admitted and revalidated.
  pub data PaidBy (draw : ApproveDraw) (operator : AuthenticatedHuman)
      (approval : ApprovalRecord Float) : Type 0 where
    paid_by :
        (task : TaskContext) (chain : List (DelegationGrant Float)) (inv : Invocation Float)
        (start end : R.Control) (permit : R.Permit) (auth : Authorization)
        → task.initiated_by ≡ operator.principal_id
        → task.expires_at ≡ draw.task_at + minutes 10
        → Pays R ids provider approval.status approval task chain inv
        → Admitted R inv start end permit auth
        → PaidBy draw operator approval

  -- What an execution in the task of an approval comes to.
  abbrev Pay :
      ApproveDraw → AuthenticatedHuman → ApprovalRecord Float → World R → Business Float → Type 0
  Pay draw operator approval w b =
      (b ≡ w.business) ⊎ (PaidBy draw operator approval × OnlyCredits R ids provider w.business b)

  executed-Pay :
      (draw : ApproveDraw) (id : String) (operator : AuthenticatedHuman)
      (approval : ApprovalRecord Float) (chain : List (DelegationGrant Float)) (w : World R)
      (r : Result (Fields Float) × World R)
      → let task = execution_task F R ids provider draw id operator in
        ExecutedOnce R ids provider approval.status approval task chain w r
        → Pay draw operator approval w r.1.business
  executed-Pay draw id operator approval chain w r
        (inl (s, (answer, eq, status, id', again, others))) =
      inl (ap (λ x. x.1.business) eq)
  executed-Pay draw id operator approval chain w r (inr (other, untouched same d)) = inl same
  executed-Pay draw id operator approval chain w r
        (inr (other, allowed inv permit auth end k adm e)) =
      inr (paid_by _ chain inv w.control end permit auth refl refl k adm, e)

  -- Paying a request changes no store, unless the request is approved and the library has admitted
  -- and revalidated `guest.credit.issue.approved` on its reservation for the approval executor, in
  -- a task of ten minutes that the operator initiated; then nothing but the ledger and the table
  -- of approvals changes.
  pub pay_approved-OnlyIfAdmitted :
      (draw : ApproveDraw) (id : String) (operator : AuthenticatedHuman)
      (approval : ApprovalRecord Float) (w : World R)
      → let b = (pay_approved F R ids provider draw id operator approval w).1.business in
        (b ≡ w.business) ⊎ (PaidBy draw operator approval × OnlyCredits R ids provider w.business b)
  unfolding pay_approved
  pay_approved-OnlyIfAdmitted draw id operator approval w =
      let task = execution_task F R ids provider draw id operator in
      elim (Outcome-cases
        (issue_approval_executor_delegation F R ids draw.grant task (F.whole 100) w.control)) [
          | inr (e, c, h) ↦ rw h (inl refl)
          | inl (chain, c, h) ↦ rw h (
              let v = record w { control = c } in
              let done = executed-Pay draw id operator approval chain v _ (
                execute_approved-OnlyIfAdmitted R ids provider approval task chain draw.executed_at
                  v) in
              elim (Outcome-cases
                (execute_approved R ids provider approval task chain draw.executed_at v)) [
                  | inr (e, w', k) ↦ rw k (rw k at done)
                  | inl (result, w', k) ↦ rw k (
                      let kept = require_record-keeps id w'.business.approvals in
                      elim (Outcome-cases (require_record id w'.business.approvals)) [
                        | inr (e, rows, q) ↦
                            let same : rows ≡ w'.business.approvals = (rw q at kept) in
                            rw (q, same) (rw k at done)
                        | inl (found, rows, q) ↦
                            let same : rows ≡ w'.business.approvals = (rw q at kept) in
                            rw (q, same) (rw k at done)
                      ])
                ])
        ]
