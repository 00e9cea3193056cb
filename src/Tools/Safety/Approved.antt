-- ===== src/Tools/Safety/Approved.antt =====
-- `ApprovedCreditExecutor`: money moves only for an approved request, behind the fence.
use asante_secure_multi_agen.Prelude.{
  ℕ, String, ◌≡◌, ◌≢◌, refl, arith, eq_iff, ap, ◌⊎◌, inl, inr, Bool, true, false, some, List, [],
  ◌∷◌,
}
use asante_secure_multi_agen.Prelude.Exec.{Result, ok, Outcome-cases, Result-cases}
use asante_secure_multi_agen.Tools.Safety.{
  OnlyIfAdmitted, untouched, Acts, gated-OnlyIfAdmitted, earlier-le, Ruhusa, Identities, Business,
  Authorization, TaskContext, DelegationGrant, Fields, World, Invocation,
}
use asante_secure_multi_agen.Tools.Credit.{CreditProvider}
use asante_secure_multi_agen.Metrics.{record_credit_execution}
use asante_secure_multi_agen.Tools.ApprovedCredit.{
  execute_approved, run_approved, approved_key, finish_approved, execute_by_status, replay,
  approved_invocation, or_empty,
}
use asante_secure_multi_agen.Approvals.Table.{pending, denied, Status, executed, approved}
use asante_secure_multi_agen.Approvals.Store.{ApprovalRecord, mark_executed}
use asante_secure_multi_agen.Values.{num, merge, text, opt_text, flag}
use asante_secure_multi_agen.Prelude.Dict.{get, get-put}
use asante_secure_multi_agen.Identity.Workload.{approval_executor_workload, require_workload}

module _ {N : Type 0} (R : Ruhusa N) (ids : Identities) (provider : CreditProvider N) where
  -- Nothing but the ledger and the table of approvals has changed.
  abbrev pub OnlyCredits : Business N → Business N → Type 0
  OnlyCredits b b' = b' ≡ record b { ledger = b'.ledger; approvals = b'.approvals }

  -- The approval is approved, and the invocation is the approval executor's, on its reservation.
  abbrev pub Pays :
      Status → ApprovalRecord N → TaskContext → List (DelegationGrant N) → Invocation N → Type 0
  Pays status approval task chain inv =
      (status ≡ approved)
      × Acts R ids approval_executor_workload "guest.credit.issue.approved" approval.reservation_id
          (("amount", num approval.amount)
            ∷ ("reason", text approval.reason)
            ∷ ("approval_id", text approval.approval_id)
            ∷ ("approval_verified", flag true)
            ∷ [])
          task chain inv

  finish_approved-OnlyCredits :
      (approval : ApprovalRecord N) (now : ℕ) (auth : Authorization) (paid : Fields N)
      (completed : Bool) (b : Business N) (w : World R)
      → OnlyCredits b w.business
      → OnlyCredits b (finish_approved R ids provider approval now auth paid completed w).1.business
  unfolding record_credit_execution
  finish_approved-OnlyCredits approval now auth paid false b w h = h
  finish_approved-OnlyCredits approval now auth paid true b w h =
      let result = merge paid (
        ("approval_id", text approval.approval_id)
        ∷ ("effect", text R.allow)
        ∷ ("policy_id", opt_text auth.policy_id)
        ∷ []) in
      elim (Outcome-cases (mark_executed approval.approval_id result now w.business.approvals)) [
        | inr (e, t, h') ↦
            rw h'
              (ap (λ (x : Business N). record x { ledger = w.business.ledger; approvals = t }) h)
        | inl (u, t, h') ↦
            rw h'
              (ap (λ (x : Business N). record x { ledger = w.business.ledger; approvals = t }) h)
      ]

  run_approved-OnlyCredits :
      (approval : ApprovalRecord N) (now : ℕ) (permit : R.Permit) (auth : Authorization)
      (w : World R)
      → OnlyCredits w.business (run_approved R ids provider approval now permit auth w).1.business
  unfolding run_approved record_credit_execution
  run_approved-OnlyCredits approval now permit auth w =
      elim (Outcome-cases (
        provider approval.reservation_id approval.amount approval.reason
          (some (approved_key R ids provider approval.approval_id)) w.business.ledger)) [
            | inr (e, l, h) ↦ rw h (elim (Outcome-cases (R.mark_unknown permit w.control)) [
              | inr (e', c, h') ↦ rw h'
              | inl (u, c, h') ↦ rw h'
            ])
            | inl (paid, l, h) ↦ rw h (elim (Outcome-cases (R.complete permit w.control)) [
              | inr (e', c, h') ↦ rw h'
              | inl (done, c, h') ↦
                  rw h' (finish_approved-OnlyCredits approval now auth paid done w.business _ refl)
            ])
          ]

  -- The answer is the stored result, marked as issued for this approval and as a repetition, and
  -- nothing has changed.
  abbrev pub Replayed : ApprovalRecord N → World R → Result (Fields N) × World R → Type 0
  Replayed approval w r =
      (answer : Fields N) × (r ≡ (ok answer, w))
      × (get answer "status" ≡ some (text "issued"))
      × (get answer "approval_id" ≡ some (text approval.approval_id))
      × (get answer "deduplicated" ≡ some (flag true))
      × ((name : String)
          → name ≢ "status"
          → name ≢ "approval_id"
          → name ≢ "deduplicated"
          → get answer name ≡ get (or_empty approval.execution_result) name)

  replay-Replayed :
      (approval : ApprovalRecord N) (w : World R)
      → Replayed approval w (ok (replay R ids provider approval), w)
  replay-Replayed approval w = (
    replay R ids provider approval,
    refl,
    rw get-put (rw get-put (rw get-put refl)),
    rw get-put (rw get-put refl),
    rw get-put refl,
    λ name a b c. rw get-put (
        rw get-put (
          rw get-put (
            ground (
              arith,
              eq_iff "status" name,
              eq_iff "approval_id" name,
              eq_iff "deduplicated" name,
            )))),
  )

  -- An executed approval is replayed, and any other is executed only if it is admitted.
  abbrev pub ExecutedOnce :
      Status
      → ApprovalRecord N
      → TaskContext
      → List (DelegationGrant N)
      → World R
      → Result (Fields N) × World R
      → Type 0
  ExecutedOnce status approval task chain w r =
      ((status ≡ executed) × Replayed approval w r)
      ⊎ ((status ≢ executed) × OnlyIfAdmitted R (Pays status approval task chain) OnlyCredits w r)

  by_status-OnlyIfAdmitted :
      (status : Status) (approval : ApprovalRecord N) (task : TaskContext)
      (chain : List (DelegationGrant N)) (now : ℕ) (w : World R)
      → ExecutedOnce status approval task chain w
          (execute_by_status R ids provider status approval task chain now w)
  by_status-OnlyIfAdmitted executed approval task chain now w =
      inl (refl, replay-Replayed approval w)
  by_status-OnlyIfAdmitted approved approval task chain now w = inr (
    λ h. ground (arith, h),
    elim (Result-cases (require_workload ids approval_executor_workload)) [
      | inr (e, h) ↦ rw h (untouched refl tt)
      | inl (j, h) ↦ rw h (
          gated-OnlyIfAdmitted R (Pays approved approval task chain) OnlyCredits
            (approved_invocation R ids provider approval task chain now j) _ _ _ w
            (refl, (j, h, refl, refl, refl, refl, refl, refl, earlier-le _ _))
            (run_approved-OnlyCredits approval now))
    ],
  )
  by_status-OnlyIfAdmitted pending approval task chain now w =
      inr (λ h. ground (arith, h), untouched refl (_, _, refl))
  by_status-OnlyIfAdmitted denied approval task chain now w =
      inr (λ h. ground (arith, h), untouched refl (_, _, refl))

  -- Executing an approval that is executed changes nothing and answers with the stored result, in
  -- which only the status, the id of the approval and the mark of a repetition are set anew.
  -- Executing any other changes no store, unless its status is approved and the library has
  -- admitted and revalidated `guest.credit.issue.approved` on its reservation, with its amount, its
  -- reason and its id as verified, for the approval executor, with the task and the delegation
  -- chain of the call and no longer than the task; then nothing but the ledger and the table of
  -- approvals changes.
  pub execute_approved-OnlyIfAdmitted :
      (approval : ApprovalRecord N) (task : TaskContext) (chain : List (DelegationGrant N))
      (now : ℕ) (w : World R)
      → ExecutedOnce approval.status approval task chain w
          (execute_approved R ids provider approval task chain now w)
  unfolding execute_approved
  execute_approved-OnlyIfAdmitted approval task chain now w =
      by_status-OnlyIfAdmitted approval.status approval task chain now w
