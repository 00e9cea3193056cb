-- ===== src/Tools/Safety/Credit.antt =====
-- `SecuredGuestCreditTool`: a credit is written only behind the fence, and only to the ledger.
use asante_secure_multi_agen.Values.{num, text}
use asante_secure_multi_agen.Prelude.{
  ◌∷◌, [], ℕ, String, ◌≡◌, refl, ap, inl, inr, some, List, Bool-cases,
}
use asante_secure_multi_agen.Prelude.Dict.{get}
use asante_secure_multi_agen.Prelude.Exec.{Outcome-cases, Result-cases}
use asante_secure_multi_agen.Floats.{Floats}
use asante_secure_multi_agen.Tools.Safety.{
  OnlyIfAdmitted, untouched, Acts, gated-OnlyIfAdmitted, earlier-le, Ruhusa, Identities, Business,
  World, TaskContext, Authorization, DelegationGrant,
}
use asante_secure_multi_agen.Tools.Credit.{
  write_credit, CreditProvider, issue_credit, run_credit, is_set, credit_invocation,
}
use asante_secure_multi_agen.Reliability.Retry.{RetryPolicy, backoff, build_credit_idempotency_key}
use asante_secure_multi_agen.Reliability.Attempts.{execute_with_bounded_retry-keeps}
use asante_secure_multi_agen.Identity.Workload.{
  service_recovery_workload, require_workload, supervisor_workload,
}

module _ (F : Floats) (R : Ruhusa F.Float) (ids : Identities) (sha256 : String → String) where
  open F use {Float}

  -- Nothing but the ledger has changed.
  abbrev pub OnlyLedger : Business Float → Business Float → Type 0
  OnlyLedger b b' = b' ≡ record b { ledger = b'.ledger }

  write_credit-OnlyLedger :
      (provider : CreditProvider Float) (policy : RetryPolicy Float) (reservation_id : String)
      (amount : Float) (reason key : String) (w : World R)
      → OnlyLedger w.business
          (write_credit F R ids sha256 provider policy reservation_id amount reason key
            w).1.business
  unfolding write_credit
  write_credit-OnlyLedger provider policy reservation_id amount reason key w =
      execute_with_bounded_retry-keeps F _ policy _ _
        (λ (s : World R). OnlyLedger w.business s.business)
        (λ s h.
          ap
            (λ (b : Business Float). record b {
              ledger = (provider reservation_id amount reason (some key) s.business.ledger).1;
            })
            h)
        (λ attempt s h. elim (Bool-cases (F.ltf (F.whole 0) (backoff F policy attempt))) [
          | inl e ↦ rw e h
          | inr e ↦ rw e h
        ])
        w refl

  run_credit-OnlyLedger :
      (provider : CreditProvider Float) (policy : RetryPolicy Float) (reservation_id : String)
      (amount : Float) (reason : String) (task : TaskContext) (permit : R.Permit)
      (auth : Authorization) (w : World R)
      → OnlyLedger w.business
          (run_credit F R ids sha256 provider policy reservation_id amount reason task permit auth
            w).1.business
  unfolding run_credit
  run_credit-OnlyLedger provider policy reservation_id amount reason task permit auth w =
      let key = build_credit_idempotency_key F sha256 task.task_id reservation_id amount in
      let kept = write_credit-OnlyLedger provider policy reservation_id amount reason key w in
      elim (Outcome-cases
        (write_credit F R ids sha256 provider policy reservation_id amount reason key w)) [
          | inr (e, w', h) ↦ rw h (elim (Outcome-cases (R.mark_unknown permit w'.control)) [
            | inr (e', c, h') ↦ rw h' (rw h at kept)
            | inl (u, c, h') ↦ rw h' (rw h at kept)
          ])
          | inl (result, w', h) ↦ rw h (elim (Outcome-cases (R.complete permit w'.control)) [
            | inr (e', c, h') ↦ rw h' (rw h at kept)
            | inl (finished, c, h') ↦ rw h' (elim (Bool-cases finished) [
              | inr f ↦ rw f (rw h at kept)
              | inl t ↦ rw t (elim (Bool-cases (is_set (get result "deduplicated"))) [
                | inl d ↦ rw d (rw h at kept)
                | inr d ↦ rw d (rw h at kept)
              ])
            ])
          ])
        ]

  -- A credit changes no store, unless the library has admitted and revalidated
  -- `guest.credit.issue` on the reservation for the Service Recovery workload, with the task and
  -- the delegation chain of the call and no longer than the task; then nothing but the ledger
  -- changes, whatever the credit provider does and however often it is retried.
  pub issue_credit-OnlyIfAdmitted :
      (provider : CreditProvider Float) (policy : RetryPolicy Float) (now : ℕ)
      (reservation_id : String) (amount : Float) (reason : String) (task : TaskContext)
      (chain : List (DelegationGrant Float)) (w : World R)
      → OnlyIfAdmitted R
          (Acts R ids service_recovery_workload "guest.credit.issue" reservation_id
            (("amount", num amount) ∷ ("reason", text reason) ∷ [])
            task
            chain)
          OnlyLedger
          w
          (issue_credit F R ids sha256 provider policy now reservation_id amount reason task chain
            w)
  unfolding issue_credit
  issue_credit-OnlyIfAdmitted provider policy now reservation_id amount reason task chain w =
      elim (Result-cases (require_workload ids supervisor_workload)) [
        | inr (e, h) ↦ rw h (untouched refl tt)
        | inl (i, h) ↦ rw h (elim (Result-cases (require_workload ids service_recovery_workload)) [
          | inr (e, h') ↦ rw h' (untouched refl tt)
          | inl (j, h') ↦ rw h' (
              gated-OnlyIfAdmitted R
                (Acts R ids service_recovery_workload "guest.credit.issue" reservation_id
                  (("amount", num amount) ∷ ("reason", text reason) ∷ []) task chain)
                OnlyLedger
                (credit_invocation F R ids sha256 reservation_id amount reason task chain now i j) _
                _ _ w (j, h', refl, refl, refl, refl, refl, refl, earlier-le _ _)
                (run_credit-OnlyLedger provider policy reservation_id amount reason task))
        ])
      ]
