-- ===== src/Api/Operator.antt =====
-- What the endpoints may change that call a tool without the agents.
use asante_secure_multi_agen.Prelude.{◌∷◌, [], ℕ, ◌+◌, String, ◌≡◌, refl, ◌⊎◌, inl, inr, List}
use asante_secure_multi_agen.Prelude.Exec.{Result, ok, Action, Outcome-cases}
use asante_secure_multi_agen.Floats.{Floats}
use asante_secure_multi_agen.Ruhusa.{
  Ruhusa, TaskContext, DelegationGrant, Invocation, Authorization, minutes,
}
use asante_secure_multi_agen.Values.{num, text, Fields}
use asante_secure_multi_agen.World.{World, Business}
use asante_secure_multi_agen.Identity.Workload.{
  Identities, reservations_workload, service_recovery_workload,
}
use asante_secure_multi_agen.Identity.Human.{AuthenticatedHuman}
use asante_secure_multi_agen.Security.Delegation.{
  issue_reservations_delegation, issue_service_recovery_delegation,
}
use asante_secure_multi_agen.Tools.Credit.{CreditProvider, issue_credit}
use asante_secure_multi_agen.Tools.Reservation.{ReadTimes, get_reservation}
use asante_secure_multi_agen.Reliability.Retry.{RetryPolicy}
use asante_secure_multi_agen.Api.Run.{both}
use asante_secure_multi_agen.Tools.Fence.{Admitted}
use asante_secure_multi_agen.Tools.Safety.{Acts, OnlyIfAdmitted, untouched, allowed}
use asante_secure_multi_agen.Tools.Safety.Credit.{OnlyLedger, issue_credit-OnlyIfAdmitted}
use asante_secure_multi_agen.Tools.Safety.Reservation.{OnlyReads, get_reservation-OnlyIfAdmitted}
use asante_secure_multi_agen.Api.Direct.{
  DirectDraw, direct_task, direct_call, dev_issue_credit, dev_get_reservation,
}
use asante_secure_multi_agen.Tools.Providers.{issue}

module _ (F : Floats) (R : Ruhusa F.Float) (ids : Identities) (sha256 : String → String)
    (ttl : ℕ) where
  open F use {Float, whole}

  -- `task` is the new one of the call: it has the id drawn for it, the operator as initiator, and
  -- half an hour to live.
  abbrev pub IsDirectTask : DirectDraw → String → AuthenticatedHuman → TaskContext → Type 0
  IsDirectTask draw purpose operator task =
      (task.task_id ≡ draw.task_hex)
      × (task.initiated_by ≡ operator.principal_id)
      × (task.purpose ≡ purpose)
      × (task.expires_at ≡ draw.task_at + minutes 30)

  -- The stores are as they were, or a delegation was issued for the task of the call and they
  -- changed by `Effect` under an admitted invocation of the workload, in that task and with that
  -- delegation.
  abbrev pub OnlyForOperator :
      String
      → String
      → String
      → Fields Float
      → DirectDraw
      → String
      → AuthenticatedHuman
      → (TaskContext → Action R.Control (DelegationGrant Float × DelegationGrant Float))
      → (Business Float → Business Float → Type 0)
      → World R
      → Business Float
      → Type 0
  OnlyForOperator workload action reservation_id arguments draw purpose operator issue Effect w b =
      (b ≡ w.business)
      ⊎ ((task : TaskContext) × (grants : DelegationGrant Float × DelegationGrant Float) × (issued
            end : R.Control)
          × (inv : Invocation Float) × (permit : R.Permit) × (auth : Authorization) × IsDirectTask
              draw purpose operator task
          × (issue task w.control ≡ (ok grants, issued))
          × Acts R ids workload action reservation_id arguments task (both grants) inv
          × Admitted R inv issued end permit auth
          × Effect w.business b)

  direct_call-OnlyForOperator :
      (workload action reservation_id : String) (arguments : Fields Float) (draw : DirectDraw)
      (purpose : String) (operator : AuthenticatedHuman)
      (issue : TaskContext → Action R.Control (DelegationGrant Float × DelegationGrant Float))
      (tool : TaskContext → List (DelegationGrant Float) → Action (World R) (Fields Float))
      (Effect : Business Float → Business Float → Type 0) (w : World R)
      → ((task : TaskContext) (chain : List (DelegationGrant Float)) (v : World R)
          → OnlyIfAdmitted R
              (Acts R ids workload action reservation_id arguments task chain)
              Effect
              v
              (tool task chain v))
      → OnlyForOperator workload action reservation_id arguments draw purpose operator issue Effect
          w
          (direct_call F R ids sha256 ttl draw purpose operator issue tool w).1.business
  direct_call-OnlyForOperator workload action reservation_id arguments draw purpose operator issue
        tool Effect w safe =
      let task = direct_task draw purpose operator in
      elim (Outcome-cases (issue task w.control)) [
        | inr (e, c, h) ↦ rw h (inl refl)
        | inl (grants, c, h) ↦ rw h (
            let granted : issue task w.control ≡ (ok grants, c) = h in
            let v = record w { control = c } in
            let done = safe task (both grants) v in
            elim (Outcome-cases (tool task (both grants) v)) [
              | inr (e, v', k) ↦ rw k (settle grants c v' _ granted (rw k at done))
              | inl (result, v', k) ↦ rw k (settle grants c v' _ granted (rw k at done))
            ])
      ]
    where
      settle :
          (grants : DelegationGrant Float × DelegationGrant Float) (c : R.Control) (v' : World R)
          (r : Result (Fields Float))
          → issue (direct_task draw purpose operator) w.control ≡ (ok grants, c)
          → OnlyIfAdmitted R
              (Acts R ids workload action reservation_id arguments
                (direct_task draw purpose operator)
                (both grants))
              Effect
              (record w { control = c })
              (r, v')
          → OnlyForOperator workload action reservation_id arguments draw purpose operator issue
              Effect w v'.business
      settle grants c v' r granted (untouched same d) = inl same
      settle grants c v' r granted (allowed inv permit auth end k adm e) =
          inr (_, grants, c, end, inv, permit, auth, (refl, refl, refl, refl), granted, k, adm, e)

  -- The two endpoints that call a tool without the agents change no store, unless the library has
  -- admitted and revalidated the credit for Service Recovery, with the amount and the reason of the
  -- request, or the read for Reservations, on the reservation of the request, in a new task of half
  -- an hour that the operator initiated and with the delegation that was issued for it. Then
  -- nothing but the ledger changes, or nothing but the cache and the provider is used.
  pub direct_calls-OnlyForOperator :
      (provider : CreditProvider Float) (policy : RetryPolicy Float) (now : ℕ) (times : ReadTimes)
      (draw : DirectDraw) (reservation_id : String) (amount : Float) (reason : String)
      (operator : AuthenticatedHuman) (w : World R)
      → OnlyForOperator service_recovery_workload "guest.credit.issue" reservation_id
          (("amount", num amount) ∷ ("reason", text reason) ∷ [])
          draw
          "direct guest credit test"
          operator
          (λ task.
            issue_service_recovery_delegation F R ids draw.grants task (whole 100) (whole 25))
          (OnlyLedger F R ids sha256)
          w
          (dev_issue_credit F R ids sha256 ttl provider policy now draw reservation_id amount reason
            operator w).1.business
        × OnlyForOperator reservations_workload "reservation.read" reservation_id [] draw
            "direct reservation read test" operator
            (λ task. issue_reservations_delegation F R ids draw.grants task)
            (OnlyReads R ids sha256 ttl)
            w
            (dev_get_reservation F R ids sha256 ttl times draw reservation_id operator w).1.business
  unfolding dev_issue_credit dev_get_reservation
  direct_calls-OnlyForOperator provider policy now times draw reservation_id amount reason operator
        w =
      (
        direct_call-OnlyForOperator service_recovery_workload "guest.credit.issue" reservation_id
            (("amount", num amount) ∷ ("reason", text reason) ∷ []) draw "direct guest credit test"
            operator
            (λ task.
              issue_service_recovery_delegation F R ids draw.grants task (whole 100) (whole 25))
            (issue_credit F R ids sha256 provider policy now reservation_id amount reason)
            (OnlyLedger F R ids sha256) w
            (issue_credit-OnlyIfAdmitted F R ids sha256 provider policy now reservation_id amount
              reason),
        direct_call-OnlyForOperator reservations_workload "reservation.read" reservation_id [] draw
            "direct reservation read test" operator
            (λ task. issue_reservations_delegation F R ids draw.grants task)
            (get_reservation R ids sha256 ttl times reservation_id) (OnlyReads R ids sha256 ttl) w
            (get_reservation-OnlyIfAdmitted R ids sha256 ttl times reservation_id),
      )
