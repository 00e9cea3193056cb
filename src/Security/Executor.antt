-- ===== src/Security/Executor.antt =====
-- The grant for an approved credit, `issue_approval_executor_delegation` of security/delegation.py.
use asante_secure_multi_agen.Prelude.{
  ◌+◌, ◌≤◌, String, ◌≡◌, refl, ◌⊎◌, inl, inr, true, false, Bool-cases, List, [], ◌∷◌,
}
use asante_secure_multi_agen.Prelude.Exec.{
  Exc, value_error, Result, ok, err, Outcome-cases, Result-cases,
}
use asante_secure_multi_agen.Floats.{Floats}
use asante_secure_multi_agen.Ruhusa.{Ruhusa, TaskContext, DelegationGrant, minutes, earlier}
use asante_secure_multi_agen.Identity.Workload.{
  Identities, require_workload, WorkloadIdentity, approval_executor_workload,
}
use asante_secure_multi_agen.Security.Delegation.{
  GrantDraw, issue_approval_executor_delegation, make_grant, amount_scope,
}
use asante_secure_multi_agen.Security.Chains.{earlier-le_right, IsBounded}
use asante_secure_multi_agen.Tools.Safety.{earlier-le}

module _ (F : Floats) (R : Ruhusa F.Float) (ids : Identities) (draw : GrantDraw)
    (task : TaskContext) where
  open F use {Float}
  open R use {Control, register_grant}

  -- `grant` lets the executor service pay approved credits up to `limit` on behalf of the
  -- initiator, for this task only.
  pub record ForExecutor (limit : Float) (grant : DelegationGrant Float) : Type 0 where
    pub executor : WorkloadIdentity
    pub is_executor : require_workload ids approval_executor_workload ≡ ok executor
    pub from : grant.grantor_id ≡ task.initiated_by
    pub to : grant.grantee_id ≡ executor.principal_id
    pub for_task : grant.task_id ≡ task.task_id
    pub scope : IsBounded "guest.credit.issue.approved" limit grant.scope
    pub in_task : grant.expires_at ≤ task.expires_at
    pub in_time : grant.expires_at ≤ draw.now + minutes 10

  -- One such grant was registered and is the whole answer, or the library refused it.
  abbrev pub IsExecutorGrant :
      Float → Control → Result (List (DelegationGrant Float)) × Control → Type 0
  IsExecutorGrant limit c (err e, c') =
      (grant : DelegationGrant Float) × ForExecutor limit grant
      × (register_grant grant c ≡ (err e, c'))
  IsExecutorGrant limit c (ok grants, c') =
      (grant : DelegationGrant Float) × ForExecutor limit grant
      × (grants ≡ grant ∷ [])
      × (register_grant grant c ≡ (ok tt, c'))

  -- The delegation to the approval executor raises what the lookup of its workload raised, or
  -- `ValueError` if the limit is not positive, with nothing registered in both cases; else it
  -- registers one grant, from the task's initiator directly to the executor, for the action on
  -- approved credits up to the limit, which ends at the latest with the task and after ten
  -- minutes, and answers with it alone, or raises what the registration raised.
  pub issue_approval_executor_delegation-IsExecutorGrant :
      (limit : Float) (c : Control)
      → let r = issue_approval_executor_delegation F R ids draw task limit c in
        ((e : Exc) × (require_workload ids approval_executor_workload ≡ err e) × (r ≡ (err e, c)))
        ⊎ ((F.lef limit (F.whole 0) ≡ true)
            × ((problem : String) × (r ≡ (err (value_error problem), c))))
        ⊎ ((F.lef limit (F.whole 0) ≡ false) × IsExecutorGrant limit c r)
  unfolding issue_approval_executor_delegation
  issue_approval_executor_delegation-IsExecutorGrant limit c =
      elim (Result-cases (require_workload ids approval_executor_workload)) [
        | inr (e, h) ↦ rw h (inl (e, refl, refl))
        | inl (i, h) ↦ elim (Bool-cases (F.lef limit (F.whole 0))) [
          | inl d ↦ rw (h, d) (inr (inl (refl, (_, refl))))
          | inr d ↦
              let end = earlier task.expires_at (draw.now + minutes 10) in
              let grant =
                make_grant F draw.root_hex draw.now end task task.initiated_by i.principal_id
                  (amount_scope F "guest.credit.issue.approved" limit) in
              let good : ForExecutor limit grant = record {
                executor = i;
                is_executor = h;
                from = refl;
                to = refl;
                for_task = refl;
                scope = (refl, refl, refl);
                in_task = earlier-le _ _;
                in_time = earlier-le_right _ _;
              } in
              elim (Outcome-cases (register_grant grant c)) [
                | inr (e, c1, f) ↦ rw (h, d, f) (inr (inr (refl, (grant, good, f))))
                | inl (u, c1, f) ↦ rw (h, d, f) (inr (inr (refl, (grant, good, refl, f))))
              ]
        ]
      ]
