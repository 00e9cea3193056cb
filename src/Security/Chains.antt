-- ===== src/Security/Chains.antt =====
-- What the issued grants are: a chain from the task's initiator through the supervisor to the
-- specialist, each link registered, none outliving the task or half an hour.
use asante_secure_multi_agen.Prelude.{
  ℕ, ◌+◌, ◌≤◌, String, ◌≡◌, refl, ◌⊎◌, inl, inr, true, false, arith, Bool-cases, [], ◌∷◌,
}
use asante_secure_multi_agen.Prelude.Exec.{
  Exc, value_error, Result, ok, err, Outcome-cases, Result-cases,
}
use asante_secure_multi_agen.Floats.{Floats}
use asante_secure_multi_agen.Ruhusa.{Ruhusa, TaskContext, Scope, DelegationGrant, minutes, earlier}
use asante_secure_multi_agen.Identity.Workload.{
  Identities, require_workload, WorkloadIdentity, supervisor_workload, service_recovery_workload,
  reservations_workload, property_operations_workload, guest_support_workload,
}
use asante_secure_multi_agen.Security.Delegation.{
  GrantDraw, issue_chain, issue_reservations_delegation,
  issue_service_recovery_credit_request_delegation, issue_service_recovery_delegation,
  issue_property_operations_delegation, make_grant, issue_guest_support_message_delegation,
  plain_scope,
}
use asante_secure_multi_agen.Tools.Safety.{earlier-le}

pub earlier-le_right : (a b : ℕ) → earlier a b ≤ b
earlier-le_right a b = ground arith

-- The scope is that of one action on reservations, with `limit` as the bound on its amount.
abbrev pub IsBounded : {N : Type 0} → String → N → Scope N → Type 0
IsBounded action limit scope =
    (scope.actions ≡ action ∷ [])
    × (scope.resource_prefixes ≡ "reservation:" ∷ [])
    × (scope.max_numeric_arguments ≡ ("amount", limit) ∷ [])

module _ (F : Floats) (R : Ruhusa F.Float) (ids : Identities) (draw : GrantDraw)
    (task : TaskContext) where
  open F use {Float}
  open R use {Control, register_grant}

  -- `root` and `child` link the initiator, the supervisor and `workload`, and were registered in
  -- this order.
  pub record Linked (workload : String) (Scopes : Scope Float → Scope Float → Type 0)
      (c c' : Control) (root child : DelegationGrant Float) : Type 0 where
    pub supervisor : WorkloadIdentity
    pub specialist : WorkloadIdentity
    pub registered : Control
    pub is_supervisor : require_workload ids supervisor_workload ≡ ok supervisor
    pub is_specialist : require_workload ids workload ≡ ok specialist
    pub root_from : root.grantor_id ≡ task.initiated_by
    pub root_to : root.grantee_id ≡ supervisor.principal_id
    pub child_from : child.grantor_id ≡ root.grantee_id
    pub child_to : child.grantee_id ≡ specialist.principal_id
    pub root_task : root.task_id ≡ task.task_id
    pub child_task : child.task_id ≡ task.task_id
    pub same_end : child.expires_at ≡ root.expires_at
    pub in_task : root.expires_at ≤ task.expires_at
    pub in_time : root.expires_at ≤ draw.now + minutes 30
    pub scopes : Scopes root.scope child.scope
    pub first : register_grant root c ≡ (ok tt, registered)
    pub second : register_grant child registered ≡ (ok tt, c')

  -- Why no chain was issued: a workload is not known, and nothing was registered; or the library
  -- refused to register a grant.
  abbrev pub NoChain : String → Control → Exc → Control → Type 0
  NoChain workload c e c' =
      ((require_workload ids supervisor_workload ≡ err e) × (c' ≡ c))
      ⊎ ((require_workload ids workload ≡ err e) × (c' ≡ c))
      ⊎ ((grant : DelegationGrant Float) × (before : Control) × (register_grant grant before
            ≡ (err e, c')))

  abbrev pub IsChain :
      String
      → (Scope Float → Scope Float → Type 0)
      → Control
      → Result (DelegationGrant Float × DelegationGrant Float) × Control
      → Type 0
  IsChain workload Scopes c (err e, c') = NoChain workload c e c'
  IsChain workload Scopes c (ok (root, child), c') = Linked workload Scopes c c' root child

  issue_chain-IsChain :
      (workload : String) (root_scope child_scope : Scope Float)
      (Scopes : Scope Float → Scope Float → Type 0) (c : Control)
      → Scopes root_scope child_scope
      → IsChain workload Scopes c (issue_chain F R ids draw task workload root_scope child_scope c)
  unfolding issue_chain
  issue_chain-IsChain workload root_scope child_scope Scopes c ss =
      elim (Result-cases (require_workload ids supervisor_workload)) [
        | inr (e, h) ↦ rw h (inl (h, refl))
        | inl (i, h) ↦ rw h (elim (Result-cases (require_workload ids workload)) [
          | inr (e, k) ↦ rw k (inr (inl (k, refl)))
          | inl (j, k) ↦ rw k (
              let end = earlier task.expires_at (draw.now + minutes 30) in
              let root =
                make_grant F draw.root_hex draw.now end task task.initiated_by i.principal_id
                  root_scope in
              let child =
                make_grant F draw.child_hex draw.now end task i.principal_id j.principal_id
                  child_scope in
              elim (Outcome-cases (register_grant root c)) [
                | inr (e, c1, f) ↦ rw f (inr (inr (root, c, f)))
                | inl (u, c1, f) ↦ rw f (elim (Outcome-cases (register_grant child c1)) [
                  | inr (e, c2, g) ↦ rw g (inr (inr (child, c1, g)))
                  | inl (v, c2, g) ↦ rw g (record {
                    supervisor = i;
                    specialist = j;
                    registered = c1;
                    is_supervisor = h;
                    is_specialist = k;
                    root_from = refl;
                    root_to = refl;
                    child_from = refl;
                    child_to = refl;
                    root_task = refl;
                    child_task = refl;
                    same_end = refl;
                    in_task = earlier-le _ _;
                    in_time = earlier-le_right _ _;
                    scopes = ss;
                    first = f;
                    second = g;
                  })
                ])
              ])
        ])
      ]

  -- The reservation, maintenance and message delegations each issue a linked chain that ends at
  -- their own specialist, with both grants for their one action on reservations; or they raise as
  -- a workload is unknown, with nothing registered, or as the grant store raised.
  pub specialist_delegations-IsChain :
      (c : Control)
      → IsChain reservations_workload
          (λ r s. (r ≡ plain_scope F "reservation.read") × (s ≡ r))
          c
          (issue_reservations_delegation F R ids draw task c)
        × IsChain property_operations_workload
            (λ r s. (r ≡ plain_scope F "maintenance.create") × (s ≡ r))
            c
            (issue_property_operations_delegation F R ids draw task c)
        × IsChain guest_support_workload
            (λ r s. (r ≡ plain_scope F "guest.message.send") × (s ≡ r))
            c
            (issue_guest_support_message_delegation F R ids draw task c)
  unfolding issue_reservations_delegation issue_property_operations_delegation
      issue_guest_support_message_delegation
  specialist_delegations-IsChain c = (
    issue_chain-IsChain reservations_workload _ _ _ c (refl, refl),
    issue_chain-IsChain property_operations_workload _ _ _ c (refl, refl),
    issue_chain-IsChain guest_support_workload _ _ _ c (refl, refl),
  )

  -- A credit delegation raises `ValueError` with nothing registered, if the specialist's
  -- limit exceeds the supervisor's or one of them is not positive; else it issues a linked chain
  -- for `guest.credit.issue` to Service Recovery, the root bounded by the supervisor's limit and
  -- the child by the specialist's, or it raises as `issue_chain` does.
  pub issue_service_recovery_delegation-IsChain :
      (supervisor_limit limit : Float) (c : Control)
      → let r = issue_service_recovery_delegation F R ids draw task supervisor_limit limit c in
        let zero_ = F.whole 0 in
        (((F.ltf supervisor_limit limit ≡ true)
            ⊎ (F.lef supervisor_limit zero_ ≡ true)
            ⊎ (F.lef limit zero_ ≡ true))
          × ((problem : String) × (r ≡ (err (value_error problem), c))))
        ⊎ ((F.ltf supervisor_limit limit ≡ false)
            × (F.lef supervisor_limit zero_ ≡ false)
            × (F.lef limit zero_ ≡ false)
            × IsChain service_recovery_workload
                (λ root child.
                  IsBounded "guest.credit.issue" supervisor_limit root
                  × IsBounded "guest.credit.issue" limit child)
                c
                r)
  unfolding issue_service_recovery_delegation
  issue_service_recovery_delegation-IsChain supervisor_limit limit c =
      elim (Bool-cases (F.ltf supervisor_limit limit)) [
        | inl a ↦ rw a (inl (inl refl, (_, refl)))
        | inr a ↦ elim (Bool-cases (F.lef supervisor_limit (F.whole 0))) [
          | inl b ↦ rw (a, b) (inl (inr (inl refl), (_, refl)))
          | inr b ↦ elim (Bool-cases (F.lef limit (F.whole 0))) [
            | inl d ↦ rw (a, b, d) (inl (inr (inr refl), (_, refl)))
            | inr d ↦
                rw (a, b, d)
                  (inr (
                    refl,
                    refl,
                    refl,
                    issue_chain-IsChain service_recovery_workload _ _ _ c
                        ((refl, refl, refl), (refl, refl, refl)),
                  ))
          ]
        ]
      ]

  -- A delegation to request a credit raises `ValueError` with nothing registered, if its
  -- limit is not positive; else it issues a linked chain for `guest.credit.request` to Service
  -- Recovery, both grants bounded by the limit, or it raises as `issue_chain` does.
  pub issue_service_recovery_credit_request_delegation-IsChain :
      (limit : Float) (c : Control)
      → let r = issue_service_recovery_credit_request_delegation F R ids draw task limit c in
        ((F.lef limit (F.whole 0) ≡ true)
          × ((problem : String) × (r ≡ (err (value_error problem), c))))
        ⊎ ((F.lef limit (F.whole 0) ≡ false)
            × IsChain service_recovery_workload
                (λ root child. IsBounded "guest.credit.request" limit root × (child ≡ root))
                c
                r)
  unfolding issue_service_recovery_credit_request_delegation
  issue_service_recovery_credit_request_delegation-IsChain limit c =
      elim (Bool-cases (F.lef limit (F.whole 0))) [
        | inl d ↦ rw d (inl (refl, (_, refl)))
        | inr d ↦ rw d (
            inr (
              refl,
              issue_chain-IsChain service_recovery_workload _ _ _ c ((refl, refl, refl), refl),
            ))
      ]
