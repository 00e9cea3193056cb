-- ===== src/Tools/Safety/Operations.antt =====
-- `SecuredGuestOperationsTool`: each method acts for its own specialist and on its own store.
use asante_secure_multi_agen.Values.{num, text}
use asante_secure_multi_agen.Prelude.{
  String, ◌≡◌, refl, ◌∙◌, inl, inr, true, false, List, [], ◌∷◌, ◌==◌, Bool-cases, fstring,
}
use asante_secure_multi_agen.Prelude.Exec.{ok, message, Outcome-cases}
use asante_secure_multi_agen.Tools.Safety.{
  OnlyIfAdmitted, untouched, Acts, execute_operation-OnlyIfAdmitted, Floats, Ruhusa, Identities,
  TextOps, TaskContext, DelegationGrant, World, Business, OnlyIfAdmitted-map,
}
use asante_secure_multi_agen.Tools.Operations.{
  Draw, create_maintenance_request, request_guest_credit, send_guest_message, create_request,
  is_urgency, credit_request_of,
}
use asante_secure_multi_agen.Tools.Providers.{operation_key, create_work_order, send_message}
use asante_secure_multi_agen.Identity.Workload.{
  guest_support_workload, property_operations_workload, service_recovery_workload,
}
use asante_secure_multi_agen.Tools.Gate.{blocked_result}
use asante_secure_multi_agen.Approvals.Requests.{create_credit_request, find_credit_request}

module _ (F : Floats) (R : Ruhusa F.Float) (ids : Identities) (py : TextOps) (draw : Draw) where
  open F use {Float}
  open py use {strip, lower, sha256}

  -- The key of a maintenance request.
  abbrev pub maintenance_key : String → String → String → String → TaskContext → String
  maintenance_key reservation_id category urgency description task =
      operation_key sha256 "maintenance.create" task.task_id reservation_id
        (fstring (strip category ∷ "\n" ∷ urgency ∷ "\n" ∷ strip description ∷ []))

  -- A maintenance request changes no store, unless the library has admitted and revalidated
  -- `maintenance.create` on the reservation for the Property Operations workload, with the task
  -- and the delegation chain of the call and no longer than the task; then the only change is
  -- that of one `create` in the maintenance store. With an unsupported urgency the call is
  -- blocked and changes nothing at all.
  pub create_maintenance_request-OnlyIfAdmitted :
      (reservation_id category urgency description : String) (task : TaskContext)
      (chain : List (DelegationGrant Float)) (w : World R)
      → let u = lower (strip urgency) in
        let r =
          create_maintenance_request F R ids py draw reservation_id category urgency description
            task chain w in
        OnlyIfAdmitted R
          (Acts R ids property_operations_workload "maintenance.create" reservation_id
            (("category", text category)
              ∷ ("urgency", text u)
              ∷ ("description", text description)
              ∷ [])
            task
            chain)
          (λ b b'. b' ≡ record b {
            maintenance =
                (create_work_order draw.uuid draw.now reservation_id category u description
                  (maintenance_key reservation_id category u description task)
                  b.maintenance).1;
          })
          w
          r
        × (is_urgency u ≡ false
            → r ≡ (
              ok (
                  blocked_result "deny"
                    (fstring ("unsupported maintenance urgency: " ∷ urgency ∷ []))),
              w,
            ))
  unfolding create_maintenance_request
  create_maintenance_request-OnlyIfAdmitted reservation_id category urgency description task chain
        w =
      elim (Bool-cases (is_urgency (lower (strip urgency)))) [
        | inr no_ ↦ rw no_ (untouched refl (_, _, refl), λ _. refl)
        | inl yes_ ↦ rw yes_ (
          execute_operation-OnlyIfAdmitted F R ids py "maintenance.create"
              property_operations_workload reservation_id _ task chain draw.now _ w,
          λ h. cc,
        )
      ]

  -- A guest message changes no store, unless the library has admitted and revalidated
  -- `guest.message.send` on the reservation for the Guest Support workload, with the task and the
  -- delegation chain of the call and no longer than the task; then the only change is that of one
  -- `send` in the outbox. With a message that is blank the call is blocked and changes nothing.
  pub send_guest_message-OnlyIfAdmitted :
      (reservation_id message : String) (task : TaskContext) (chain : List (DelegationGrant Float))
      (w : World R)
      → let r = send_guest_message F R ids py draw reservation_id message task chain w in
        OnlyIfAdmitted R
          (Acts R ids guest_support_workload "guest.message.send" reservation_id
            (("message", text message) ∷ [])
            task
            chain)
          (λ b b'. b' ≡ record b {
            messages =
                (send_message draw.uuid draw.now reservation_id message
                  (operation_key sha256 "guest.message.send" task.task_id reservation_id
                    (strip message))
                  b.messages).1;
          })
          w
          r
        × ((strip message == "") ≡ true → r ≡ (ok (blocked_result "deny" "message is empty"), w))
  unfolding send_guest_message
  send_guest_message-OnlyIfAdmitted reservation_id message task chain w =
      elim (Bool-cases (strip message == "")) [
        | inl blank ↦ rw blank (untouched refl (_, _, refl), λ _. refl)
        | inr said ↦ rw said (
          execute_operation-OnlyIfAdmitted F R ids py "guest.message.send" guest_support_workload
              reservation_id _ task chain draw.now _ w,
          λ h. cc,
        )
      ]

  create_request-business :
      (reservation_id : String) (amount : Float) (reason : String) (task : TaskContext)
      (b : Business Float)
      → (create_request F draw reservation_id amount reason task b).1 ≡ record b {
        approvals =
            (create_credit_request F
              (credit_request_of F reservation_id amount reason task)
              draw.uuid
              draw.now
              b.approvals).1;
      }
  unfolding create_request find_credit_request
  create_request-business reservation_id amount reason task b =
      elim (Outcome-cases (
        create_credit_request F (credit_request_of F reservation_id amount reason task) draw.uuid
          draw.now b.approvals)) [ inl (r, t, h) ↦ rw h | inr (e, t, h) ↦ rw h ]

  -- A credit request changes no store, unless the library has admitted and revalidated
  -- `guest.credit.request` on the reservation for the Service Recovery workload, with the task
  -- and the delegation chain of the call and no longer than the task; then the only change is
  -- that of one `create_credit_request` in the approval table, so that no credit is issued.
  pub request_guest_credit-OnlyIfAdmitted :
      (reservation_id : String) (amount : Float) (reason : String) (task : TaskContext)
      (chain : List (DelegationGrant Float)) (w : World R)
      → OnlyIfAdmitted R
          (Acts R ids service_recovery_workload "guest.credit.request" reservation_id
            (("amount", num amount) ∷ ("reason", text reason) ∷ [])
            task
            chain)
          (λ b b'. b' ≡ record b {
            approvals =
                (create_credit_request F
                  (credit_request_of F reservation_id amount reason task)
                  draw.uuid
                  draw.now
                  b.approvals).1;
          })
          w
          (request_guest_credit F R ids py draw reservation_id amount reason task chain w)
  unfolding request_guest_credit
  request_guest_credit-OnlyIfAdmitted reservation_id amount reason task chain w =
      OnlyIfAdmitted-map R _ _ _ w _
        (λ b b' e. e ∙ create_request-business reservation_id amount reason task b)
        (execute_operation-OnlyIfAdmitted F R ids py "guest.credit.request"
          service_recovery_workload reservation_id _ task chain draw.now _ w)
