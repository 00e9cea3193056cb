-- ===== src/Mcp/Calls.antt =====
-- The five tools of the MCP endpoint, end to end.
use asante_secure_multi_agen.Prelude.{◌∷◌, [], ℕ, String, ◌≡◌, List}
use asante_secure_multi_agen.Prelude.Exec.{message}
use asante_secure_multi_agen.Floats.{Floats}
use asante_secure_multi_agen.Ruhusa.{Ruhusa, DelegationGrant, Invocation}
use asante_secure_multi_agen.Identity.Workload.{
  Identities, guest_support_workload, property_operations_workload, reservations_workload,
  service_recovery_workload,
}
use asante_secure_multi_agen.Tools.Operations.{TextOps, Draw, credit_request_of}
use asante_secure_multi_agen.Values.{num, text, Value, Fields}
use asante_secure_multi_agen.Mcp.Server.{
  call_create_maintenance_request, call_get_reservation, call_issue_guest_credit,
  call_request_guest_credit, call_send_guest_message, create_maintenance_for_trusted_task,
  get_reservation_for_trusted_task, issue_guest_credit_for_trusted_task,
  request_guest_credit_for_trusted_task, send_guest_message_for_trusted_task, App,
}
use asante_secure_multi_agen.Mcp.Registry.{AsanteRunContext}
use asante_secure_multi_agen.Tools.Reservation.{ReadTimes}
use asante_secure_multi_agen.Tools.Credit.{CreditProvider}
use asante_secure_multi_agen.Tools.Safety.{Acts}
use asante_secure_multi_agen.Reliability.Retry.{RetryPolicy}
use asante_secure_multi_agen.Mcp.Boundary.{Trusted, handler-Trusted}
use asante_secure_multi_agen.Tools.Safety.Credit.{OnlyLedger}
use asante_secure_multi_agen.Tools.Safety.Reservation.{OnlyReads}
use asante_secure_multi_agen.Tools.Providers.{create_work_order, send_message, operation_key}
use asante_secure_multi_agen.Approvals.Requests.{create_credit_request}
use asante_secure_multi_agen.Tools.Safety.Operations.{maintenance_key}
use asante_secure_multi_agen.Tools.Safety.Credit.{issue_credit-OnlyIfAdmitted}
use asante_secure_multi_agen.Tools.Safety.Reservation.{get_reservation-OnlyIfAdmitted}
use asante_secure_multi_agen.Tools.Safety.Operations.{
  create_maintenance_request-OnlyIfAdmitted, send_guest_message-OnlyIfAdmitted,
  request_guest_credit-OnlyIfAdmitted,
}

module _ (F : Floats) (R : Ruhusa F.Float) (ids : Identities) (py : TextOps) (ttl : ℕ)
    (str : Value F.Float → String) where
  open F use {Float}
  open py use {strip, lower, sha256}

  -- The authority of a tool for a run context: its workload, its action, and its own delegation.
  abbrev pub Uses :
      String
      → String
      → (AsanteRunContext Float → List (DelegationGrant Float))
      → String
      → Fields Float
      → AsanteRunContext Float
      → Invocation Float
      → Type 0
  Uses workload action delegation reservation_id arguments c =
      Acts R ids workload action reservation_id arguments c.task (delegation c)

  -- `issue_guest_credit`: a call either raises `ToolError` with nothing asked and nothing changed,
  -- or its metadata names the Service Recovery workload and a registered task; then the stores
  -- change only if `guest.credit.issue` on the reservation, with the amount and the reason of the
  -- call, was admitted and revalidated with that task and its Service Recovery delegation, and
  -- nothing but the ledger changes.
  pub call_issue_guest_credit-Trusted :
      (provider : CreditProvider Float) (policy : RetryPolicy Float) (now : ℕ)
      (reservation_id : String) (amount : Float) (reason : String) (meta : Fields Float)
      (a : App F R ids py ttl str)
      → Trusted F R ids py ttl str meta service_recovery_workload
          (Uses service_recovery_workload "guest.credit.issue"
            (λ c. c.service_recovery_delegation)
            reservation_id
            (("amount", num amount) ∷ ("reason", text reason) ∷ []))
          (λ c. OnlyLedger F R ids sha256)
          a
          (call_issue_guest_credit F R ids py ttl str provider policy now reservation_id amount
            reason meta a)
  unfolding call_issue_guest_credit issue_guest_credit_for_trusted_task
  call_issue_guest_credit-Trusted provider policy now reservation_id amount reason meta a =
      handler-Trusted F R ids py ttl str _ service_recovery_workload _ meta _
        (Uses service_recovery_workload "guest.credit.issue" (λ c. c.service_recovery_delegation)
          reservation_id (("amount", num amount) ∷ ("reason", text reason) ∷ []))
        _ a
        (λ c.
          issue_credit-OnlyIfAdmitted F R ids sha256 provider policy now reservation_id amount
            reason c.task c.service_recovery_delegation a.world)

  -- `get_reservation`: a call either raises `ToolError` with nothing asked and nothing changed, or
  -- its metadata names the Reservations workload and a registered task; then the stores change
  -- only if `reservation.read` on the reservation was admitted and revalidated with that task and
  -- its reservations delegation, and nothing but the cache and the provider is used.
  pub call_get_reservation-Trusted :
      (times : ReadTimes) (reservation_id : String) (meta : Fields Float)
      (a : App F R ids py ttl str)
      → Trusted F R ids py ttl str meta reservations_workload
          (Uses reservations_workload "reservation.read"
            (λ c. c.reservations_delegation)
            reservation_id
            [])
          (λ c. OnlyReads R ids sha256 ttl)
          a
          (call_get_reservation F R ids py ttl str times reservation_id meta a)
  unfolding call_get_reservation get_reservation_for_trusted_task
  call_get_reservation-Trusted times reservation_id meta a =
      handler-Trusted F R ids py ttl str _ reservations_workload _ meta _
        (Uses reservations_workload "reservation.read" (λ c. c.reservations_delegation)
          reservation_id [])
        _ a
        (λ c.
          get_reservation-OnlyIfAdmitted R ids sha256 ttl times reservation_id c.task
            c.reservations_delegation a.world)

  -- `create_maintenance_request`: a call either raises `ToolError` with nothing asked and nothing
  -- changed, or its metadata names the Property Operations workload and a registered task; then the
  -- stores change only if `maintenance.create` on the reservation, with the arguments of the call,
  -- was admitted and revalidated with that task and its property-operations delegation, by one
  -- `create` of a work order under the key of that task.
  pub call_create_maintenance_request-Trusted :
      (draw : Draw) (reservation_id category urgency description : String) (meta : Fields Float)
      (a : App F R ids py ttl str)
      → Trusted F R ids py ttl str meta property_operations_workload
          (Uses property_operations_workload "maintenance.create"
            (λ c. c.property_operations_delegation)
            reservation_id
            (("category", text category)
              ∷ ("urgency", text (lower (strip urgency)))
              ∷ ("description", text description)
              ∷ []))
          (λ c b b'. b' ≡ record b {
            maintenance =
                (create_work_order draw.uuid draw.now reservation_id category
                  (lower (strip urgency))
                  description
                  (maintenance_key F R ids py draw reservation_id category
                    (lower (strip urgency))
                    description
                    c.task)
                  b.maintenance).1;
          })
          a
          (call_create_maintenance_request F R ids py ttl str draw reservation_id category urgency
            description meta a)
  unfolding call_create_maintenance_request create_maintenance_for_trusted_task
  call_create_maintenance_request-Trusted draw reservation_id category urgency description meta a =
      handler-Trusted F R ids py ttl str _ property_operations_workload _ meta _
        (Uses property_operations_workload "maintenance.create"
          (λ c. c.property_operations_delegation) reservation_id
          (("category", text category)
            ∷ ("urgency", text (lower (strip urgency)))
            ∷ ("description", text description)
            ∷ []))
        _ a
        (λ c.
          (create_maintenance_request-OnlyIfAdmitted F R ids py draw reservation_id category urgency
            description c.task c.property_operations_delegation a.world).0)

  -- `send_guest_message`: a call either raises `ToolError` with nothing asked and nothing changed,
  -- or its metadata names the Guest Support workload and a registered task; then the stores change
  -- only if `guest.message.send` on the reservation, with the message of the call, was admitted and
  -- revalidated with that task and its message delegation, by one `send` under the key of that
  -- task.
  pub call_send_guest_message-Trusted :
      (draw : Draw) (reservation_id message : String) (meta : Fields Float)
      (a : App F R ids py ttl str)
      → Trusted F R ids py ttl str meta guest_support_workload
          (Uses guest_support_workload "guest.message.send"
            (λ c. c.guest_support_message_delegation)
            reservation_id
            (("message", text message) ∷ []))
          (λ c b b'. b' ≡ record b {
            messages =
                (send_message draw.uuid draw.now reservation_id message
                  (operation_key sha256 "guest.message.send" c.task.task_id reservation_id
                    (strip message))
                  b.messages).1;
          })
          a
          (call_send_guest_message F R ids py ttl str draw reservation_id message meta a)
  unfolding call_send_guest_message send_guest_message_for_trusted_task
  call_send_guest_message-Trusted draw reservation_id message meta a =
      handler-Trusted F R ids py ttl str _ guest_support_workload _ meta _
        (Uses guest_support_workload "guest.message.send" (λ c. c.guest_support_message_delegation)
          reservation_id (("message", text message) ∷ []))
        _ a
        (λ c.
          (send_guest_message-OnlyIfAdmitted F R ids py draw reservation_id message c.task
            c.guest_support_message_delegation a.world).0)

  -- `request_guest_credit`: a call either raises `ToolError` with nothing asked and nothing
  -- changed, or its metadata names the Service Recovery workload and a registered task; then the
  -- stores change only if `guest.credit.request` on the reservation, with the amount and the reason
  -- of the call, was admitted and revalidated with that task and its credit-request delegation, by
  -- one `create_credit_request` of that task.
  pub call_request_guest_credit-Trusted :
      (draw : Draw) (reservation_id : String) (amount : Float) (reason : String)
      (meta : Fields Float) (a : App F R ids py ttl str)
      → Trusted F R ids py ttl str meta service_recovery_workload
          (Uses service_recovery_workload "guest.credit.request"
            (λ c. c.service_recovery_credit_request_delegation)
            reservation_id
            (("amount", num amount) ∷ ("reason", text reason) ∷ []))
          (λ c b b'. b' ≡ record b {
            approvals =
                (create_credit_request F
                  (credit_request_of F reservation_id amount reason c.task)
                  draw.uuid
                  draw.now
                  b.approvals).1;
          })
          a
          (call_request_guest_credit F R ids py ttl str draw reservation_id amount reason meta a)
  unfolding call_request_guest_credit request_guest_credit_for_trusted_task
  call_request_guest_credit-Trusted draw reservation_id amount reason meta a =
      handler-Trusted F R ids py ttl str _ service_recovery_workload _ meta _
        (Uses service_recovery_workload "guest.credit.request"
          (λ c. c.service_recovery_credit_request_delegation) reservation_id
          (("amount", num amount) ∷ ("reason", text reason) ∷ []))
        _ a
        (λ c.
          request_guest_credit-OnlyIfAdmitted F R ids py draw reservation_id amount reason c.task
            c.service_recovery_credit_request_delegation a.world)
