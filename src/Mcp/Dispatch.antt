-- ===== src/Mcp/Dispatch.antt =====
-- A call of any of the five tools of the MCP endpoint, with its arguments, and what each of them
-- may do. The clocks and draws of a call are arguments of it.
use asante_secure_multi_agen.Prelude.{◌∷◌, [], ℕ, String, ◌≡◌}
use asante_secure_multi_agen.Prelude.Exec.{Action}
use asante_secure_multi_agen.Floats.{Floats}
use asante_secure_multi_agen.Ruhusa.{Ruhusa, Invocation}
use asante_secure_multi_agen.Values.{num, text, Value, Fields}
use asante_secure_multi_agen.World.{Business}
use asante_secure_multi_agen.Identity.Workload.{
  Identities, guest_support_workload, property_operations_workload, reservations_workload,
  service_recovery_workload,
}
use asante_secure_multi_agen.Mcp.Registry.{AsanteRunContext}
use asante_secure_multi_agen.Mcp.Server.{
  App, call_create_maintenance_request, call_get_reservation, call_issue_guest_credit,
  call_request_guest_credit, call_send_guest_message,
}
use asante_secure_multi_agen.Tools.Operations.{TextOps, Draw, credit_request_of}
use asante_secure_multi_agen.Tools.Reservation.{ReadTimes}
use asante_secure_multi_agen.Tools.Credit.{CreditProvider}
use asante_secure_multi_agen.Tools.Providers.{create_work_order, send_message, operation_key}
use asante_secure_multi_agen.Approvals.Requests.{create_credit_request}
use asante_secure_multi_agen.Reliability.Retry.{RetryPolicy}
use asante_secure_multi_agen.Mcp.Boundary.{Trusted}
use asante_secure_multi_agen.Tools.Safety.Credit.{OnlyLedger}
use asante_secure_multi_agen.Tools.Safety.Reservation.{OnlyReads}
use asante_secure_multi_agen.Tools.Safety.Operations.{maintenance_key}
use asante_secure_multi_agen.Mcp.Calls.{
  Uses, call_issue_guest_credit-Trusted, call_get_reservation-Trusted,
  call_create_maintenance_request-Trusted, call_send_guest_message-Trusted,
  call_request_guest_credit-Trusted,
}

pub data McpCall (N : Type 0) : Type 0 where
  issue_guest_credit :
      (now : ℕ) (reservation_id : String) (amount : N) (reason : String) → McpCall N
  get_reservation : (times : ReadTimes) (reservation_id : String) → McpCall N
  create_maintenance_request :
      (draw : Draw) (reservation_id category urgency description : String) → McpCall N
  send_guest_message : (draw : Draw) (reservation_id said : String) → McpCall N
  request_guest_credit :
      (draw : Draw) (reservation_id : String) (amount : N) (reason : String) → McpCall N

module _ {N : Type 0} where
  -- The name under which the tool is registered.
  unfoldable pub tool_name : McpCall N → String
  tool_name (issue_guest_credit now reservation_id amount reason) = "issue_guest_credit"
  tool_name (get_reservation times reservation_id) = "get_reservation"
  tool_name (create_maintenance_request draw reservation_id category urgency description) =
      "create_maintenance_request"
  tool_name (send_guest_message draw reservation_id said) = "send_guest_message"
  tool_name (request_guest_credit draw reservation_id amount reason) = "request_guest_credit"

  -- The workload that may call the tool.
  unfoldable pub expected_workload : McpCall N → String
  expected_workload (issue_guest_credit now reservation_id amount reason) =
      service_recovery_workload
  expected_workload (get_reservation times reservation_id) = reservations_workload
  expected_workload (create_maintenance_request draw reservation_id category urgency description) =
      property_operations_workload
  expected_workload (send_guest_message draw reservation_id said) = guest_support_workload
  expected_workload (request_guest_credit draw reservation_id amount reason) =
      service_recovery_workload

module _ (F : Floats) (R : Ruhusa F.Float) (ids : Identities) (py : TextOps) (ttl : ℕ)
    (str : Value F.Float → String) (provider : CreditProvider F.Float)
    (policy : RetryPolicy F.Float) where
  open F use {Float}
  open py use {strip, lower, sha256}

  unfoldable pub serve :
      McpCall Float → Fields Float → Action (App F R ids py ttl str) (Fields Float)
  serve (issue_guest_credit now reservation_id amount reason) meta =
      call_issue_guest_credit F R ids py ttl str provider policy now reservation_id amount reason
        meta
  serve (get_reservation times reservation_id) meta =
      call_get_reservation F R ids py ttl str times reservation_id meta
  serve (create_maintenance_request draw reservation_id category urgency description) meta =
      call_create_maintenance_request F R ids py ttl str draw reservation_id category urgency
        description meta
  serve (send_guest_message draw reservation_id said) meta =
      call_send_guest_message F R ids py ttl str draw reservation_id said meta
  serve (request_guest_credit draw reservation_id amount reason) meta =
      call_request_guest_credit F R ids py ttl str draw reservation_id amount reason meta

  -- The invocations that a call may have admitted in a run context.
  unfoldable pub Invokes : McpCall Float → AsanteRunContext Float → Invocation Float → Type 0
  Invokes (issue_guest_credit now reservation_id amount reason) =
      Uses F R ids py ttl str service_recovery_workload "guest.credit.issue"
        (λ c. c.service_recovery_delegation) reservation_id
        (("amount", num amount) ∷ ("reason", text reason) ∷ [])
  Invokes (get_reservation times reservation_id) =
      Uses F R ids py ttl str reservations_workload "reservation.read"
        (λ c. c.reservations_delegation) reservation_id []
  Invokes (create_maintenance_request draw reservation_id category urgency description) =
      Uses F R ids py ttl str property_operations_workload "maintenance.create"
        (λ c. c.property_operations_delegation) reservation_id
        (("category", text category)
          ∷ ("urgency", text (lower (strip urgency)))
          ∷ ("description", text description)
          ∷ [])
  Invokes (send_guest_message draw reservation_id said) =
      Uses F R ids py ttl str guest_support_workload "guest.message.send"
        (λ c. c.guest_support_message_delegation) reservation_id (("message", text said) ∷ [])
  Invokes (request_guest_credit draw reservation_id amount reason) =
      Uses F R ids py ttl str service_recovery_workload "guest.credit.request"
        (λ c. c.service_recovery_credit_request_delegation) reservation_id
        (("amount", num amount) ∷ ("reason", text reason) ∷ [])

  -- What a call may do to the stores in a run context.
  unfoldable pub Changes :
      McpCall Float → AsanteRunContext Float → Business Float → Business Float → Type 0
  Changes (issue_guest_credit now reservation_id amount reason) c b b' =
      OnlyLedger F R ids sha256 b b'
  Changes (get_reservation times reservation_id) c b b' = OnlyReads R ids sha256 ttl b b'
  Changes (create_maintenance_request draw reservation_id category urgency description) c b b' =
      b' ≡ record b {
        maintenance =
            (create_work_order draw.uuid draw.now reservation_id category (lower (strip urgency))
              description
              (maintenance_key F R ids py draw reservation_id category (lower (strip urgency))
                description c.task)
              b.maintenance).1;
      }
  Changes (send_guest_message draw reservation_id said) c b b' = b' ≡ record b {
    messages =
        (send_message draw.uuid draw.now reservation_id said
          (operation_key sha256 "guest.message.send" c.task.task_id reservation_id (strip said))
          b.messages).1;
  }
  Changes (request_guest_credit draw reservation_id amount reason) c b b' = b' ≡ record b {
    approvals =
        (create_credit_request F (credit_request_of F reservation_id amount reason c.task) draw.uuid
          draw.now b.approvals).1;
  }

  pub serve-Trusted :
      (call : McpCall Float) (meta : Fields Float) (a : App F R ids py ttl str)
      → Trusted F R ids py ttl str meta
          (expected_workload call)
          (Invokes call)
          (Changes call)
          a
          (serve call meta a)
  unfolding serve expected_workload Invokes Changes
  serve-Trusted (issue_guest_credit now reservation_id amount reason) meta a =
      call_issue_guest_credit-Trusted F R ids py ttl str provider policy now reservation_id amount
        reason meta a
  serve-Trusted (get_reservation times reservation_id) meta a =
      call_get_reservation-Trusted F R ids py ttl str times reservation_id meta a
  serve-Trusted (create_maintenance_request draw reservation_id category urgency description) meta
        a =
      call_create_maintenance_request-Trusted F R ids py ttl str draw reservation_id category
        urgency description meta a
  serve-Trusted (send_guest_message draw reservation_id said) meta a =
      call_send_guest_message-Trusted F R ids py ttl str draw reservation_id said meta a
  serve-Trusted (request_guest_credit draw reservation_id amount reason) meta a =
      call_request_guest_credit-Trusted F R ids py ttl str draw reservation_id amount reason meta a
