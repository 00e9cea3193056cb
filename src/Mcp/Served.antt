-- ===== src/Mcp/Served.antt =====
-- How the server goes on with a call once it has read the metadata.
use asante_secure_multi_agen.Prelude.{ℕ, String, ◌≡◌, refl, false, ◌==◌, eq_refl}
use asante_secure_multi_agen.Prelude.Exec.{tool_error, ok, err, Action, pure, catch, ◌>>=◌, ◌>>◌}
use asante_secure_multi_agen.Values.{Fields, Value}
use asante_secure_multi_agen.Mcp.Server.{
  task_id_from_meta, workload_from_meta, App, handler, call_issue_guest_credit, require_specialist,
  unavailable, call_get_reservation, on_world, status_outcome, call_create_maintenance_request,
  issue_guest_credit_for_trusted_task, call_send_guest_message, cache_outcome,
  call_request_guest_credit, get_reservation_for_trusted_task, create_maintenance_for_trusted_task,
  send_guest_message_for_trusted_task, request_guest_credit_for_trusted_task,
}
use asante_secure_multi_agen.Mcp.Dispatch.{
  tool_name, expected_workload, McpCall, serve, issue_guest_credit, get_reservation,
  create_maintenance_request, send_guest_message, request_guest_credit,
}
use asante_secure_multi_agen.Floats.{Floats}
use asante_secure_multi_agen.Ruhusa.{Ruhusa}
use asante_secure_multi_agen.Identity.Workload.{Identities}
use asante_secure_multi_agen.Tools.Operations.{TextOps}
use asante_secure_multi_agen.Tools.Credit.{CreditProvider}
use asante_secure_multi_agen.Reliability.Retry.{RetryPolicy}
use asante_secure_multi_agen.Metrics.{record_mcp_call}
use asante_secure_multi_agen.World.{on_meter}

module _ (F : Floats) (R : Ruhusa F.Float) (ids : Identities) (py : TextOps) (ttl : ℕ)
    (str : Value F.Float → String) (provider : CreditProvider F.Float)
    (policy : RetryPolicy F.Float) where
  open F use {Float}

  -- What a handler does once the metadata is accepted.
  abbrev accepted :
      String
      → (Fields Float → String)
      → (String → Action (App F R ids py ttl str) (Fields Float))
      → String
      → Action (App F R ids py ttl str) (Fields Float)
  accepted tool_name outcome call task_id = do
    result ← catch (call task_id) (unavailable F R ids py ttl str tool_name)
    on_world F R ids py ttl str (on_meter R (record_mcp_call (outcome result) tool_name))
    pure result

  handler-accepted :
      (tool_name workload : String) (outcome : Fields Float → String) (meta : Fields Float)
      (call : String → Action (App F R ids py ttl str) (Fields Float)) (task_id : String)
      (a : App F R ids py ttl str)
      → workload_from_meta meta ≡ ok workload
      → task_id_from_meta meta ≡ ok task_id
      → handler F R ids py ttl str tool_name workload outcome meta call a
        ≡ accepted tool_name outcome call task_id a
  unfolding handler require_specialist record_mcp_call
  handler-accepted tool_name workload outcome meta call task_id a hw ht =
      rw (hw, eq_refl workload, ht) refl

  handler-refused :
      (tool_name actual workload : String) (outcome : Fields Float → String) (meta : Fields Float)
      (call : String → Action (App F R ids py ttl str) (Fields Float)) (a : App F R ids py ttl str)
      → workload_from_meta meta ≡ ok actual
      → (actual == workload) ≡ false
      → (problem : String) × (handler F R ids py ttl str tool_name workload outcome meta call a
          ≡ (err (tool_error problem), a))
  unfolding handler require_specialist
  handler-refused tool_name actual workload outcome meta call a hw ne = rw (hw, ne) (_, refl)

  -- The run of a call in a task, by the tool that it names.
  unfoldable pub serve_in_task :
      McpCall Float → String → Action (App F R ids py ttl str) (Fields Float)
  serve_in_task (issue_guest_credit now reservation_id amount reason) =
      accepted "issue_guest_credit" (status_outcome F R ids py ttl str) (λ task_id.
        issue_guest_credit_for_trusted_task F R ids py ttl str provider policy now task_id
          reservation_id amount reason)
  serve_in_task (get_reservation times reservation_id) =
      accepted "get_reservation" (cache_outcome F R ids py ttl str) (λ task_id.
        get_reservation_for_trusted_task F R ids py ttl str times task_id reservation_id)
  serve_in_task (create_maintenance_request draw reservation_id category urgency description) =
      accepted "create_maintenance_request" (status_outcome F R ids py ttl str) (λ task_id.
        create_maintenance_for_trusted_task F R ids py ttl str draw task_id reservation_id category
          urgency description)
  serve_in_task (send_guest_message draw reservation_id said) =
      accepted "send_guest_message" (status_outcome F R ids py ttl str) (λ task_id.
        send_guest_message_for_trusted_task F R ids py ttl str draw task_id reservation_id said)
  serve_in_task (request_guest_credit draw reservation_id amount reason) =
      accepted "request_guest_credit" (status_outcome F R ids py ttl str) (λ task_id.
        request_guest_credit_for_trusted_task F R ids py ttl str draw task_id reservation_id amount
          reason)

  pub serve-accepted :
      (call : McpCall Float) (meta : Fields Float) (task_id : String) (a : App F R ids py ttl str)
      → workload_from_meta meta ≡ ok (expected_workload call)
      → task_id_from_meta meta ≡ ok task_id
      → serve F R ids py ttl str provider policy call meta a ≡ serve_in_task call task_id a
  unfolding serve serve_in_task expected_workload call_issue_guest_credit call_get_reservation
      call_create_maintenance_request call_send_guest_message call_request_guest_credit
  serve-accepted (issue_guest_credit now reservation_id amount reason) meta task_id a hw ht =
      handler-accepted _ _ _ meta _ task_id a hw ht
  serve-accepted (get_reservation times reservation_id) meta task_id a hw ht =
      handler-accepted _ _ _ meta _ task_id a hw ht
  serve-accepted (create_maintenance_request draw reservation_id category urgency description) meta
        task_id a hw ht =
      handler-accepted _ _ _ meta _ task_id a hw ht
  serve-accepted (send_guest_message draw reservation_id said) meta task_id a hw ht =
      handler-accepted _ _ _ meta _ task_id a hw ht
  serve-accepted (request_guest_credit draw reservation_id amount reason) meta task_id a hw ht =
      handler-accepted _ _ _ meta _ task_id a hw ht

  pub serve-refused :
      (call : McpCall Float) (meta : Fields Float) (actual : String) (a : App F R ids py ttl str)
      → workload_from_meta meta ≡ ok actual
      → (actual == expected_workload call) ≡ false
      → (problem : String) × (serve F R ids py ttl str provider policy call meta a
          ≡ (err (tool_error problem), a))
  unfolding serve expected_workload call_issue_guest_credit call_get_reservation
      call_create_maintenance_request call_send_guest_message call_request_guest_credit
  serve-refused (issue_guest_credit now reservation_id amount reason) meta actual a hw ne =
      handler-refused _ actual _ _ meta _ a hw ne
  serve-refused (get_reservation times reservation_id) meta actual a hw ne =
      handler-refused _ actual _ _ meta _ a hw ne
  serve-refused (create_maintenance_request draw reservation_id category urgency description) meta
        actual a hw ne =
      handler-refused _ actual _ _ meta _ a hw ne
  serve-refused (send_guest_message draw reservation_id said) meta actual a hw ne =
      handler-refused _ actual _ _ meta _ a hw ne
  serve-refused (request_guest_credit draw reservation_id amount reason) meta actual a hw ne =
      handler-refused _ actual _ _ meta _ a hw ne
