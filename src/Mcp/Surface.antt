-- ===== src/Mcp/Surface.antt =====
-- The tools that each client offers to its agent, and those that the server serves it.
use asante_secure_multi_agen.Prelude.{
  ℕ, String, ◌≡◌, refl, ap, ◌∙◌, ◌⊎◌, inl, inr, true, false, Option, some, List, [], ◌∷◌, arith,
  ◌==◌, eq_iff, Bool-cases, member,
}
use asante_secure_multi_agen.Prelude.Dict.{get}
use asante_secure_multi_agen.Prelude.Exec.{tool_error, ok, err, Result-cases}
use asante_secure_multi_agen.Values.{Fields, text, Value}
use asante_secure_multi_agen.Mcp.Registry.{AsanteRunContext}
use asante_secure_multi_agen.Mcp.Client.{
  Headers, resolve_specialist_meta, Specialist, guest_support, property_operations, reservations,
  service_recovery, build_client, build_specialist_mcp_client, McpClient,
  build_reservations_mcp_client, build_property_operations_mcp_client,
  build_guest_support_mcp_client, build_service_recovery_mcp_client,
}
use asante_secure_multi_agen.Mcp.Server.{
  asante_task_meta_key, asante_workload_meta_key, task_id_from_meta, workload_from_meta, App,
}
use asante_secure_multi_agen.Mcp.Dispatch.{
  tool_name, expected_workload, McpCall, serve, issue_guest_credit, get_reservation,
  create_maintenance_request, send_guest_message, request_guest_credit,
}
use asante_secure_multi_agen.Floats.{Floats}
use asante_secure_multi_agen.Ruhusa.{Ruhusa}
use asante_secure_multi_agen.Identity.Workload.{
  reservations_workload, Identities, property_operations_workload, guest_support_workload,
  service_recovery_workload,
}
use asante_secure_multi_agen.Tools.Operations.{TextOps}
use asante_secure_multi_agen.Tools.Credit.{CreditProvider}
use asante_secure_multi_agen.Reliability.Retry.{RetryPolicy}
use asante_secure_multi_agen.Reliability.Config.{
  Builtins, Environment, mcp_reliability_config_from_env,
}
use asante_secure_multi_agen.Mcp.Served.{serve-accepted, serve-refused, serve_in_task}

-- The headers as the server receives them, in the `_meta` of the request.
abbrev pub received : {N : Type 0} → Headers → Fields N
received [] = []
received ((k, v) ∷ headers) = (k, text v) ∷ received headers

-- What is documented of `propagate.inject` with its default propagators: it writes no headers but
-- these.
abbrev pub OnlyTraceHeaders : (Headers → Headers) → Type 0
OnlyTraceHeaders inject =
    (headers : Headers) (k : String)
    → (k == "traceparent") ≡ false
    → (k == "tracestate") ≡ false
    → (k == "baggage") ≡ false
    → get (inject headers) k ≡ get headers k

module _ {N : Type 0} where
  get-received :
      (headers : Headers) (k v : String)
      → get headers k ≡ some v
      → get (received {N = N} headers) k ≡ some (text v)
  get-received [] k v h = ground arith
  get-received ((j, u) ∷ headers) k v h = ground (arith, get-received headers k v)

  module _ (inject : Headers → Headers) (only : OnlyTraceHeaders inject) where
    pub resolved-from_meta :
        (workload : String) (c : AsanteRunContext N)
        → (workload == "") ≡ false
        → (c.task.task_id == "") ≡ false
        → (headers : Headers) × (resolve_specialist_meta inject workload (some c) ≡ some headers)
          × (workload_from_meta (received {N = N} headers) ≡ ok workload)
          × (task_id_from_meta (received {N = N} headers) ≡ ok c.task.task_id)
    unfolding resolve_specialist_meta workload_from_meta task_id_from_meta
    resolved-from_meta workload c nw nt = (
      _,
      refl,
      rw (get-received _ _ workload (only _ asante_workload_meta_key refl refl refl), nw) refl,
      rw (get-received _ _ c.task.task_id (only _ asante_task_meta_key refl refl refl), nt) refl,
    )

-- The workload and the tools of a specialist.
unfoldable pub workload_of : Specialist → String
workload_of reservations = reservations_workload
workload_of property_operations = property_operations_workload
workload_of guest_support = guest_support_workload
workload_of service_recovery = service_recovery_workload

pub workload_of-nonempty : (s : Specialist) → (workload_of s == "") ≡ false
unfolding workload_of
workload_of-nonempty reservations = refl
workload_of-nonempty property_operations = refl
workload_of-nonempty guest_support = refl
workload_of-nonempty service_recovery = refl

unfoldable pub tools_of : Specialist → List String
tools_of reservations = "get_reservation" ∷ []
tools_of property_operations = "create_maintenance_request" ∷ []
tools_of guest_support = "send_guest_message" ∷ []
tools_of service_recovery = "issue_guest_credit" ∷ "request_guest_credit" ∷ []

module _ {N : Type 0} where
  tools_of-expected :
      (s : Specialist) (call : McpCall N)
      → member (tool_name call) (tools_of s) ≡ (workload_of s == expected_workload call)
  unfolding tool_name tools_of workload_of expected_workload
  tools_of-expected reservations (issue_guest_credit now id amount reason) = refl
  tools_of-expected reservations (get_reservation times id) = refl
  tools_of-expected reservations (create_maintenance_request draw id category urgency said) = refl
  tools_of-expected reservations (send_guest_message draw id said) = refl
  tools_of-expected reservations (request_guest_credit draw id amount reason) = refl
  tools_of-expected property_operations (issue_guest_credit now id amount reason) = refl
  tools_of-expected property_operations (get_reservation times id) = refl
  tools_of-expected property_operations (create_maintenance_request draw id category urgency said) =
      refl
  tools_of-expected property_operations (send_guest_message draw id said) = refl
  tools_of-expected property_operations (request_guest_credit draw id amount reason) = refl
  tools_of-expected guest_support (issue_guest_credit now id amount reason) = refl
  tools_of-expected guest_support (get_reservation times id) = refl
  tools_of-expected guest_support (create_maintenance_request draw id category urgency said) = refl
  tools_of-expected guest_support (send_guest_message draw id said) = refl
  tools_of-expected guest_support (request_guest_credit draw id amount reason) = refl
  tools_of-expected service_recovery (issue_guest_credit now id amount reason) = refl
  tools_of-expected service_recovery (get_reservation times id) = refl
  tools_of-expected service_recovery (create_maintenance_request draw id category urgency said) =
      refl
  tools_of-expected service_recovery (send_guest_message draw id said) = refl
  tools_of-expected service_recovery (request_guest_credit draw id amount reason) = refl

module _ (inject : Headers → Headers) (F : Floats) (settings : Builtins F)
    (getenv : Environment) where
  open F use {Float}

  built :
      (name workload : String) (tools : List String) (url : Option String)
      (client : McpClient Float)
      → build_specialist_mcp_client inject F settings getenv name workload tools url ≡ ok client
      → (client.allowed_tool_names ≡ tools)
        × (client.tool_meta_resolver ≡ resolve_specialist_meta inject workload)
  unfolding build_specialist_mcp_client
  built name workload tools url client h =
      elim (Result-cases (mcp_reliability_config_from_env F settings getenv)) [
        | inl (r, e) ↦ ground (arith, e)
        | inr (problem, e) ↦ ground (arith, e)
      ]

  pub built_client :
      (s : Specialist) (url : Option String) (client : McpClient Float)
      → build_client inject F settings getenv s url ≡ ok client
      → (client.allowed_tool_names ≡ tools_of s)
        × (client.tool_meta_resolver ≡ resolve_specialist_meta inject (workload_of s))
  unfolding build_client tools_of workload_of build_reservations_mcp_client
      build_property_operations_mcp_client build_guest_support_mcp_client
      build_service_recovery_mcp_client
  built_client reservations url client = built _ reservations_workload _ url client
  built_client property_operations url client = built _ property_operations_workload _ url client
  built_client guest_support url client = built _ guest_support_workload _ url client
  built_client service_recovery url client = built _ service_recovery_workload _ url client

  module _ (R : Ruhusa Float) (ids : Identities) (py : TextOps) (ttl : ℕ)
      (str : Value Float → String) (provider : CreditProvider Float) (policy : RetryPolicy Float)
      (only : OnlyTraceHeaders inject) where
    -- The metadata that a specialist's client makes for a run with a task id is accepted by the
    -- server as this workload's and this task's. A call of a tool that the client offers to its
    -- agent is then run in the task; a call of any other tool is refused with `ToolError`, and
    -- nothing changes. So the server enforces what the client's tool filter offers.
    pub client_surface :
        (s : Specialist) (url : Option String) (client : McpClient Float)
        (c : AsanteRunContext Float) (call : McpCall Float) (a : App F R ids py ttl str)
        → build_client inject F settings getenv s url ≡ ok client
        → (c.task.task_id == "") ≡ false
        → (headers : Headers) × (client.tool_meta_resolver (some c) ≡ some headers)
          × (workload_from_meta (received {N = Float} headers) ≡ ok (workload_of s))
          × (task_id_from_meta (received {N = Float} headers) ≡ ok c.task.task_id)
          × (((member (tool_name call) client.allowed_tool_names ≡ true)
                × (serve F R ids py ttl str provider policy call (received headers) a
                    ≡ serve_in_task F R ids py ttl str provider policy call c.task.task_id a))
              ⊎ ((member (tool_name call) client.allowed_tool_names ≡ false)
                  × ((problem : String) × (serve F R ids py ttl str provider policy call
                          (received headers)
                          a
                        ≡ (err (tool_error problem), a)))))
    client_surface s url client c call a h nt =
        let (tools, resolver) = built_client s url client h in
        let (headers, resolved, hw, ht) =
          resolved-from_meta inject only (workload_of s) c (workload_of-nonempty s) nt in
        (
          headers,
          rw resolver resolved,
          hw,
          ht,
          elim (Bool-cases (workload_of s == expected_workload call)) [
            | inl y ↦ inl (
              rw (tools, tools_of-expected s call) y,
              serve-accepted F R ids py ttl str provider policy call _ _ a
                  (hw ∙ ap ok ((eq_iff (workload_of s) (expected_workload call)).0 y)) ht,
            )
            | inr n ↦ inr (
              rw (tools, tools_of-expected s call) n,
              serve-refused F R ids py ttl str provider policy call _ (workload_of s) a hw n,
            )
          ],
        )
