-- ===== src/Mcp/Client.antt =====
-- mcp/client.py: the MCP clients of the specialist agents. The object that the Agents SDK makes of
-- the configuration is the record of it. `propagate.inject`, which adds the headers of the current
-- trace, and the environment are arguments.
use asante_secure_multi_agen.Prelude.{
  ℕ, String, Bool, true, Option, none, some, List, [], ◌∷◌, or_else, getenv_or,
}
use asante_secure_multi_agen.Prelude.Dict.{Dict}
use asante_secure_multi_agen.Prelude.Exec.{Result, ok}
use asante_secure_multi_agen.Floats.{Floats}
use asante_secure_multi_agen.Mcp.Registry.{AsanteRunContext}
use asante_secure_multi_agen.Mcp.Server.{asante_task_meta_key, asante_workload_meta_key}
use asante_secure_multi_agen.Identity.Workload.{
  guest_support_workload, property_operations_workload, reservations_workload,
  service_recovery_workload,
}
use asante_secure_multi_agen.Reliability.Config.{
  Builtins, Environment, mcp_reliability_config_from_env, bind,
}

-- `dict[str, str]`
abbrev pub Headers : Type 0
Headers = Dict String

abbrev pub default_asante_mcp_url : String
default_asante_mcp_url = "http://127.0.0.1:8000/mcp/"

-- The arguments of `MCPServerStreamableHttp`. The context of a run is `none` if it is no
-- `AsanteRunContext`.
pub record McpClient (N : Type 0) : Type 0 where
  pub name : String
  pub url : String
  pub headers : Headers
  pub timeout : N
  pub cache_tools_list : Bool
  pub max_retry_attempts : ℕ
  pub use_structured_content : Bool
  pub allowed_tool_names : List String
  pub tool_meta_resolver : Option (AsanteRunContext N) → Option Headers

-- The four specialists of the supervisor, each with its own client.
pub data Specialist : Type 0 where
  reservations property_operations guest_support service_recovery : Specialist

module _ (inject : Headers → Headers) where
  -- telemetry/runtime.py: a copy of the headers, with those of the current trace.
  abbrev pub inject_current_trace_headers : Option Headers → Headers
  inject_current_trace_headers none = inject []
  inject_current_trace_headers (some headers) = inject headers

  unfoldable pub resolve_specialist_meta :
      {N : Type 0} → String → Option (AsanteRunContext N) → Option Headers
  resolve_specialist_meta workload none = none
  resolve_specialist_meta workload (some run_context) = some (
      inject_current_trace_headers (
        some (
          (asante_task_meta_key, run_context.task.task_id)
          ∷ (asante_workload_meta_key, workload)
          ∷ [])))

  -- Kept for callers of before the specialists.
  unfoldable pub resolve_asante_mcp_meta :
      {N : Type 0} → Option (AsanteRunContext N) → Option Headers
  unfolding resolve_specialist_meta
  resolve_asante_mcp_meta = resolve_specialist_meta guest_support_workload

  module _ (F : Floats) (py : Builtins F) (getenv : Environment) where
    open F use {Float}

    unfoldable pub build_specialist_mcp_client :
        String → String → List String → Option String → Result (McpClient Float)
    unfolding resolve_specialist_meta
    build_specialist_mcp_client name workload allowed_tools url =
        bind (mcp_reliability_config_from_env F py getenv) λ reliability. ok (record {
          name = name;
          url = or_else url (getenv_or (getenv "ASANTE_MCP_URL") default_asante_mcp_url);
          headers = inject_current_trace_headers none;
          timeout = reliability.timeout_seconds;
          cache_tools_list = true;
          max_retry_attempts = reliability.max_retry_attempts;
          use_structured_content = true;
          allowed_tool_names = allowed_tools;
          tool_meta_resolver = resolve_specialist_meta workload;
        })

    unfoldable pub build_reservations_mcp_client : Option String → Result (McpClient Float)
    build_reservations_mcp_client =
        build_specialist_mcp_client "Asante Reservations MCP" reservations_workload
          ("get_reservation" ∷ [])

    unfoldable pub build_property_operations_mcp_client : Option String → Result (McpClient Float)
    build_property_operations_mcp_client =
        build_specialist_mcp_client "Asante Property Operations MCP" property_operations_workload
          ("create_maintenance_request" ∷ [])

    unfoldable pub build_guest_support_mcp_client : Option String → Result (McpClient Float)
    build_guest_support_mcp_client =
        build_specialist_mcp_client "Asante Guest Support MCP" guest_support_workload
          ("send_guest_message" ∷ [])

    unfoldable pub build_service_recovery_mcp_client : Option String → Result (McpClient Float)
    build_service_recovery_mcp_client =
        build_specialist_mcp_client "Asante Service Recovery MCP" service_recovery_workload
          ("issue_guest_credit" ∷ "request_guest_credit" ∷ [])

    unfoldable pub build_guest_operations_mcp_client : Option String → Result (McpClient Float)
    build_guest_operations_mcp_client =
        build_specialist_mcp_client "Asante Guest Operations MCP" guest_support_workload (
          "get_reservation" ∷ "create_maintenance_request" ∷ "send_guest_message"
          ∷ "issue_guest_credit" ∷ "request_guest_credit" ∷ [])

    unfoldable pub build_client : Specialist → Option String → Result (McpClient Float)
    build_client reservations = build_reservations_mcp_client
    build_client property_operations = build_property_operations_mcp_client
    build_client guest_support = build_guest_support_mcp_client
    build_client service_recovery = build_service_recovery_mcp_client
