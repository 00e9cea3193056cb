-- ===== src/Mcp/Server.antt =====
-- mcp/server.py: the tools of the MCP endpoint, all three groups registered. A call's inbound
-- metadata is a dictionary; the spans of its trace are not modelled. The application's state has
-- the registry of trusted tasks beside the state of the tools. Validation of the tool arguments
-- against their types is done by the MCP library, before a handler runs.
use asante_secure_multi_agen.Prelude.{
  ℕ, String, Bool, true, false, Option, none, some, [], ◌∷◌, ◌==◌, if◌then◌else◌, fstring,
}
use asante_secure_multi_agen.Prelude.Dict.{get}
use asante_secure_multi_agen.Prelude.Exec.{
  Exc, trusted_task_not_found_error, tool_error, Result, ok, err, message, Action, pure, raise,
  gets, lift, catch, ◌>>=◌, ◌>>◌, zoom,
}
use asante_secure_multi_agen.Values.{Value, text, Fields}
use asante_secure_multi_agen.Mcp.Registry.{AsanteRunContext, Registry, require}
use asante_secure_multi_agen.Tools.Operations.{
  TextOps, Draw, create_maintenance_request, request_guest_credit, send_guest_message,
}
use asante_secure_multi_agen.Floats.{Floats}
use asante_secure_multi_agen.Ruhusa.{Ruhusa}
use asante_secure_multi_agen.Identity.Workload.{
  Identities, guest_support_workload, property_operations_workload, service_recovery_workload,
  reservations_workload,
}
use asante_secure_multi_agen.Tools.Credit.{CreditProvider, issue_credit}
use asante_secure_multi_agen.World.{World, on_meter}
use asante_secure_multi_agen.Metrics.{record_mcp_call}
use asante_secure_multi_agen.Tools.Reservation.{ReadTimes, get_reservation}
use asante_secure_multi_agen.Reliability.Retry.{RetryPolicy}

-- mcp/client.py: the keys of the metadata.
abbrev pub asante_task_meta_key : String
asante_task_meta_key = "asante/task_id"

abbrev pub asante_workload_meta_key : String
asante_workload_meta_key = "asante/workload"

-- `isinstance(value, str) and value`, or else `ToolError`.
abbrev pub text_or : {N : Type 0} → String → Option (Value N) → Result String
text_or problem (some (text s)) = if s == "" then err (tool_error problem) else ok s
text_or problem _ = err (tool_error problem)

unfoldable pub task_id_from_meta : {N : Type 0} → Fields N → Result String
task_id_from_meta meta =
    text_or "missing trusted Asante task context" (get meta asante_task_meta_key)

unfoldable pub workload_from_meta : {N : Type 0} → Fields N → Result String
workload_from_meta meta =
    text_or "missing trusted Asante workload context" (get meta asante_workload_meta_key)

abbrev pub expect_workload : String → Result String → Result (Unit {0})
expect_workload expected (err e) = err e
expect_workload expected (ok actual) =
    if actual == expected
    then ok tt
    else err (
        tool_error
          (fstring ("tool is not available to workload " ∷ actual ∷ "; expected " ∷ expected ∷ [])))

unfoldable pub require_specialist : {N : Type 0} → Fields N → String → Result (Unit {0})
require_specialist meta expected = expect_workload expected (workload_from_meta meta)

-- `except TrustedTaskNotFoundError`
abbrev pub is_task_not_found : Exc → Bool
is_task_not_found (trusted_task_not_found_error _) = true
is_task_not_found _ = false

abbrev pub value_or : {N : Type 0} → Value N → Option (Value N) → Value N
value_or default none = default
value_or default (some v) = v

module _ (F : Floats) (R : Ruhusa F.Float) (ids : Identities) (py : TextOps) (ttl : ℕ)
    (str : Value F.Float → String) where
  open F use {Float}

  pub record App : Type 0 where
    pub task_registry : Registry Float
    pub world : World R

  abbrev pub on_world : {A : Type 0} → Action (World R) A → Action App A
  on_world = zoom (λ a. a.world) (λ a w. record a { world = w })

  -- `task_registry.require`, then the secured tool with the delegation of the run context.
  abbrev pub for_trusted_task :
      String
      → (AsanteRunContext Float → Action (World R) (Fields Float))
      → Action App (Fields Float)
  for_trusted_task task_id tool = do
    contexts ← gets (λ a. a.task_registry)
    run_context ← lift (require contexts task_id)
    on_world (tool run_context)

  unfoldable pub issue_guest_credit_for_trusted_task :
      CreditProvider Float
      → RetryPolicy Float
      → ℕ
      → String
      → String
      → Float
      → String
      → Action App (Fields Float)
  issue_guest_credit_for_trusted_task provider policy now task_id reservation_id amount reason =
      for_trusted_task task_id (λ run_context.
        issue_credit F R ids py.sha256 provider policy now reservation_id amount reason
          run_context.task run_context.service_recovery_delegation)

  unfoldable pub get_reservation_for_trusted_task :
      ReadTimes → String → String → Action App (Fields Float)
  get_reservation_for_trusted_task times task_id reservation_id =
      for_trusted_task task_id (λ run_context.
        get_reservation R ids py.sha256 ttl times reservation_id run_context.task
          run_context.reservations_delegation)

  unfoldable pub create_maintenance_for_trusted_task :
      Draw → String → String → String → String → String → Action App (Fields Float)
  create_maintenance_for_trusted_task draw task_id reservation_id category urgency description =
      for_trusted_task task_id (λ run_context.
        create_maintenance_request F R ids py draw reservation_id category urgency description
          run_context.task run_context.property_operations_delegation)

  unfoldable pub send_guest_message_for_trusted_task :
      Draw → String → String → String → Action App (Fields Float)
  send_guest_message_for_trusted_task draw task_id reservation_id message =
      for_trusted_task task_id (λ run_context.
        send_guest_message F R ids py draw reservation_id message run_context.task
          run_context.guest_support_message_delegation)

  unfoldable pub request_guest_credit_for_trusted_task :
      Draw → String → String → Float → String → Action App (Fields Float)
  request_guest_credit_for_trusted_task draw task_id reservation_id amount reason =
      for_trusted_task task_id (λ run_context.
        request_guest_credit F R ids py draw reservation_id amount reason run_context.task
          run_context.service_recovery_credit_request_delegation)

  -- The handler of `TrustedTaskNotFoundError`; any other exception is not caught.
  abbrev pub unavailable : String → Exc → Action App (Fields Float)
  unavailable tool_name e =
      if is_task_not_found e
      then (do
        on_world (on_meter R (record_mcp_call "error" tool_name))
        raise (tool_error "trusted Asante task context is unavailable"))
      else raise e

  -- What the five handlers have in common: the workload label and the task reference of the
  -- metadata, the call with its `except`, and the metric of its outcome.
  unfoldable pub handler :
      String
      → String
      → (Fields Float → String)
      → Fields Float
      → (String → Action App (Fields Float))
      → Action App (Fields Float)
  unfolding record_mcp_call
  handler tool_name workload outcome meta call = do
    lift (require_specialist meta workload)
    task_id ← lift (task_id_from_meta meta)
    result ← catch (call task_id) (unavailable tool_name)
    on_world (on_meter R (record_mcp_call (outcome result) tool_name))
    pure result

  -- `str(result.get("status", "unknown"))`
  abbrev pub status_outcome : Fields Float → String
  status_outcome result = str (value_or (text "unknown") (get result "status"))

  -- `str(result.get("cache", result.get("status", "unknown")))`
  abbrev pub cache_outcome : Fields Float → String
  cache_outcome result =
      str (value_or (value_or (text "unknown") (get result "status")) (get result "cache"))

  unfoldable pub call_issue_guest_credit :
      CreditProvider Float
      → RetryPolicy Float
      → ℕ
      → String
      → Float
      → String
      → Fields Float
      → Action App (Fields Float)
  call_issue_guest_credit provider policy now reservation_id amount reason meta =
      handler "issue_guest_credit" service_recovery_workload status_outcome meta (λ task_id.
        issue_guest_credit_for_trusted_task provider policy now task_id reservation_id amount
          reason)

  unfoldable pub call_get_reservation :
      ReadTimes → String → Fields Float → Action App (Fields Float)
  call_get_reservation times reservation_id meta =
      handler "get_reservation" reservations_workload cache_outcome meta
        (λ task_id. get_reservation_for_trusted_task times task_id reservation_id)

  unfoldable pub call_create_maintenance_request :
      Draw → String → String → String → String → Fields Float → Action App (Fields Float)
  call_create_maintenance_request draw reservation_id category urgency description meta =
      handler "create_maintenance_request" property_operations_workload status_outcome meta
        (λ task_id.
          create_maintenance_for_trusted_task draw task_id reservation_id category urgency
            description)

  unfoldable pub call_send_guest_message :
      Draw → String → String → Fields Float → Action App (Fields Float)
  call_send_guest_message draw reservation_id message meta =
      handler "send_guest_message" guest_support_workload status_outcome meta
        (λ task_id. send_guest_message_for_trusted_task draw task_id reservation_id message)

  unfoldable pub call_request_guest_credit :
      Draw → String → Float → String → Fields Float → Action App (Fields Float)
  call_request_guest_credit draw reservation_id amount reason meta =
      handler "request_guest_credit" service_recovery_workload status_outcome meta
        (λ task_id. request_guest_credit_for_trusted_task draw task_id reservation_id amount reason)
