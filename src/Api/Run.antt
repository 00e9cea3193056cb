-- ===== src/Api/Run.antt =====
-- main.py: `run_agent`. What `Runner.run` does with the agents is an argument: a sequence of calls
-- of the tools, each by the client of one specialist and each depending on the answers so far,
-- which ends in a result or an exception. The SDK resolves the metadata of each call by its client
-- and sends it unchanged. No other request is served while the run lasts. The clocks, the draws of
-- `uuid4`, and the trace id are arguments.
pub mod Kept
pub mod Safety
pub mod Tasks
pub mod Steps
pub mod Interleaved
use asante_secure_multi_agen.Prelude.{
  ℕ, zero, suc, ◌+◌, ◌-◌, ◌*◌, ◌^◌, ◌≤◌, ◌<◌, String, ◌≡◌, refl, sym, ap, ◌∙◌, ◌≢◌, ◌↔◌, ◌⊎◌, inl,
  inr, Bool, true, false, not, ◌&&◌, ◌||◌, Option, none, some, List, [], ◌∷◌, ◌++◌, map, arith,
  ◌==◌, eq_iff, eq_refl, ltb, leb, if◌then◌else◌, is_some, ltb→lt, lt→ltb, leb→le, Bool-cases,
  Option-cases, length, length-append, member, All, All-append, fstring,
}
use asante_secure_multi_agen.Prelude.Dict.{Dict, get, put, remove, get-put, get-remove, dict_laws}
use asante_secure_multi_agen.Prelude.Exec.{
  Exc, value_error, runtime_error, lookup_error, assertion_error, trusted_task_not_found_error,
  approval_state_error, transient_credit_provider_error, unknown_outcome_credit_provider_error,
  tool_error, invalid_token_error, integrity_error, http_exception, external, Result, ok, err,
  message, Action, pure, raise, gets, lift, continue, catch, ◌>>=◌, ◌>>◌, modify, raise_if, zoom,
  Outcome-cases, Result-cases,
}
use asante_secure_multi_agen.Floats.{Floats}
use asante_secure_multi_agen.Ruhusa.{Ruhusa, TaskContext, DelegationGrant, minutes}
use asante_secure_multi_agen.Values.{Value, Fields, text, opt_text}
use asante_secure_multi_agen.World.{on_control}
use asante_secure_multi_agen.Identity.Workload.{Identities}
use asante_secure_multi_agen.Identity.Human.{AuthenticatedHuman}
use asante_secure_multi_agen.Mcp.Registry.{AsanteRunContext, Registry, register, unregister}
use asante_secure_multi_agen.Mcp.Client.{
  Headers, McpClient, Specialist, reservations, property_operations, guest_support,
  service_recovery, build_reservations_mcp_client, build_property_operations_mcp_client,
  build_guest_support_mcp_client, build_service_recovery_mcp_client,
}
use asante_secure_multi_agen.Mcp.Server.{App, on_world}
use asante_secure_multi_agen.Mcp.Dispatch.{McpCall, serve}
use asante_secure_multi_agen.Mcp.Surface.{received}
use asante_secure_multi_agen.Security.Delegation.{
  GrantDraw, issue_reservations_delegation, issue_property_operations_delegation,
  issue_guest_support_message_delegation, issue_service_recovery_delegation,
  issue_service_recovery_credit_request_delegation,
}
use asante_secure_multi_agen.Tools.Operations.{TextOps}
use asante_secure_multi_agen.Tools.Credit.{CreditProvider}
use asante_secure_multi_agen.Reliability.Retry.{RetryPolicy}
use asante_secure_multi_agen.Reliability.Config.{Builtins, Environment}

-- What the agents do.
pub data Agents (N : Type 0) : Type 0 where
  finish : (last_agent final_output : String) → Agents N
  fail : Exc → Agents N
  calls : Specialist → McpCall N → (Result (Fields N) → Agents N) → Agents N

-- The `RunResult` of the SDK, as far as it is read.
pub record RunResult : Type 0 where
  pub last_agent : String
  pub final_output : String

-- What a run draws: the id and the time of the task, the draws of the five delegations in their
-- order, and the trace id.
pub record RunDraw : Type 0 where
  pub task_hex : String
  pub task_at : ℕ
  pub reservations : GrantDraw
  pub property_operations : GrantDraw
  pub guest_support_message : GrantDraw
  pub service_recovery : GrantDraw
  pub service_recovery_credit_request : GrantDraw
  pub trace_id : Option String

-- The four clients of a run.
pub record Clients (N : Type 0) : Type 0 where
  pub reservations_mcp : McpClient N
  pub property_operations_mcp : McpClient N
  pub guest_support_mcp : McpClient N
  pub service_recovery_mcp : McpClient N

abbrev pub client_of : {N : Type 0} → Clients N → Specialist → McpClient N
client_of clients reservations = clients.reservations_mcp
client_of clients property_operations = clients.property_operations_mcp
client_of clients guest_support = clients.guest_support_mcp
client_of clients service_recovery = clients.service_recovery_mcp

-- The metadata of a call; without any, the handler is called with an empty one.
abbrev pub meta_for : {N : Type 0} → Option Headers → Fields N
meta_for none = []
meta_for (some headers) = received headers

-- `try: m` with `finally: cleanup`.
abbrev pub with_finally : {S A : Type 0} → Action S A → Action S Unit → Action S A
with_finally m cleanup s = let (r, s') = m s in (cleanup >> lift r) s'

-- The task of a run.
abbrev pub run_task : RunDraw → AuthenticatedHuman → TaskContext
run_task draw operator = record {
  task_id = draw.task_hex;
  initiated_by = operator.principal_id;
  purpose = "Asante property operations";
  expires_at = draw.task_at + minutes 30;
}

abbrev pub both : {A : Type 0} → A × A → List A
both (x, y) = x ∷ y ∷ []

module _ (F : Floats) (R : Ruhusa F.Float) (ids : Identities) where
  open F use {Float, whole}

  -- The delegations of the five capabilities, with the default limits of the credit ones.
  unfoldable pub issue_run_context :
      RunDraw → TaskContext → Action R.Control (AsanteRunContext Float)
  issue_run_context draw task = do
    for_reservations ← issue_reservations_delegation F R ids draw.reservations task
    for_operations ← issue_property_operations_delegation F R ids draw.property_operations task
    for_messages ← issue_guest_support_message_delegation F R ids draw.guest_support_message task
    for_credits ←
        issue_service_recovery_delegation F R ids draw.service_recovery task (whole 100) (whole 25)
    for_requests ←
        issue_service_recovery_credit_request_delegation F R ids
          draw.service_recovery_credit_request task (whole 100)
    pure (record {
      task = task;
      reservations_delegation = both for_reservations;
      property_operations_delegation = both for_operations;
      guest_support_message_delegation = both for_messages;
      service_recovery_delegation = both for_credits;
      service_recovery_credit_request_delegation = both for_requests;
    })

  module _ (inject : Headers → Headers) (settings : Builtins F) (getenv : Environment) where
    unfoldable pub build_clients : {S : Type 0} → Action S (Clients Float)
    build_clients = do
      for_reservations ← lift (build_reservations_mcp_client inject F settings getenv none)
      for_operations ← lift (build_property_operations_mcp_client inject F settings getenv none)
      for_support ← lift (build_guest_support_mcp_client inject F settings getenv none)
      for_recovery ← lift (build_service_recovery_mcp_client inject F settings getenv none)
      pure (record {
        reservations_mcp = for_reservations;
        property_operations_mcp = for_operations;
        guest_support_mcp = for_support;
        service_recovery_mcp = for_recovery;
      })

    module _ (py : TextOps) (ttl : ℕ) (str : Value Float → String) (provider : CreditProvider Float)
        (policy : RetryPolicy Float) where
      abbrev pub on_registry :
          {A : Type 0} → Action (Registry Float) A → Action (App F R ids py ttl str) A
      on_registry = zoom (λ a. a.task_registry) (λ a tasks. record a { task_registry = tasks })

      unfoldable pub run_agents :
          Clients Float
          → AsanteRunContext Float
          → Agents Float
          → Action (App F R ids py ttl str) RunResult
      run_agents clients context (finish last_agent final_output) a =
          pure (record { last_agent = last_agent; final_output = final_output }) a
      run_agents clients context (fail e) a = raise e a
      run_agents clients context (calls specialist call next) a =
          let client = client_of clients specialist in
          let meta = meta_for (client.tool_meta_resolver (some context)) in
          let answer = serve F R ids py ttl str provider policy call meta a in
          run_agents clients context (next answer.0) answer.1

      -- The body of the `try`.
      unfoldable pub with_clients :
          AsanteRunContext Float → Agents Float → Action (App F R ids py ttl str) RunResult
      with_clients context agents = do clients ← build_clients; run_agents clients context agents

      unfoldable pub run_agent :
          (AsanteRunContext Float → AsanteRunContext Float → Bool)
          → (String → AsanteRunContext Float → Agents Float)
          → RunDraw
          → String
          → AuthenticatedHuman
          → Action (App F R ids py ttl str) (Fields Float)
      run_agent same runner draw message operator = do
        let task = run_task draw operator
        context ← on_world F R ids py ttl str (on_control R (issue_run_context draw task))
        on_registry (register same context)
        result ←
            with_finally (with_clients context (runner message context))
              (on_registry (unregister task.task_id))
        pure (
            ("task_id", text task.task_id)
            ∷ ("trace_id", opt_text draw.trace_id)
            ∷ ("initiated_by", text operator.principal_id)
            ∷ ("last_agent", text result.last_agent)
            ∷ ("output", text result.final_output)
            ∷ [])
