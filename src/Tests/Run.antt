-- ===== src/Tests/Run.antt =====
-- The clients of the agents and a run of them, at concrete inputs.
use asante_secure_multi_agen.Prelude.{
  ℕ, ◌+◌, String, ◌≡◌, refl, ◌≢◌, ◌⊎◌, Bool, true, false, none, some, List, [], ◌∷◌, member,
}
use asante_secure_multi_agen.Prelude.Exec.{
  Exc, trusted_task_not_found_error, tool_error, Result, ok, err, message,
}
use asante_secure_multi_agen.Values.{Value, Fields, text}
use asante_secure_multi_agen.Ruhusa.{minutes, Authorization, Invocation}
use asante_secure_multi_agen.Identity.Human.{AuthenticatedHuman}
use asante_secure_multi_agen.Mcp.Registry.{AsanteRunContext, require, contains}
use asante_secure_multi_agen.Mcp.Client.{
  Headers, McpClient, build_client, reservations, service_recovery, resolve_specialist_meta,
  build_reservations_mcp_client, build_specialist_mcp_client,
}
use asante_secure_multi_agen.Mcp.Server.{App, workload_from_meta, task_id_from_meta}
use asante_secure_multi_agen.Mcp.Dispatch.{
  McpCall, issue_guest_credit, get_reservation, serve, tool_name, Changes, Invokes,
}
use asante_secure_multi_agen.Mcp.Served.{serve_in_task}
use asante_secure_multi_agen.Mcp.Surface.{client_surface, received, workload_of}
use asante_secure_multi_agen.Reliability.Config.{
  Builtins, Environment, mcp_reliability_config_from_env,
}
use asante_secure_multi_agen.Tools.Reservation.{ReadTimes}
use asante_secure_multi_agen.Tools.Providers.{issue}
use asante_secure_multi_agen.Security.Delegation.{GrantDraw}
use asante_secure_multi_agen.Api.Run.{
  Agents, finish, calls, RunDraw, run_agent, run_task, issue_run_context,
}
use asante_secure_multi_agen.Api.Run.Safety.{RunChanges}
use asante_secure_multi_agen.Api.Run.Tasks.{run_agent-Changes, run_agent-unregisters}
use asante_secure_multi_agen.Tests.Data.{dollars, stay, library, hotel, texts, opening, two_tries}
use asante_secure_multi_agen.Api.Run.Steps.{Running, Step, after, begins, calls_tool, serves}
use asante_secure_multi_agen.Api.Run.Interleaved.{interleaved_call-Running}
use asante_secure_multi_agen.Tools.Fence.{Admitted}

abbrev no_trace : Headers → Headers
no_trace headers = headers

abbrev unset : Environment
unset name = none

abbrev plain : Builtins dollars
plain = record {
  int = λ s. ok (some 3);
  float = λ s. ok 1;
  str_int = λ n. "n";
  str_float = λ n. "n";
}

abbrev reader : McpClient ℕ
reader = record {
  name = "Asante Reservations MCP";
  url = "http://127.0.0.1:8000/mcp/";
  headers = [];
  timeout = 10;
  cache_tools_list = true;
  max_retry_attempts = 1;
  use_structured_content = true;
  allowed_tool_names = "get_reservation" ∷ [];
  tool_meta_resolver = resolve_specialist_meta no_trace "reservations";
}

abbrev context : AsanteRunContext ℕ
context = record {
  task = stay;
  reservations_delegation = [];
  property_operations_delegation = [];
  guest_support_message_delegation = [];
  service_recovery_delegation = [];
  service_recovery_credit_request_delegation = [];
}

abbrev answers : Value ℕ → String
answers v = "issued"

abbrev hotel_app : App dollars library hotel texts 30 answers
hotel_app = record { task_registry = ("task-1", context) ∷ []; world = opening }

abbrev read_times : ReadTimes
read_times = record { now = 5; looked_up = 1; stored = 2 }

abbrev reading : McpCall ℕ
reading = get_reservation read_times "R-3001"

client_surface_example :
    (headers : Headers) × (reader.tool_meta_resolver (some context) ≡ some headers)
    × (workload_from_meta (received {N = ℕ} headers) ≡ ok (workload_of reservations))
    × (task_id_from_meta (received {N = ℕ} headers) ≡ ok "task-1")
    × (((member (tool_name reading) ("get_reservation" ∷ []) ≡ true)
          × (serve dollars library hotel texts 30 answers issue two_tries reading
                (received headers)
                hotel_app
              ≡ serve_in_task dollars library hotel texts 30 answers issue two_tries reading
                  "task-1" hotel_app))
        ⊎ ((member (tool_name reading) ("get_reservation" ∷ []) ≡ false)
            × ((problem : String) × (serve dollars library hotel texts 30 answers issue two_tries
                    reading
                    (received headers)
                    hotel_app
                  ≡ (err (tool_error problem), hotel_app)))))
unfolding build_client build_reservations_mcp_client build_specialist_mcp_client
    mcp_reliability_config_from_env
client_surface_example =
    client_surface no_trace dollars plain unset library hotel texts 30 answers issue two_tries
      (λ headers k a b c. refl) reservations none reader context reading hotel_app refl refl

abbrev grant_draw : GrantDraw
grant_draw = record { now = 5; root_hex = "r"; child_hex = "c" }

abbrev run_draw : RunDraw
run_draw = record {
  task_hex = "task-2";
  task_at = 5;
  reservations = grant_draw;
  property_operations = grant_draw;
  guest_support_message = grant_draw;
  service_recovery = grant_draw;
  service_recovery_credit_request = grant_draw;
  trace_id = none;
}

abbrev human : AuthenticatedHuman
human = record {
  principal_id = "oauth:i#s";
  subject = "s";
  issuer = "i";
  audiences = "a" ∷ [];
  client_id = "c";
  scopes = [];
}

abbrev differ : AsanteRunContext ℕ → AsanteRunContext ℕ → Bool
differ a b = false

-- Agents that issue a credit, and then finish.
abbrev crediting : String → AsanteRunContext ℕ → Agents ℕ
crediting message c =
    calls service_recovery (issue_guest_credit 5 "R-3001" 20 "noise")
      (λ answer. finish "supervisor" "done")

abbrev after_run : Result (Fields ℕ) × App dollars library hotel texts 30 answers
after_run =
    run_agent dollars library hotel no_trace plain unset texts 30 answers issue two_tries differ
      crediting run_draw "please" human hotel_app

run_agent-Changes_example :
    (after_run.1.world.business ≡ opening.business)
    ⊎ ((c : AsanteRunContext ℕ) × (issued : ℕ) × (issue_run_context dollars library hotel run_draw
            (run_task run_draw human)
            0
          ≡ (ok c, issued))
        × (c.task.initiated_by ≡ "oauth:i#s")
        × (c.task.expires_at ≡ 5 + minutes 30)
        × RunChanges dollars library hotel no_trace plain unset texts 30 answers issue two_tries c
            opening.business after_run.1.world.business)
run_agent-Changes_example =
    run_agent-Changes dollars library hotel no_trace plain unset texts 30 answers issue two_tries
      differ crediting run_draw "please" human hotel_app (λ headers k a b c. refl) refl

run_agent-unregisters_example :
    ((e : Exc) × (after_run.0 ≡ err e)
      × (after_run.1.task_registry ≡ hotel_app.task_registry)
      × (after_run.1.world.business ≡ opening.business))
    ⊎ ((require after_run.1.task_registry "task-2"
          ≡ err (trusted_task_not_found_error "unknown or expired trusted task"))
        × (contains after_run.1.task_registry "task-2" ≡ false)
        × ((other : String)
            → other ≢ "task-2"
            → require after_run.1.task_registry other ≡ require hotel_app.task_registry other))
run_agent-unregisters_example =
    run_agent-unregisters dollars library hotel no_trace plain unset texts 30 answers issue
      two_tries differ crediting run_draw "please" human hotel_app

-- A run that has begun, and another request served after it.
abbrev so_far : List (Step library)
so_far = serves (λ w. w) ∷ begins run_draw human ∷ []

abbrev state_of : List (Step library) → App dollars library hotel texts 30 answers
state_of = after dollars library hotel texts 30 answers issue two_tries differ opening

abbrev guessed : Fields ℕ
guessed = ("asante/task_id", text "task-2") ∷ ("asante/workload", text "service-recovery") ∷ []

abbrev crediting_call : McpCall ℕ
crediting_call = issue_guest_credit 5 "R-3001" 20 "noise"

interleaved_call-Running_example :
    ((state_of (calls_tool crediting_call guessed ∷ so_far)).world.business
      ≡ (state_of so_far).world.business)
    ⊎ ((c : AsanteRunContext ℕ) × (operator : AuthenticatedHuman) × (inv : Invocation ℕ)
        × (permit : ℕ) × (auth : Authorization) × (end : ℕ) × Running dollars library hotel texts 30
            answers issue two_tries differ opening c operator so_far
        × Invokes dollars library hotel texts 30 answers issue two_tries crediting_call c inv
        × Admitted library inv (state_of so_far).world.control end permit auth
        × Changes dollars library hotel texts 30 answers issue two_tries crediting_call c
            (state_of so_far).world.business
            (state_of (calls_tool crediting_call guessed ∷ so_far)).world.business)
interleaved_call-Running_example =
    interleaved_call-Running dollars library hotel texts 30 answers issue two_tries differ opening
      so_far crediting_call guessed
