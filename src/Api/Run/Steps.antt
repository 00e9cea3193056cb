-- ===== src/Api/Run/Steps.antt =====
-- Runs of several operators at the same time, as one sequence of steps: a run begins, a tool is
-- called with any metadata, a run ends, or another request is served, which does not reach the
-- registry. The endpoint of a run does its parts in the same order; between them, and between the
-- calls of its agents, any other step may come.
use asante_secure_multi_agen.Prelude.{ℕ, String, ◌≡◌, ◌≢◌, Bool, List, [], ◌∷◌}
use asante_secure_multi_agen.Prelude.Exec.{ok, Action, pure, ◌>>=◌, ◌>>◌, zoom}
use asante_secure_multi_agen.Floats.{Floats}
use asante_secure_multi_agen.Ruhusa.{Ruhusa}
use asante_secure_multi_agen.Values.{Value, Fields}
use asante_secure_multi_agen.World.{World, on_control}
use asante_secure_multi_agen.Identity.Workload.{Identities}
use asante_secure_multi_agen.Identity.Human.{AuthenticatedHuman}
use asante_secure_multi_agen.Mcp.Registry.{AsanteRunContext, register, unregister}
use asante_secure_multi_agen.Mcp.Server.{App, on_world}
use asante_secure_multi_agen.Mcp.Dispatch.{McpCall, serve}
use asante_secure_multi_agen.Tools.Operations.{TextOps}
use asante_secure_multi_agen.Tools.Credit.{CreditProvider}
use asante_secure_multi_agen.Reliability.Retry.{RetryPolicy}
use asante_secure_multi_agen.Api.Run.{RunDraw, run_task, issue_run_context}

module _ {N : Type 0} (R : Ruhusa N) where
  pub data Step : Type 0 where
    begins : (draw : RunDraw) (operator : AuthenticatedHuman) → Step
    calls_tool : (call : McpCall N) (meta : Fields N) → Step
    ends : (task_id : String) → Step
    serves : (World R → World R) → Step

module _ (F : Floats) (R : Ruhusa F.Float) (ids : Identities) (py : TextOps) (ttl : ℕ)
    (str : Value F.Float → String) (provider : CreditProvider F.Float)
    (policy : RetryPolicy F.Float)
    (same : AsanteRunContext F.Float → AsanteRunContext F.Float → Bool) where
  open F use {Float}

  -- The part of `run_agent` before its `try`.
  abbrev pub begin_run :
      RunDraw → AuthenticatedHuman → Action (App F R ids py ttl str) (AsanteRunContext Float)
  begin_run draw operator = do
    context ←
        on_world F R ids py ttl str
          (on_control R (issue_run_context F R ids draw (run_task draw operator)))
    zoom (λ a. a.task_registry) (λ a tasks. record a { task_registry = tasks })
        (register same context)
    pure context

  unfoldable pub step : Step R → App F R ids py ttl str → App F R ids py ttl str
  step (begins draw operator) a = (begin_run draw operator a).1
  step (calls_tool call meta) a = (serve F R ids py ttl str provider policy call meta a).1
  step (ends task_id) a = record a { task_registry = (unregister task_id a.task_registry).1 }
  step (serves f) a = record a { world = f a.world }

  -- A history is newest first, on an application without a registered task.
  abbrev pub after : World R → List (Step R) → App F R ids py ttl str
  after w [] = record { task_registry = []; world = w }
  after w (s ∷ history) = step s (after w history)

  -- The context was issued to a run of the operator, which began in the history and has not ended.
  pub data Running (w : World R) (context : AsanteRunContext Float) (operator : AuthenticatedHuman)
      : List (Step R) → Type 0 where
    began :
        (draw : RunDraw) (history : List (Step R)) (c : R.Control)
        → issue_run_context F R ids draw (run_task draw operator) (after w history).world.control
          ≡ (ok context, c)
        → context.task.initiated_by ≡ operator.principal_id
        → Running w context operator (begins draw operator ∷ history)
    goes_on :
        (s : Step R) (history : List (Step R))
        → s ≢ ends context.task.task_id
        → Running w context operator history
        → Running w context operator (s ∷ history)
