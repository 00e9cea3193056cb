-- ===== src/Api/Run/Tasks.antt =====
-- The task of a run: what it may change, and that it is gone afterwards.
use asante_secure_multi_agen.Prelude.{
  ℕ, ◌+◌, String, ◌≡◌, refl, ap, ◌≢◌, ◌⊎◌, inl, inr, Bool, false, arith, ◌==◌,
}
use asante_secure_multi_agen.Prelude.Exec.{
  Exc, trusted_task_not_found_error, ok, err, message, Action, Outcome-cases,
}
use asante_secure_multi_agen.Floats.{Floats}
use asante_secure_multi_agen.Ruhusa.{Ruhusa, TaskContext}
use asante_secure_multi_agen.Values.{Value, Fields}
use asante_secure_multi_agen.Identity.Workload.{Identities}
use asante_secure_multi_agen.Identity.Human.{AuthenticatedHuman}
use asante_secure_multi_agen.Mcp.Registry.{
  AsanteRunContext, register, unregister, require, contains, gone, refused, registered,
}
use asante_secure_multi_agen.Mcp.Client.{Headers}
use asante_secure_multi_agen.Mcp.Server.{App}
use asante_secure_multi_agen.Mcp.Surface.{OnlyTraceHeaders}
use asante_secure_multi_agen.Tools.Operations.{TextOps}
use asante_secure_multi_agen.Tools.Credit.{CreditProvider}
use asante_secure_multi_agen.Reliability.Retry.{RetryPolicy}
use asante_secure_multi_agen.Reliability.Config.{Builtins, Environment}
use asante_secure_multi_agen.Security.Delegation.{issue_reservations_delegation}
use asante_secure_multi_agen.Api.Run.{
  Agents, RunDraw, run_task, issue_run_context, run_agent, with_clients,
  issue_property_operations_delegation, issue_guest_support_message_delegation, minutes,
  issue_service_recovery_delegation, issue_service_recovery_credit_request_delegation,
}
use asante_secure_multi_agen.Api.Run.Safety.{RunChanges, with_clients-Changes}
use asante_secure_multi_agen.Api.Run.Kept.{with_clients-registry}

module _ (F : Floats) (R : Ruhusa F.Float) (ids : Identities) where
  open F use {Float, whole}

  pub issue_run_context-task :
      (draw : RunDraw) (task : TaskContext) (c c' : R.Control) (context : AsanteRunContext Float)
      → issue_run_context F R ids draw task c ≡ (ok context, c')
      → context.task ≡ task
  unfolding issue_run_context
  issue_run_context-task draw task c c' context h =
      elim (Outcome-cases (issue_reservations_delegation F R ids draw.reservations task c)) [
        | inr (e, c1, h1) ↦ ground (arith, h1)
        | inl (d1, c1, h1) ↦
            elim (Outcome-cases
              (issue_property_operations_delegation F R ids draw.property_operations task c1)) [
                | inr (e, c2, h2) ↦ ground (arith, h1, h2)
                | inl (d2, c2, h2) ↦
                    elim (Outcome-cases (
                      issue_guest_support_message_delegation F R ids draw.guest_support_message task
                        c2)) [
                          | inr (e, c3, h3) ↦ ground (arith, h1, h2, h3)
                          | inl (d3, c3, h3) ↦
                              elim (Outcome-cases (
                                issue_service_recovery_delegation F R ids draw.service_recovery task
                                  (whole 100) (whole 25) c3)) [
                                    | inr (e, c4, h4) ↦ ground (arith, h1, h2, h3, h4)
                                    | inl (d4, c4, h4) ↦
                                        elim (Outcome-cases (
                                          issue_service_recovery_credit_request_delegation F R ids
                                            draw.service_recovery_credit_request task (whole 100)
                                            c4)) [
                                              | inr (e, c5, h5) ↦ ground (arith, h1, h2, h3, h4, h5)
                                              | inl (d5, c5, h5) ↦
                                                  ground (arith, h1, h2, h3, h4, h5)
                                            ]
                                  ]
                        ]
              ]
      ]

module _ (F : Floats) (R : Ruhusa F.Float) (ids : Identities) (inject : Headers → Headers)
    (settings : Builtins F) (getenv : Environment) (py : TextOps) (ttl : ℕ)
    (str : Value F.Float → String) (provider : CreditProvider F.Float)
    (policy : RetryPolicy F.Float)
    (same : AsanteRunContext F.Float → AsanteRunContext F.Float → Bool)
    (runner : String → AsanteRunContext F.Float → Agents F.Float) where
  open F use {Float}

  abbrev RunOf :
      RunDraw → String → AuthenticatedHuman → Action (App F R ids py ttl str) (Fields Float)
  RunOf = run_agent F R ids inject settings getenv py ttl str provider policy same runner

  -- Whatever the agents do, a run of an operator's message changes the stores only by calls of the
  -- five tools, each under an invocation that the library admitted and revalidated with the task of
  -- the run, which the operator initiated and which ends half an hour after it began, and with the
  -- delegations that were issued for it. This holds also of a run that raises. The trace headers
  -- are assumed to be as documented, and the id of the task not to be empty.
  pub run_agent-Changes :
      (draw : RunDraw) (message : String) (operator : AuthenticatedHuman)
      (a : App F R ids py ttl str)
      → OnlyTraceHeaders inject
      → (draw.task_hex == "") ≡ false
      → let b = (RunOf draw message operator a).1.world.business in
        (b ≡ a.world.business)
        ⊎ ((context : AsanteRunContext Float) × (issued : R.Control) × (issue_run_context F R ids
                draw
                (run_task draw operator)
                a.world.control
              ≡ (ok context, issued))
            × (context.task.initiated_by ≡ operator.principal_id)
            × (context.task.expires_at ≡ draw.task_at + minutes 30)
            × RunChanges F R ids inject settings getenv py ttl str provider policy context
                a.world.business b)
  unfolding run_agent unregister
  run_agent-Changes draw message operator a only nt =
      elim (Outcome-cases
        (issue_run_context F R ids draw (run_task draw operator) a.world.control)) [
          | inr (e, c, h) ↦ rw h (inl refl)
          | inl (context, c, h) ↦ rw h (
              let is_task =
                issue_run_context-task F R ids draw (run_task draw operator) a.world.control c
                  context h in
              elim (Outcome-cases (register same context a.task_registry)) [
                | inr (e, tasks, k) ↦ rw k (inl refl)
                | inl (u, tasks, k) ↦ rw k (
                    let v : App F R ids py ttl str = record {
                      task_registry = tasks;
                      world = record a.world { control = c };
                    } in
                    let grown =
                      with_clients-Changes F R ids inject settings getenv py ttl str provider policy
                        context only (rw is_task nt) (runner message context) v
                        (registered same context a.task_registry tasks u k) in
                    elim (Outcome-cases (
                      with_clients F R ids inject settings getenv py ttl str provider policy context
                        (runner message context) v)) [
                          | inr (e, v', q) ↦ rw q (
                              inr (
                                context,
                                c,
                                refl,
                                ap (λ t. t.initiated_by) is_task,
                                ap (λ t. t.expires_at) is_task,
                                rw q at grown,
                              ))
                          | inl (out, v', q) ↦ rw q (
                              inr (
                                context,
                                c,
                                refl,
                                ap (λ t. t.initiated_by) is_task,
                                ap (λ t. t.expires_at) is_task,
                                rw q at grown,
                              ))
                        ])
              ])
        ]

  -- A run leaves no authority behind, however it ends. Either its task could not be issued or
  -- registered, and then it raises, and the registry and the stores are as they were; or, after it
  -- has returned or raised, `require` answers its task with `TrustedTaskNotFoundError`, `contains`
  -- is false of it, and every other task is answered as before.
  pub run_agent-unregisters :
      (draw : RunDraw) (message : String) (operator : AuthenticatedHuman)
      (a : App F R ids py ttl str)
      → let (result, a') = RunOf draw message operator a in
        ((e : Exc) × (result ≡ err e)
          × (a'.task_registry ≡ a.task_registry)
          × (a'.world.business ≡ a.world.business))
        ⊎ ((require a'.task_registry draw.task_hex
              ≡ err (trusted_task_not_found_error "unknown or expired trusted task"))
            × (contains a'.task_registry draw.task_hex ≡ false)
            × ((other : String)
                → other ≢ draw.task_hex
                → require a'.task_registry other ≡ require a.task_registry other))
  unfolding run_agent unregister
  run_agent-unregisters draw message operator a =
      elim (Outcome-cases
        (issue_run_context F R ids draw (run_task draw operator) a.world.control)) [
          | inr (e, c, h) ↦ rw h (inl (e, refl, refl, refl))
          | inl (context, c, h) ↦ rw h (
              let is_task =
                issue_run_context-task F R ids draw (run_task draw operator) a.world.control c
                  context h in
              elim (Outcome-cases (register same context a.task_registry)) [
                | inr (e, tasks, k) ↦
                    rw k (inl (e, refl, refused same context a.task_registry tasks e k, refl))
                | inl (u, tasks, k) ↦ rw k (
                    let v : App F R ids py ttl str = record {
                      task_registry = tasks;
                      world = record a.world { control = c };
                    } in
                    let kept =
                      with_clients-registry F R ids inject settings getenv py ttl str provider
                        policy context (runner message context) v in
                    elim (Outcome-cases (
                      with_clients F R ids inject settings getenv py ttl str provider policy context
                        (runner message context) v)) [
                          | inr (e, v', q) ↦ rw q (
                              inr (
                                gone same context a.task_registry tasks v'.task_registry u
                                  draw.task_hex (ap (λ t. t.task_id) is_task) k (rw q at kept)))
                          | inl (out, v', q) ↦ rw q (
                              inr (
                                gone same context a.task_registry tasks v'.task_registry u
                                  draw.task_hex (ap (λ t. t.task_id) is_task) k (rw q at kept)))
                        ])
              ])
        ]
