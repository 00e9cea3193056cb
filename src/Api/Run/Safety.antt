-- ===== src/Api/Run/Safety.antt =====
-- What a run of the agents may change.
use asante_secure_multi_agen.Prelude.{
  ℕ, String, ◌≡◌, refl, sym, ap, ◌∙◌, inl, inr, false, none, some, arith, ◌==◌,
}
use asante_secure_multi_agen.Prelude.Exec.{Result, ok}
use asante_secure_multi_agen.Floats.{Floats}
use asante_secure_multi_agen.Ruhusa.{Ruhusa, Invocation, Authorization}
use asante_secure_multi_agen.Values.{Value, Fields}
use asante_secure_multi_agen.World.{Business, World}
use asante_secure_multi_agen.Identity.Workload.{Identities}
use asante_secure_multi_agen.Mcp.Registry.{AsanteRunContext, require}
use asante_secure_multi_agen.Mcp.Client.{Headers, Specialist, resolve_specialist_meta}
use asante_secure_multi_agen.Mcp.Server.{App, task_id_from_meta}
use asante_secure_multi_agen.Mcp.Dispatch.{
  McpCall, serve, serve-Trusted, Invokes, Changes, expected_workload,
}
use asante_secure_multi_agen.Mcp.Boundary.{Trusted, turned_away, served}
use asante_secure_multi_agen.Mcp.Surface.{
  received, OnlyTraceHeaders, workload_of, resolved-from_meta, workload_of-nonempty, built_client,
}
use asante_secure_multi_agen.Tools.Safety.{OnlyIfAdmitted, untouched, allowed}
use asante_secure_multi_agen.Tools.Fence.{Admitted}
use asante_secure_multi_agen.Tools.Operations.{TextOps}
use asante_secure_multi_agen.Tools.Credit.{CreditProvider}
use asante_secure_multi_agen.Reliability.Retry.{RetryPolicy}
use asante_secure_multi_agen.Reliability.Config.{Builtins, Environment}
use asante_secure_multi_agen.Api.Run.{
  Agents, finish, fail, calls, Clients, client_of, run_agents, meta_for, with_clients,
}
use mathlib.Core.Path.{subst}
use asante_secure_multi_agen.Api.Run.Kept.{build_clients-cases}

ok-injective : {A : Type 0} {x y : A} → ok x ≡ ok y → x ≡ y
ok-injective h = ground (arith, h)

module _ (F : Floats) (R : Ruhusa F.Float) (ids : Identities) (inject : Headers → Headers)
    (settings : Builtins F) (getenv : Environment) (py : TextOps) (ttl : ℕ)
    (str : Value F.Float → String) (provider : CreditProvider F.Float)
    (policy : RetryPolicy F.Float) where
  open F use {Float}

  -- Changes of the stores, one after the other, each by a call of a tool of which the library
  -- admitted and revalidated an invocation with the task and the delegations of `context`.
  pub data RunChanges (context : AsanteRunContext Float)
      : Business Float → Business Float → Type 0 where
    done : (b : Business Float) → RunChanges context b b
    changed :
        (call : McpCall Float) (inv : Invocation Float) (permit : R.Permit) (auth : Authorization)
        (start end : R.Control) (b between b' : Business Float)
        → Invokes F R ids py ttl str provider policy call context inv
        → Admitted R inv start end permit auth
        → Changes F R ids py ttl str provider policy call context b between
        → RunChanges context between b'
        → RunChanges context b b'

  then_more :
      (context : AsanteRunContext Float) (call : McpCall Float) (w : World R)
      (r : Result (Fields Float) × World R) (b' : Business Float)
      → OnlyIfAdmitted R
          (Invokes F R ids py ttl str provider policy call context)
          (Changes F R ids py ttl str provider policy call context)
          w
          r
      → RunChanges context r.1.business b'
      → RunChanges context w.business b'
  then_more context call w r b' (untouched same d) rest =
      subst (λ b. RunChanges context b b') same rest
  then_more context call w r b' (allowed inv permit auth end k adm e) rest =
      changed call inv permit auth w.control end w.business r.1.business b' k adm e rest

  -- One call with metadata of the task of `context`, which is registered.
  after_call :
      (context : AsanteRunContext Float) (call : McpCall Float) (workload : String)
      (meta : Fields Float) (a : App F R ids py ttl str)
      (r : Result (Fields Float) × App F R ids py ttl str) (b' : Business Float)
      → task_id_from_meta meta ≡ ok context.task.task_id
      → require a.task_registry context.task.task_id ≡ ok context
      → Trusted F R ids py ttl str meta workload
          (Invokes F R ids py ttl str provider policy call)
          (Changes F R ids py ttl str provider policy call)
          a
          r
      → (r.1.task_registry ≡ a.task_registry)
        × (RunChanges context r.1.world.business b' → RunChanges context a.world.business b')
  after_call context call workload meta a r b' ht hr (turned_away p e same_c same_b same_r) =
      (same_r, λ rest. subst (λ b. RunChanges context b b') same_b rest)
  after_call context call workload meta a r b' ht hr (served task_id c hw ht' hr' same_r only) =
      let same_id = ok-injective (sym ht' ∙ ht) in
      let same_c = ok-injective (sym hr' ∙ ap (require a.task_registry) same_id ∙ hr) in
      (
        same_r,
        then_more context call a.world (r.0, r.1.world) b'
            (subst
              (λ c.
                OnlyIfAdmitted R (Invokes F R ids py ttl str provider policy call c)
                  (Changes F R ids py ttl str provider policy call c) a.world (r.0, r.1.world))
              same_c only),
      )

  pub run_agents-Changes :
      (clients : Clients Float) (context : AsanteRunContext Float)
      → OnlyTraceHeaders inject
      → (context.task.task_id == "") ≡ false
      → ((s : Specialist)
          → (client_of clients s).tool_meta_resolver
            ≡ resolve_specialist_meta inject (workload_of s))
      → (agents : Agents Float) (a : App F R ids py ttl str)
      → require a.task_registry context.task.task_id ≡ ok context
      → let a' =
          (run_agents F R ids inject settings getenv py ttl str provider policy clients context
            agents a).1 in
        (a'.task_registry ≡ a.task_registry) × RunChanges context a.world.business a'.world.business
  unfolding run_agents
  run_agents-Changes clients context only nt resolves (finish last_agent final_output) a hr =
      (refl, done a.world.business)
  run_agents-Changes clients context only nt resolves (fail e) a hr = (refl, done a.world.business)
  run_agents-Changes clients context only nt resolves (calls s call next) a hr =
      let (headers, resolved, hw, ht) =
        resolved-from_meta inject only (workload_of s) context (workload_of-nonempty s) nt in
      let meta = received headers in
      let r = serve F R ids py ttl str provider policy call meta a in
      let (same_r, grows) =
        after_call context call (expected_workload call) meta a r _ ht hr
          (serve-Trusted F R ids py ttl str provider policy call meta a) in
      let rest =
        run_agents-Changes clients context only nt resolves (next r.0) r.1
          (ap (λ tasks. require tasks context.task.task_id) same_r ∙ hr) in
      let same_meta : meta_for ((client_of clients s).tool_meta_resolver (some context)) ≡ meta =
        ap (λ f. meta_for (f (some context))) (resolves s) ∙ ap (meta_for) resolved in
      subst
        (λ meta.
          let r = serve F R ids py ttl str provider policy call meta a in
          let a' =
            (run_agents F R ids inject settings getenv py ttl str provider policy clients context
              (next r.0) r.1).1 in
          (a'.task_registry ≡ a.task_registry)
          × RunChanges context a.world.business a'.world.business)
        (sym same_meta) (rest.0 ∙ same_r, grows rest.1)

  pub with_clients-Changes :
      (context : AsanteRunContext Float)
      → OnlyTraceHeaders inject
      → (context.task.task_id == "") ≡ false
      → (agents : Agents Float) (a : App F R ids py ttl str)
      → require a.task_registry context.task.task_id ≡ ok context
      → RunChanges context a.world.business
          (with_clients F R ids inject settings getenv py ttl str provider policy context agents
            a).1.world.business
  unfolding with_clients
  with_clients-Changes context only nt agents a hr =
      elim (build_clients-cases F R ids inject settings getenv py ttl str provider policy a) [
        | inl (e, h) ↦ rw h (done a.world.business)
        | inr (clients, h, built) ↦ rw h (
            (run_agents-Changes clients context only nt
              (λ sp.
                (built_client inject F settings getenv sp none (client_of clients sp) (built sp)).1)
              agents a hr).1)
      ]
