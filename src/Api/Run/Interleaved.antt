-- ===== src/Api/Run/Interleaved.antt =====
-- What calls of tools may change while several runs are served.
use asante_secure_multi_agen.Prelude.{
  ℕ, String, ◌≡◌, refl, sym, ap, ◌∙◌, ◌≢◌, ◌⊎◌, inl, inr, Bool, true, false, some, List, [], ◌∷◌,
  arith, ◌==◌, eq_iff, Bool-cases,
}
use asante_secure_multi_agen.Prelude.Dict.{get, put, remove, get-put, get-remove}
use asante_secure_multi_agen.Prelude.Exec.{ok, Outcome-cases}
use asante_secure_multi_agen.Floats.{Floats}
use asante_secure_multi_agen.Ruhusa.{Ruhusa, Invocation, Authorization}
use asante_secure_multi_agen.Values.{Value, Fields}
use asante_secure_multi_agen.World.{World}
use asante_secure_multi_agen.Identity.Workload.{Identities}
use asante_secure_multi_agen.Identity.Human.{AuthenticatedHuman}
use asante_secure_multi_agen.Mcp.Registry.{
  AsanteRunContext, Registry, register, unregister, refused, get_of_require, registered-put,
}
use asante_secure_multi_agen.Mcp.Server.{App}
use asante_secure_multi_agen.Mcp.Dispatch.{McpCall, serve, serve-Trusted, Invokes, Changes}
use asante_secure_multi_agen.Tools.Operations.{TextOps}
use asante_secure_multi_agen.Tools.Credit.{CreditProvider}
use asante_secure_multi_agen.Reliability.Retry.{RetryPolicy}
use asante_secure_multi_agen.Api.Run.{RunDraw, run_task, issue_run_context}
use mathlib.Core.Path.{subst}
use asante_secure_multi_agen.Mcp.Boundary.{served, turned_away}
use asante_secure_multi_agen.Api.Run.Tasks.{issue_run_context-task}
use asante_secure_multi_agen.Tools.Safety.{allowed, untouched}
use asante_secure_multi_agen.Tools.Fence.{Admitted}
use asante_secure_multi_agen.Api.Run.Steps.{
  Step, begins, calls_tool, ends, serves, step, begin_run, after, Running, began, goes_on,
}

module _ (F : Floats) (R : Ruhusa F.Float) (ids : Identities) (py : TextOps) (ttl : ℕ)
    (str : Value F.Float → String) (provider : CreditProvider F.Float)
    (policy : RetryPolicy F.Float)
    (same : AsanteRunContext F.Float → AsanteRunContext F.Float → Bool) where
  open F use {Float}

  abbrev state : World R → List (Step R) → App F R ids py ttl str
  state = after F R ids py ttl str provider policy same

  abbrev Runs : World R → AsanteRunContext Float → AuthenticatedHuman → List (Step R) → Type 0
  Runs = Running F R ids py ttl str provider policy same

  abbrev Known : World R → List (Step R) → Registry Float → Type 0
  Known w history tasks =
      (task_id : String) (context : AsanteRunContext Float)
      → get tasks task_id ≡ some context
      → (context.task.task_id ≡ task_id)
        × ((operator : AuthenticatedHuman) × Runs w context operator history)

  kept-Known :
      (w : World R) (history : List (Step R)) (s : Step R) (tasks tasks' : Registry Float)
      → ((context : AsanteRunContext Float) (task_id : String)
          → get tasks' task_id ≡ some context
          → (get tasks task_id ≡ some context) × (s ≢ ends task_id))
      → Known w history tasks
      → Known w (s ∷ history) tasks'
  kept-Known w history s tasks tasks' back known task_id context h =
      let (h', still) = back context task_id h in
      let (same_id, running) = known task_id context h' in
      let (operator, runs) = running in
      (same_id, (operator, goes_on s history (subst (λ t. s ≢ ends t) (sym same_id) still) runs))

  abbrev is_ending : Step R → Bool
  is_ending (ends task_id) = true
  is_ending s = false

  abbrev ending : Step R → String
  ending (ends task_id) = task_id
  ending s = ""

  no_end : (s : Step R) (task_id : String) → is_ending s ≡ false → s ≢ ends task_id
  no_end s task_id h e = ground (arith, h, ap is_ending e)

  serve-keeps :
      (call : McpCall Float) (meta : Fields Float) (a : App F R ids py ttl str)
      → (serve F R ids py ttl str provider policy call meta a).1.task_registry ≡ a.task_registry
  serve-keeps call meta a = elim (serve-Trusted F R ids py ttl str provider policy call meta a) [
    | turned_away p e same_c same_b same_r ↦ same_r
    | served task_id c hw ht hr same_r only ↦ same_r
  ]

  get_of_remove :
      (tasks : Registry Float) (ended task_id : String) (context : AsanteRunContext Float)
      → get (remove tasks ended) task_id ≡ some context
      → (get tasks task_id ≡ some context) × (◌≢◌ {A = Step R} (ends ended) (ends task_id))
  get_of_remove tasks ended task_id context h = elim (Bool-cases (ended == task_id)) [
    | inl y ↦ ground (arith, y, get-remove tasks ended task_id, h)
    | inr n ↦ (
      ground (arith, n, get-remove tasks ended task_id, h),
      λ e. ground (arith, n, eq_iff ended task_id, ap ending e),
    )
  ]

  begin_run-registry :
      (draw : RunDraw) (operator : AuthenticatedHuman) (a : App F R ids py ttl str)
      → let tasks' =
          (begin_run F R ids py ttl str provider policy same draw operator a).1.task_registry in
        (tasks' ≡ a.task_registry)
        ⊎ ((context : AsanteRunContext Float) × (c : R.Control) × (issue_run_context F R ids draw
                (run_task draw operator)
                a.world.control
              ≡ (ok context, c))
            × (tasks' ≡ put a.task_registry context.task.task_id context))
  begin_run-registry draw operator a =
      elim (Outcome-cases
        (issue_run_context F R ids draw (run_task draw operator) a.world.control)) [
          | inr (e, c, h) ↦ rw h (inl refl)
          | inl (context, c, h) ↦
              rw h (elim (Outcome-cases (register same context a.task_registry)) [
                | inr (e, tasks, k) ↦ rw k (inl (refused same context a.task_registry tasks e k))
                | inl (u, tasks, k) ↦
                    rw k (
                      inr (context, c, refl, registered-put same context a.task_registry tasks u k))
              ])
        ]

  -- The registry state a run of the operator has been registered.
  added-Known :
      (w : World R) (history : List (Step R)) (draw : RunDraw) (operator : AuthenticatedHuman)
      (context : AsanteRunContext Float) (c : R.Control) (tasks tasks' : Registry Float)
      → issue_run_context F R ids draw (run_task draw operator) (state w history).world.control
        ≡ (ok context, c)
      → tasks' ≡ put tasks context.task.task_id context
      → Known w history tasks
      → Known w (begins draw operator ∷ history) tasks'
  added-Known w history draw operator context c tasks tasks' issued put_in known task_id found h =
      let looked =
        sym (get-put tasks context.task.task_id task_id context)
        ∙ ap (λ r. get r task_id) (sym put_in)
        ∙ h in
      elim (Bool-cases (context.task.task_id == task_id)) [
        | inl y ↦
            let is_found : context ≡ found = ground (arith, y, looked) in
            let is_task =
              issue_run_context-task F R ids draw (run_task draw operator)
                (state w history).world.control c context issued in
            subst
              (λ found.
                (found.task.task_id ≡ task_id)
                × ((by : AuthenticatedHuman) × Runs w found by (begins draw operator ∷ history)))
              is_found
              (
                (eq_iff context.task.task_id task_id).0 y,
                (operator, began draw history c issued (ap (λ t. t.initiated_by) is_task)),
              )
        | inr n ↦
            let (same_id, running) = known task_id found (ground (arith, n, looked)) in
            let (other, runs) = running in
            (
              same_id,
              (
                other,
                goes_on (begins draw operator) history
                    (no_end (begins draw operator) found.task.task_id refl) runs,
              ),
            )
      ]

  -- The contexts that the registry holds are those of runs which began and have not ended.
  after-Known :
      (w : World R) (history : List (Step R)) → Known w history (state w history).task_registry
  unfolding step unregister
  after-Known w [] = λ task_id context h. ground (arith, h)
  after-Known w (serves f ∷ history) =
      kept-Known w history (serves f) _ _ (λ context task_id h. (h, no_end (serves f) task_id refl))
        (after-Known w history)
  after-Known w (calls_tool call meta ∷ history) =
      kept-Known w history (calls_tool call meta) _ _
        (λ context task_id h. (
          ap (λ tasks. get tasks task_id) (sym (serve-keeps call meta (state w history))) ∙ h,
          no_end (calls_tool call meta) task_id refl,
        ))
        (after-Known w history)
  after-Known w (ends ended ∷ history) =
      kept-Known w history (ends ended) _ _
        (λ context task_id h. get_of_remove (state w history).task_registry ended task_id context h)
        (after-Known w history)
  after-Known w (begins draw operator ∷ history) =
      let a = state w history in
      elim (begin_run-registry draw operator a) [
        | inl kept ↦
            kept-Known w history (begins draw operator) a.task_registry _
              (λ context task_id h. (
                ap (λ tasks. get tasks task_id) (sym kept) ∙ h,
                no_end (begins draw operator) task_id refl,
              ))
              (after-Known w history)
        | inr (context, c, issued, put_in) ↦
            added-Known w history draw operator context c a.task_registry _ issued put_in
              (after-Known w history)
      ]

  -- Runs of several operators may be served at the same time, in any interleaving, with any other
  -- requests between their steps. Then a call of a tool with any metadata changes the stores only
  -- under an invocation that the library admitted and revalidated with the task and the
  -- delegations of one run: a run that an operator began, who initiated its task, and that has not
  -- ended; and it changes them only as the tool does in that run.
  pub interleaved_call-Running :
      (w : World R) (history : List (Step R)) (call : McpCall Float) (meta : Fields Float)
      → let a = state w history in
        let b' = (state w (calls_tool call meta ∷ history)).world.business in
        (b' ≡ a.world.business)
        ⊎ ((context : AsanteRunContext Float) × (operator : AuthenticatedHuman) × (inv : Invocation
              Float)
            × (permit : R.Permit) × (auth : Authorization) × (end : R.Control) × Runs w context
                operator history
            × Invokes F R ids py ttl str provider policy call context inv
            × Admitted R inv a.world.control end permit auth
            × Changes F R ids py ttl str provider policy call context a.world.business b')
  unfolding step
  interleaved_call-Running w history call meta =
      let a = state w history in
      elim (serve-Trusted F R ids py ttl str provider policy call meta a) [
        | turned_away p e same_c same_b same_r ↦ inl same_b
        | served task_id context hw ht hr same_r only ↦
            let (same_id, running) =
              after-Known w history task_id context
                (get_of_require a.task_registry task_id context hr) in
            let (operator, runs) = running in
            elim only [
              | untouched same_b d ↦ inl same_b
              | allowed inv permit auth end k adm e ↦
                  inr (context, operator, inv, permit, auth, end, runs, k, adm, e)
            ]
      ]
