-- ===== src/Mcp/Boundary.antt =====
-- What a model that calls a tool over MCP can reach: the authority of a call is the registered
-- run context's, whatever its arguments are.
use asante_secure_multi_agen.Prelude.{
  ℕ, String, ◌≡◌, refl, ap, ◌∙◌, ◌⊎◌, inl, inr, Option, none, some, ◌==◌, eq_iff, Bool-cases,
  Option-cases,
}
use asante_secure_multi_agen.Prelude.Dict.{get}
use asante_secure_multi_agen.Prelude.Exec.{
  Exc, trusted_task_not_found_error, tool_error, Result, ok, err, Action, Outcome-cases,
}
use asante_secure_multi_agen.Floats.{Floats}
use asante_secure_multi_agen.Ruhusa.{Ruhusa, Invocation}
use asante_secure_multi_agen.Identity.Workload.{Identities}
use asante_secure_multi_agen.Tools.Operations.{TextOps}
use asante_secure_multi_agen.Values.{null, Value, Fields, text, flag, num, instant, obj}
use asante_secure_multi_agen.Mcp.Server.{
  handler, text_or, require_specialist, App, workload_from_meta, for_trusted_task,
  task_id_from_meta, asante_task_meta_key, asante_workload_meta_key, is_task_not_found,
}
use asante_secure_multi_agen.Metrics.{record_mcp_call}
use asante_secure_multi_agen.Mcp.Registry.{AsanteRunContext, require, Registry}
use asante_secure_multi_agen.World.{Business, World}
use asante_secure_multi_agen.Tools.Safety.{OnlyIfAdmitted, untouched, allowed}

module _ (F : Floats) (R : Ruhusa F.Float) (ids : Identities) (py : TextOps) (ttl : ℕ)
    (str : Value F.Float → String) where
  open F use {Float}

  -- A call with this metadata: either it raised `ToolError` with the library not asked and the
  -- stores and the registry as they were; or its metadata names the workload of the tool and a
  -- registered task, the registry is as it was, and the stores changed only if an invocation of
  -- `kind` for that run context was admitted, by `Effect`.
  pub data Trusted (meta : Fields Float) (workload : String)
      (kind : AsanteRunContext Float → Invocation Float → Type 0)
      (Effect : AsanteRunContext Float → Business Float → Business Float → Type 0)
      (a : App F R ids py ttl str) (r : Result (Fields Float) × App F R ids py ttl str)
      : Type 0 where
    turned_away :
        (problem : String)
        → r.0 ≡ err (tool_error problem)
        → r.1.world.control ≡ a.world.control
        → r.1.world.business ≡ a.world.business
        → r.1.task_registry ≡ a.task_registry
        → Trusted meta workload kind Effect a r
    served :
        (task_id : String) (run_context : AsanteRunContext Float)
        → workload_from_meta meta ≡ ok workload
        → task_id_from_meta meta ≡ ok task_id
        → require a.task_registry task_id ≡ ok run_context
        → r.1.task_registry ≡ a.task_registry
        → OnlyIfAdmitted R (kind run_context) (Effect run_context) a.world (r.0, r.1.world)
        → Trusted meta workload kind Effect a r

  text_or-cases :
      (problem : String) (v : Option (Value Float))
      → ((s : String) × (text_or problem v ≡ ok s)) ⊎ (text_or problem v ≡ err (tool_error problem))
  text_or-cases problem none = inr refl
  text_or-cases problem (some (text s)) = elim (Bool-cases (s == "")) [
    | inl h ↦ rw h (inr refl)
    | inr h ↦ rw h (inl (s, refl))
  ]
  text_or-cases problem (some (flag x)) = inr refl
  text_or-cases problem (some (num x)) = inr refl
  text_or-cases problem (some (instant x)) = inr refl
  text_or-cases problem (some null) = inr refl
  text_or-cases problem (some (obj x)) = inr refl

  workload_from_meta-cases :
      (meta : Fields Float)
      → ((s : String) × (workload_from_meta meta ≡ ok s))
        ⊎ (workload_from_meta meta ≡ err (tool_error "missing trusted Asante workload context"))
  unfolding workload_from_meta
  workload_from_meta-cases meta = text_or-cases _ (get meta asante_workload_meta_key)

  task_id_from_meta-cases :
      (meta : Fields Float)
      → ((s : String) × (task_id_from_meta meta ≡ ok s))
        ⊎ (task_id_from_meta meta ≡ err (tool_error "missing trusted Asante task context"))
  unfolding task_id_from_meta
  task_id_from_meta-cases meta = text_or-cases _ (get meta asante_task_meta_key)

  require-cases :
      (contexts : Registry Float) (task_id : String)
      → ((c : AsanteRunContext Float) × (require contexts task_id ≡ ok c))
        ⊎ (require contexts task_id
            ≡ err (trusted_task_not_found_error "unknown or expired trusted task"))
  unfolding require
  require-cases contexts task_id = elim (Option-cases (get contexts task_id)) [
    | inl h ↦ rw h (inr refl)
    | inr (c, h) ↦ rw h (inl (c, refl))
  ]

  raised-OnlyIfAdmitted :
      (kind : Invocation Float → Type 0) (Effect : Business Float → Business Float → Type 0)
      (w w' w'' : World R) (e e' : Exc)
      → w''.business ≡ w'.business
      → OnlyIfAdmitted R kind Effect w (err e, w')
      → OnlyIfAdmitted R kind Effect w (err e', w'')
  raised-OnlyIfAdmitted kind Effect w w' w'' e e' same (untouched h d) = untouched (same ∙ h) tt
  raised-OnlyIfAdmitted kind Effect w w' w'' e e' same (allowed inv permit auth end k adm eff) =
      allowed inv permit auth end k adm (rw same eff)

  answered-OnlyIfAdmitted :
      (kind : Invocation Float → Type 0) (Effect : Business Float → Business Float → Type 0)
      (w w' w'' : World R) (fields : Fields Float)
      → w''.business ≡ w'.business
      → OnlyIfAdmitted R kind Effect w (ok fields, w')
      → OnlyIfAdmitted R kind Effect w (ok fields, w'')
  answered-OnlyIfAdmitted kind Effect w w' w'' fields same (untouched h d) = untouched (same ∙ h) d
  answered-OnlyIfAdmitted kind Effect w w' w'' fields same (allowed inv permit auth end k adm eff) =
      allowed inv permit auth end k adm (rw same eff)

  pub handler-Trusted :
      (tool_name workload : String) (outcome : Fields Float → String) (meta : Fields Float)
      (tool : AsanteRunContext Float → Action (World R) (Fields Float))
      (kind : AsanteRunContext Float → Invocation Float → Type 0)
      (Effect : AsanteRunContext Float → Business Float → Business Float → Type 0)
      (a : App F R ids py ttl str)
      → ((c : AsanteRunContext Float)
          → OnlyIfAdmitted R (kind c) (Effect c) a.world (tool c a.world))
      → Trusted meta workload kind Effect a (
          handler F R ids py ttl str tool_name workload outcome meta
            (λ task_id. for_trusted_task F R ids py ttl str task_id tool)
            a)
  unfolding handler record_mcp_call require_specialist
  handler-Trusted tool_name workload outcome meta tool kind Effect a safe =
      elim (workload_from_meta-cases meta) [
        | inr h ↦ rw h (turned_away _ refl refl refl refl)
        | inl (actual, h) ↦ elim (Bool-cases (actual == workload)) [
          | inr n ↦ rw (h, n) (turned_away _ refl refl refl refl)
          | inl y ↦ elim (task_id_from_meta-cases meta) [
            | inr k ↦ rw (h, y, k) (turned_away _ refl refl refl refl)
            | inl (task_id, k) ↦ elim (require-cases a.task_registry task_id) [
              | inr q ↦ rw (h, y, k, q) (turned_away _ refl refl refl refl)
              | inl (c, q) ↦
                  let done = safe c in
                  elim (Outcome-cases (tool c a.world)) [
                    | inl (fields, w', t) ↦
                        rw (h, y, k, q, t)
                          (served task_id c (h ∙ ap ok ((eq_iff actual workload).0 y)) k q refl (
                            answered-OnlyIfAdmitted (kind c) (Effect c) a.world w' _ fields refl
                              (rw t at done)))
                    | inr (e, w', t) ↦ elim (Bool-cases (is_task_not_found e)) [
                      | inl z ↦
                          rw (h, y, k, q, t, z)
                            (served task_id c (h ∙ ap ok ((eq_iff actual workload).0 y)) k q refl (
                              raised-OnlyIfAdmitted (kind c) (Effect c) a.world w' _ e _ refl
                                (rw t at done)))
                      | inr z ↦
                          rw (h, y, k, q, t, z)
                            (served task_id c (h ∙ ap ok ((eq_iff actual workload).0 y)) k q refl
                              (rw t at done))
                    ]
                  ]
            ]
          ]
        ]
      ]
