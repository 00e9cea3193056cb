-- ===== src/Tools/Gate.antt =====
-- What the four secured tools have in common, written out in each of them: the invocation is
-- created, admitted, and revalidated with its permit, and a metric is recorded at each stage. The
-- tools differ in the metric of a refusal, which is an argument.
use asante_secure_multi_agen.Prelude.{String, not, Option, none, some, [], ◌∷◌, if◌then◌else◌}
use asante_secure_multi_agen.Prelude.Exec.{Action, pure, ◌>>=◌, ◌>>◌}
use asante_secure_multi_agen.Values.{text, Fields}
use asante_secure_multi_agen.Metrics.{Meter, record_authorization}
use asante_secure_multi_agen.Ruhusa.{Ruhusa, Invocation, Authorization, Admission, Revalidation}
use asante_secure_multi_agen.World.{World, on_control, on_meter}

abbrev pub blocked_result : {N : Type 0} → String → String → Fields N
blocked_result effect reason =
    ("status", text "blocked") ∷ ("effect", text effect) ∷ ("reason", text reason) ∷ []

module _ {N : Type 0} (R : Ruhusa N) where
  open R use {Control, Request, Permit, create, begin, revalidate_before_execution}

  pub data Gate : Type 0 where
    refused : Fields N → Gate
    admitted : Permit → Authorization → Gate

  module _ (inv : Invocation N) (on_blocked : String → Action Meter Unit)
      (on_no_permit : Action Meter Unit) where
    abbrev pub refuse : String → Authorization → Action (World R) Gate
    refuse phase auth = do
      on_meter R (on_blocked phase)
      pure (refused (blocked_result auth.effect auth.reason))

    abbrev pub live_gate : Permit → Revalidation → Action (World R) Gate
    live_gate permit live = do
      on_meter R (record_authorization inv.action live.authorization.effect "revalidation")
      if not live.allowed
          then refuse "revalidation" live.authorization
          else pure (admitted permit live.authorization)

    abbrev pub revalidate : Request → Option Permit → Action (World R) Gate
    revalidate request none = do
      on_meter R on_no_permit
      pure (refused (blocked_result "deny" "missing execution permit"))
    revalidate request (some permit) = do
      live ← on_control R (revalidate_before_execution request permit)
      live_gate permit live

    abbrev pub admission_gate : Request → Admission Permit → Action (World R) Gate
    admission_gate request admission = do
      on_meter R (record_authorization inv.action admission.authorization.effect "admission")
      if not admission.allowed
          then refuse "admission" admission.authorization
          else revalidate request admission.permit

    unfoldable pub admit : Action (World R) Gate
    unfolding record_authorization
    admit = do
      request ← on_control R (create inv)
      admission ← on_control R (begin request)
      admission_gate request admission

    abbrev pub resolve :
        (Permit → Authorization → Action (World R) (Fields N)) → Gate → Action (World R) (Fields N)
    resolve body (refused fields) = pure fields
    resolve body (admitted permit auth) = body permit auth

    -- A tool: its body runs with the permit, if the gate lets the invocation pass.
    unfoldable pub gated :
        (Permit → Authorization → Action (World R) (Fields N)) → Action (World R) (Fields N)
    gated body = do gate ← admit; resolve body gate
