-- ===== src/Tools/Safety.antt =====
-- No secured tool changes a store of the business, or reads the cache or the provider, unless its
-- own invocation was admitted and revalidated.
pub mod Operations
pub mod Credit
pub mod Reservation
pub mod Approved
use asante_secure_multi_agen.Prelude.{ℕ, ◌≤◌, String, ◌≡◌, refl, inl, inr, List, arith, Bool-cases}
use asante_secure_multi_agen.Prelude.Exec.{Result, ok, Action, Outcome-cases, Result-cases}
use asante_secure_multi_agen.Floats.{Floats}
use asante_secure_multi_agen.Values.{Fields}
use asante_secure_multi_agen.Ruhusa.{
  Ruhusa, TaskContext, DelegationGrant, Invocation, Authorization, earlier,
}
use asante_secure_multi_agen.Identity.Workload.{
  Identities, require_workload, WorkloadIdentity, supervisor_workload,
}
use asante_secure_multi_agen.World.{World, Business}
use asante_secure_multi_agen.Tools.Operations.{
  TextOps, resource_of, execute_operation, operation_invocation, run_operation,
}
use asante_secure_multi_agen.Tools.Fence.{
  Admitted, Fenced, kept_out, let_in, gated-Fenced, IsDenied,
}
use asante_secure_multi_agen.Metrics.{Meter}
use asante_secure_multi_agen.Tools.Gate.{gated}
use mathlib.Core.Path.{subst}

module _ {N : Type 0} (R : Ruhusa N) where
  -- The call raised or was refused, with the stores as they were, or the library admitted and
  -- revalidated an invocation of `kind` and the stores changed by `Effect`.
  pub data OnlyIfAdmitted (kind : Invocation N → Type 0) (Effect : Business N → Business N → Type 0)
      (w : World R) (r : Result (Fields N) × World R) : Type 0 where
    untouched : r.1.business ≡ w.business → IsDenied R r.0 → OnlyIfAdmitted kind Effect w r
    allowed :
        (inv : Invocation N) (permit : R.Permit) (auth : Authorization) (end : R.Control)
        → kind inv
        → Admitted R inv w.control end permit auth
        → Effect w.business r.1.business
        → OnlyIfAdmitted kind Effect w r

  pub OnlyIfAdmitted-map :
      (kind : Invocation N → Type 0) (E E' : Business N → Business N → Type 0) (w : World R)
      (r : Result (Fields N) × World R)
      → ((b b' : Business N) → E b b' → E' b b')
      → OnlyIfAdmitted kind E w r
      → OnlyIfAdmitted kind E' w r
  OnlyIfAdmitted-map kind E E' w r f (untouched same d) = untouched same d
  OnlyIfAdmitted-map kind E E' w r f (allowed inv permit auth end k adm e) =
      allowed inv permit auth end k adm (f w.business r.1.business e)

  -- The acting principal, the action, the resource, the arguments and the authority of an
  -- invocation.
  abbrev pub Acts :
      Identities
      → String
      → String
      → String
      → Fields N
      → TaskContext
      → List (DelegationGrant N)
      → Invocation N
      → Type 0
  Acts ids workload action reservation_id arguments task chain inv =
      (i : WorkloadIdentity) × (require_workload ids workload ≡ ok i)
      × (inv.executing_principal_id ≡ i.principal_id)
      × (inv.action ≡ action)
      × (inv.resource ≡ resource_of reservation_id)
      × (inv.arguments ≡ arguments)
      × (inv.task ≡ task)
      × (inv.delegation_chain ≡ chain)
      × (inv.expires_at ≤ task.expires_at)

  pub gated-OnlyIfAdmitted :
      (kind : Invocation N → Type 0) (Effect : Business N → Business N → Type 0)
      (inv : Invocation N) (on_blocked : String → Action Meter Unit)
      (on_no_permit : Action Meter Unit)
      (body : R.Permit → Authorization → Action (World R) (Fields N)) (w : World R)
      → kind inv
      → ((permit : R.Permit) (auth : Authorization) (w' : World R)
          → Effect w'.business (body permit auth w').1.business)
      → OnlyIfAdmitted kind Effect w (gated R inv on_blocked on_no_permit body w)
  gated-OnlyIfAdmitted kind Effect inv on_blocked on_no_permit body w k effect =
      go (gated R inv on_blocked on_no_permit body w)
        (gated-Fenced R inv on_blocked on_no_permit body w)
    where
      go :
          (r : Result (Fields N) × World R) → Fenced R inv body w r → OnlyIfAdmitted kind Effect w r
      go r (kept_out same d) = untouched same d
      go r (let_in permit auth w' adm same eq) = allowed inv permit auth w'.control k adm (
          rw eq
            (subst (λ b. Effect b (body permit auth w').1.business) same (effect permit auth w')))

pub earlier-le : (a b : ℕ) → earlier a b ≤ a
earlier-le a b = ground arith

module _ (F : Floats) (R : Ruhusa F.Float) (ids : Identities) (py : TextOps) where
  open F use {Float}

  run_operation-business :
      (action : String) (operation : Action (Business Float) (Fields Float)) (permit : R.Permit)
      (auth : Authorization) (w : World R)
      → (run_operation F R ids py action operation permit auth w).1.business
        ≡ (operation w.business).1
  unfolding run_operation
  run_operation-business action operation permit auth w =
      elim (Outcome-cases (operation w.business)) [
        | inr (e, b, h) ↦ rw h (elim (Outcome-cases (R.mark_unknown permit w.control)) [
          | inr (e', c, h') ↦ rw h'
          | inl (u, c, h') ↦ rw h'
        ])
        | inl (result, b, h) ↦ rw h (elim (Outcome-cases (R.complete permit w.control)) [
          | inr (e', c, h') ↦ rw h'
          | inl (true_or, c, h') ↦ rw h' (elim (Bool-cases true_or) [ inl t ↦ rw t | inr f ↦ rw f ])
        ])
      ]

  execute_operation-OnlyIfAdmitted :
      (action workload reservation_id : String) (arguments : Fields Float) (task : TaskContext)
      (chain : List (DelegationGrant Float)) (now : ℕ)
      (operation : Action (Business Float) (Fields Float)) (w : World R)
      → OnlyIfAdmitted R
          (Acts R ids workload action reservation_id arguments task chain)
          (λ b b'. b' ≡ (operation b).1)
          w
          (execute_operation F R ids py action workload reservation_id arguments task chain now
            operation w)
  unfolding execute_operation
  execute_operation-OnlyIfAdmitted action workload reservation_id arguments task chain now operation
        w =
      elim (Result-cases (require_workload ids supervisor_workload)) [
        | inr (e, h) ↦ rw h (untouched refl tt)
        | inl (i, h) ↦ rw h (elim (Result-cases (require_workload ids workload)) [
          | inr (e, h') ↦ rw h' (untouched refl tt)
          | inl (j, h') ↦ rw h' (
              gated-OnlyIfAdmitted R
                (Acts R ids workload action reservation_id arguments task chain)
                (λ b b'. b' ≡ (operation b).1)
                (operation_invocation F R ids py action reservation_id arguments task chain now i j)
                _ _ _ w (j, h', refl, refl, refl, refl, refl, refl, earlier-le _ _)
                (run_operation-business action operation))
        ])
      ]
