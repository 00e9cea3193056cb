-- ===== src/Tools/Fence.antt =====
-- The fence in front of every secured tool: what has happened before its body runs.
use asante_secure_multi_agen.Prelude.{
  String, ◌≡◌, refl, inl, inr, true, Option, none, some, Bool-cases,
}
use asante_secure_multi_agen.Prelude.Exec.{Exc, Result, ok, err, Action, continue, Outcome-cases}
use asante_secure_multi_agen.Values.{Fields}
use asante_secure_multi_agen.Metrics.{Meter, record_authorization}
use asante_secure_multi_agen.Ruhusa.{Ruhusa, Invocation, Authorization, Admission, Revalidation}
use asante_secure_multi_agen.World.{World}
use asante_secure_multi_agen.Tools.Gate.{
  Gate, refused, admitted, admit, gated, resolve, refuse, revalidate, blocked_result,
}

module _ {N : Type 0} (R : Ruhusa N) where
  open R use {Control, Request, Permit, create, begin, revalidate_before_execution}

  -- The library created the invocation, admitted it with this permit, and then allowed it once
  -- more, live, for this permit; it began in the one state and is left in the other.
  pub record Admitted (inv : Invocation N) (start end : Control) (permit : Permit)
      (auth : Authorization) : Type 0 where
    pub request : Request
    pub created : Control
    pub admission : Admission Permit
    pub begun : Control
    pub live : Revalidation
    pub creates : create inv start ≡ (ok request, created)
    pub begins : begin request created ≡ (ok admission, begun)
    pub admits : admission.allowed ≡ true
    pub permits : admission.permit ≡ some permit
    pub revalidates : revalidate_before_execution request permit begun ≡ (ok live, end)
    pub allows : live.allowed ≡ true
    pub live_authorization : live.authorization ≡ auth

  -- The answer of a call that was kept out.
  abbrev pub IsDenied : Result (Fields N) → Type 0
  IsDenied (ok fields) =
      (effect : String) × (reason : String) × (fields ≡ blocked_result effect reason)
  IsDenied (err e) = Unit

  -- What an admission comes to, with the stores of the business as they were.
  pub data GateRun (inv : Invocation N) (w : World R) (r : Result (Gate R) × World R) : Type 0 where
    raised : (e : Exc) (w' : World R) → r ≡ (err e, w') → w'.business ≡ w.business → GateRun inv w r
    refuses :
        (effect reason : String) (w' : World R)
        → r ≡ (ok (refused (blocked_result effect reason)), w')
        → w'.business ≡ w.business
        → GateRun inv w r
    passes :
        (permit : Permit) (auth : Authorization) (w' : World R)
        → r ≡ (ok (admitted permit auth), w')
        → w'.business ≡ w.business
        → Admitted inv w.control w'.control permit auth
        → GateRun inv w r

  module _ (inv : Invocation N) (on_blocked : String → Action Meter Unit)
      (on_no_permit : Action Meter Unit) where
    refuse-GateRun :
        (phase : String) (auth : Authorization) (w w' : World R)
        → w'.business ≡ w.business
        → GateRun inv w (refuse R inv on_blocked on_no_permit phase auth w')
    refuse-GateRun phase auth w w' same = elim (Outcome-cases (on_blocked phase w'.meter)) [
      | inr (e, m, h) ↦ rw h (raised e (record w' { meter = m }) refl same)
      | inl (u, m, h) ↦ rw h (refuses _ _ (record w' { meter = m }) refl same)
    ]

    revalidate-GateRun :
        (request : Request) (created begun : Control) (admission : Admission Permit)
        (w w' : World R)
        → w'.business ≡ w.business
        → w'.control ≡ begun
        → create inv w.control ≡ (ok request, created)
        → begin request created ≡ (ok admission, begun)
        → admission.allowed ≡ true
        → (permit : Option Permit) → admission.permit ≡ permit
        → GateRun inv w (revalidate R inv on_blocked on_no_permit request permit w')
    unfolding record_authorization
    revalidate-GateRun request created begun admission w w' same here cs bs ok_ none p =
        elim (Outcome-cases (on_no_permit w'.meter)) [
          | inr (e, m, h) ↦ rw h (raised e (record w' { meter = m }) refl same)
          | inl (u, m, h) ↦ rw h (refuses _ _ (record w' { meter = m }) refl same)
        ]
    revalidate-GateRun request created begun admission w w' same here cs bs ok_ (some permit) p =
        elim (Outcome-cases (revalidate_before_execution request permit w'.control)) [
          | inr (e, c, h) ↦ rw h (raised e (record w' { control = c }) refl same)
          | inl (live, c, h) ↦ rw h (elim (Bool-cases live.allowed) [
            | inr no_ ↦ rw no_ (refuse-GateRun "revalidation" live.authorization w _ same)
            | inl yes_ ↦ rw yes_ (
                passes permit live.authorization _ refl same (record {
                  request = request;
                  created = created;
                  admission = admission;
                  begun = begun;
                  live = live;
                  creates = cs;
                  begins = bs;
                  admits = ok_;
                  permits = p;
                  revalidates = rw here at h;
                  allows = yes_;
                  live_authorization = refl;
                }))
          ])
        ]

    pub admit-GateRun : (w : World R) → GateRun inv w (admit R inv on_blocked on_no_permit w)
    unfolding admit
    admit-GateRun w = elim (Outcome-cases (create inv w.control)) [
      | inr (e, c, h) ↦ rw h (raised e (record w { control = c }) refl refl)
      | inl (request, c, h) ↦ rw h (elim (Outcome-cases (begin request c)) [
        | inr (e, c', h') ↦ rw h' (raised e (record w { control = c' }) refl refl)
        | inl (admission, c', h') ↦ rw h' (elim (Bool-cases admission.allowed) [
          | inr no_ ↦ rw no_ (refuse-GateRun "admission" admission.authorization w _ refl)
          | inl yes_ ↦ rw yes_ (
              revalidate-GateRun request c c' admission w _ refl refl h h' yes_ admission.permit
                refl)
        ])
      ])
    ]

  -- A call of a secured tool from `w`: either it raised or answered with a refusal, which tells an
  -- effect and a reason, and the stores of the business are as they were; or the
  -- invocation was admitted and revalidated, and all that the call does to them its body does.
  pub data Fenced (inv : Invocation N) (body : Permit → Authorization → Action (World R) (Fields N))
      (w : World R) (r : Result (Fields N) × World R) : Type 0 where
    kept_out : r.1.business ≡ w.business → IsDenied r.0 → Fenced inv body w r
    let_in :
        (permit : Permit) (auth : Authorization) (w' : World R)
        → Admitted inv w.control w'.control permit auth
        → w'.business ≡ w.business
        → r ≡ body permit auth w'
        → Fenced inv body w r

  -- A secured tool either raises, or answers with a refusal that tells an effect and a reason, and
  -- the stores of the business are as they were; or the library created the invocation, admitted
  -- it with a permit and then allowed it once more for this permit, the stores are as they were
  -- until then, and the call goes on as the tool's body does with the permit.
  pub gated-Fenced :
      (inv : Invocation N) (on_blocked : String → Action Meter Unit)
      (on_no_permit : Action Meter Unit)
      (body : Permit → Authorization → Action (World R) (Fields N)) (w : World R)
      → Fenced inv body w (gated R inv on_blocked on_no_permit body w)
  unfolding gated
  gated-Fenced inv on_blocked on_no_permit body w =
      go (admit R inv on_blocked on_no_permit w) (admit-GateRun inv on_blocked on_no_permit w)
    where
      go :
          (r : Result (Gate R) × World R)
          → GateRun inv w r
          → Fenced inv body w (continue (resolve R inv on_blocked on_no_permit body) r.0 r.1)
      go r (raised e w' eq same) = rw eq (kept_out same tt)
      go r (refuses effect reason w' eq same) = rw eq (kept_out same (effect, reason, refl))
      go r (passes permit auth w' eq same adm) = rw eq (let_in permit auth w' adm same refl)
