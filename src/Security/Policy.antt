-- ===== src/Security/Policy.antt =====
-- security/runtime.py: the conditions and the rules of the policy, and the registered tools. How
-- the authorization library matches rules is not part of the repository.
use asante_secure_multi_agen.Prelude.{
  String, ◌≡◌, refl, sym, ◌∙◌, inl, inr, Bool, true, false, not, ◌&&◌, Option, none, some, List, [],
  ◌∷◌, arith, ◌==◌, if◌then◌else◌, Bool-cases,
}
use asante_secure_multi_agen.Prelude.Dict.{get}
use asante_secure_multi_agen.Floats.{Floats, IsOrdered}
use asante_secure_multi_agen.Values.{Fields, Value, flag, num, text}

-- `DecisionEffect`, as far as the rules use it.
pub data Effect : Type 0 where
  allows requires_approval : Effect

module _ (F : Floats) where
  open F use {Float}

  -- `amount` as a `float`, if it is an `int` or a `float`; a `bool` is an `int`.
  abbrev pub as_number : Option (Value Float) → Option Float
  as_number (some (num x)) = some x
  as_number (some (flag b)) = some (F.whole (if b then 1 else 0))
  as_number _ = none

  abbrev pub within : (Float → Bool) → Option Float → Bool
  within test none = false
  within test (some x) = test x

  unfoldable pub credit_at_most : Float → Fields Float → Bool
  credit_at_most limit arguments =
      within (λ x. F.ltf (F.whole 0) x && F.lef x limit) (as_number (get arguments "amount"))

  unfoldable pub credit_request_between : Float → Float → Fields Float → Bool
  credit_request_between lower_exclusive upper_inclusive arguments =
      within (λ x. F.ltf lower_exclusive x && F.lef x upper_inclusive)
        (as_number (get arguments "amount"))

  abbrev pub is_true : Option (Value Float) → Bool
  is_true (some (flag b)) = b
  is_true _ = false

  abbrev pub is_nonempty_text : Option (Value Float) → Bool
  is_nonempty_text (some (text s)) = not (s == "")
  is_nonempty_text _ = false

  unfoldable pub verified_approved_credit : Float → Fields Float → Bool
  verified_approved_credit limit arguments =
      is_true (get arguments "approval_verified")
      && (is_nonempty_text (get arguments "approval_id")
          && within (λ x. F.ltf (F.whole 0) x && F.lef x limit)
              (as_number (get arguments "amount")))

  pub record PolicyRule : Type 0 where
    pub policy_id : String
    pub effect : Effect
    pub actions : List String
    pub principal_ids : List String
    pub resource_prefixes : List String
    pub reason : String
    pub condition : Option (Fields Float → Bool)
    pub obligations : List String

  -- A rule of one action and one principal on reservations.
  abbrev pub rule_of :
      String
      → Effect
      → String
      → String
      → Option (Fields Float → Bool)
      → String
      → List String
      → PolicyRule
  rule_of policy_id effect action principal condition reason obligations = record {
    policy_id = policy_id;
    effect = effect;
    actions = action ∷ [];
    principal_ids = principal ∷ [];
    resource_prefixes = "reservation:" ∷ [];
    reason = reason;
    condition = condition;
    obligations = obligations;
  }

  -- The rules of `build_security_runtime`, for the principals of the five workloads.
  unfoldable pub policy_rules : String → String → String → String → String → List PolicyRule
  policy_rules reservations_id property_operations_id guest_support_id service_recovery_id
        approval_executor_id =
      rule_of "reservations-read" allows "reservation.read" reservations_id none
        "reservations specialist may read reservations within delegated scope" []
      ∷ rule_of "property-operations-maintenance-create" allows "maintenance.create"
          property_operations_id none "property operations may create maintenance work orders" []
      ∷ rule_of "guest-support-message-send" allows "guest.message.send" guest_support_id none
          "guest support may send operational guest updates" []
      ∷ rule_of "service-recovery-credit-request" allows "guest.credit.request" service_recovery_id
          (some (credit_request_between (F.whole 25) (F.whole 100)))
          "service recovery may request human approval for credits above $25 up to $100" []
      ∷ rule_of "service-recovery-small-credit" allows "guest.credit.issue" service_recovery_id
          (some (credit_at_most (F.whole 25)))
          "service recovery may issue automatic service credit up to $25" []
      ∷ rule_of "service-recovery-credit-needs-approval" requires_approval "guest.credit.issue"
          service_recovery_id (some (credit_at_most (F.whole 100)))
          "credits above $25 and up to $100 require human approval" ("human_approval" ∷ [])
      ∷ rule_of "approved-credit-executor" allows "guest.credit.issue.approved" approval_executor_id
          (some (verified_approved_credit (F.whole 100)))
          "trusted approval executor may issue a human-approved credit up to $100" []
      ∷ []

  and_false : (a b : Bool) → (a && (b && false)) ≡ false
  and_false a b = ground arith

  not_above : IsOrdered F → (x : Float) → F.ltf (F.whole 0) x ≡ false → F.ltf (F.whole 25) x ≡ false
  not_above o x h = elim (Bool-cases (F.ltf (F.whole 25) x)) [
    | inr low ↦ low
    | inl above ↦
        let zero_25 = o.ltf-whole 0 25 (omega arith) (omega arith) in
        let positive = o.ltf-lef _ _ _ zero_25 (o.lef_of_ltf _ _ above) in
        above ∙ (sym positive ∙ h)
  ]

  -- For a credit request whose amount is the number `x`, on ordered floats: if `0 < x <= 25`, the
  -- condition to issue automatically holds and the one to request an approval does not; if
  -- `25 < x <= 100`, it is the other way round, and the condition under which issuing needs an
  -- approval holds; if `100 < x`, or not `0 < x`, none of these conditions holds, and neither does
  -- that of the approval executor.
  pub credit_bands :
      IsOrdered F
      → (arguments : Fields Float) (x : Float) → as_number (get arguments "amount") ≡ some x
      → (F.ltf (F.whole 0) x ≡ true
          → F.lef x (F.whole 25) ≡ true
          → (credit_at_most (F.whole 25) arguments ≡ true)
            × (credit_at_most (F.whole 100) arguments ≡ true)
            × (credit_request_between (F.whole 25) (F.whole 100) arguments ≡ false))
        × (F.ltf (F.whole 25) x ≡ true
            → F.lef x (F.whole 100) ≡ true
            → (credit_at_most (F.whole 25) arguments ≡ false)
              × (credit_at_most (F.whole 100) arguments ≡ true)
              × (credit_request_between (F.whole 25) (F.whole 100) arguments ≡ true))
        × (F.ltf (F.whole 100) x ≡ true
            → (credit_at_most (F.whole 25) arguments ≡ false)
              × (credit_at_most (F.whole 100) arguments ≡ false)
              × (credit_request_between (F.whole 25) (F.whole 100) arguments ≡ false)
              × (verified_approved_credit (F.whole 100) arguments ≡ false))
        × (F.ltf (F.whole 0) x ≡ false
            → (credit_at_most (F.whole 25) arguments ≡ false)
              × (credit_at_most (F.whole 100) arguments ≡ false)
              × (credit_request_between (F.whole 25) (F.whole 100) arguments ≡ false)
              × (verified_approved_credit (F.whole 100) arguments ≡ false))
  unfolding credit_at_most credit_request_between verified_approved_credit
  credit_bands o arguments x h =
      let zero_25 = o.ltf-whole 0 25 (omega arith) (omega arith) in
      let le_25_100 = o.lef_of_ltf _ _ (o.ltf-whole 25 100 (omega arith) (omega arith)) in
      (
        λ positive small.
            let wide = o.lef_trans _ _ _ small le_25_100 in
            let low = o.not-ltf_of_lef _ _ small in
            rw (h, positive, small, wide, low) (refl, refl, refl),
        λ above wide.
            let positive = o.ltf-lef _ _ _ zero_25 (o.lef_of_ltf _ _ above) in
            let large = o.not-lef_of_ltf _ _ above in
            rw (h, positive, wide, above, large) (refl, refl, refl),
        λ beyond.
            let above =
              o.ltf-lef _ _ _ (o.ltf-whole 25 100 (omega arith) (omega arith))
                (o.lef_of_ltf _ _ beyond) in
            let positive = o.ltf-lef _ _ _ zero_25 (o.lef_of_ltf _ _ above) in
            let large = o.not-lef_of_ltf _ _ above in
            let huge = o.not-lef_of_ltf _ _ beyond in
            rw (h, positive, above, large, huge) (refl, refl, refl, and_false _ _),
        λ none_.
            let low = not_above o x none_ in rw (h, none_, low) (refl, refl, refl, and_false _ _),
      )
