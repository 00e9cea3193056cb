-- ===== src/Security/Paying.antt =====
-- The rules of security/runtime.py that let someone pay a guest credit.
use asante_secure_multi_agen.Prelude.{
  String, ◌≡◌, refl, ◌⊎◌, inl, inr, Bool, true, false, ◌&&◌, ◌||◌, Option, none, some, [], ◌∷◌,
  arith, All,
}
use asante_secure_multi_agen.Prelude.Dict.{get}
use asante_secure_multi_agen.Prelude.Lists.{member}
use asante_secure_multi_agen.Floats.{Floats}
use asante_secure_multi_agen.Values.{Fields}
use asante_secure_multi_agen.Security.Policy.{
  Effect, allows, requires_approval, PolicyRule, policy_rules, as_number, within, is_true,
  is_nonempty_text, credit_at_most, verified_approved_credit,
}

and_true : (a b : Bool) → (a && b) ≡ true → (a ≡ true) × (b ≡ true)
and_true true b h = (refl, h)
and_true false b h = ground (arith, h)

module _ (F : Floats) where
  open F use {Float}

  abbrev pub is_allowing : Effect → Bool
  is_allowing allows = true
  is_allowing requires_approval = false

  -- The rule allows one of the two actions that pay a credit.
  abbrev pub pays : PolicyRule F → Bool
  pays rule =
      is_allowing rule.effect
      && (member "guest.credit.issue" rule.actions
          || member "guest.credit.issue.approved" rule.actions)

  abbrev pub holds : Option (Fields Float → Bool) → Fields Float → Bool
  holds none arguments = true
  holds (some condition) arguments = condition arguments

  -- The amount is a positive number of at most `limit` dollars.
  abbrev pub UpTo : Float → Fields Float → Type 0
  UpTo limit arguments =
      (x : Float) × (as_number F (get arguments "amount") ≡ some x)
      × (F.ltf (F.whole 0) x ≡ true)
      × (F.lef x limit ≡ true)

  within-UpTo :
      (limit : Float) (amount : Option Float)
      → within F (λ x. F.ltf (F.whole 0) x && F.lef x limit) amount ≡ true
      → (x : Float) × (amount ≡ some x) × (F.ltf (F.whole 0) x ≡ true) × (F.lef x limit ≡ true)
  within-UpTo limit none h = ground (arith, h)
  within-UpTo limit (some x) h = let (a, b) = and_true _ _ h in (x, refl, a, b)

  -- Service Recovery pays up to 25 dollars, and the approval executor pays up to 100 dollars of
  -- an approval that was verified.
  abbrev pub MayPay : String → String → Fields Float → PolicyRule F → Type 0
  MayPay service_recovery_id executor_id arguments rule =
      ((rule.principal_ids ≡ service_recovery_id ∷ []) × UpTo (F.whole 25) arguments)
      ⊎ ((rule.principal_ids ≡ executor_id ∷ [])
          × UpTo (F.whole 100) arguments
          × (is_true F (get arguments "approval_verified") ≡ true)
          × (is_nonempty_text F (get arguments "approval_id") ≡ true))

  -- Whichever rule of the policy allows an action that pays a credit, its condition holds only for
  -- an amount that is positive, and at most 25 dollars if the rule is for Service Recovery, or at
  -- most 100 dollars if it is for the approval executor, then with a verified approval whose
  -- identifier is not empty; no rule lets anyone else pay.
  pub policy_rules-MayPay :
      (reservations_id property_operations_id guest_support_id service_recovery_id
        executor_id : String)
      (arguments : Fields Float)
      → All
          (λ rule.
            pays rule ≡ true
            → holds rule.condition arguments ≡ true
            → MayPay service_recovery_id executor_id arguments rule)
          (policy_rules F reservations_id property_operations_id guest_support_id
            service_recovery_id executor_id)
  unfolding policy_rules credit_at_most verified_approved_credit
  policy_rules-MayPay _ _ _ service_recovery_id executor_id arguments =
      let by_executor : verified_approved_credit F (F.whole 100) arguments ≡ true
          → UpTo (F.whole 100) arguments
            × (is_true F (get arguments "approval_verified") ≡ true)
            × (is_nonempty_text F (get arguments "approval_id") ≡ true) =
        λ h.
          let (verified, rest) = and_true _ _ h in
          let (named, bounded) = and_true _ _ rest in
          (within-UpTo (F.whole 100) _ bounded, verified, named) in
      (
        λ p h. ground (arith, p),
        (
          λ p h. ground (arith, p),
          (
            λ p h. ground (arith, p),
            (
              λ p h. ground (arith, p),
              (
                λ p h. inl (refl, within-UpTo (F.whole 25) _ h),
                (
                  λ p h. ground (arith, p),
                  (λ p h. let (a, b, c) = by_executor h in inr (refl, a, b, c), tt),
                ),
              ),
            ),
          ),
        ),
      )
