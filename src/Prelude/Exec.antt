-- ===== src/Prelude/Exec.antt =====
-- Methods that change an object and may raise. What was written before a raise stays written, so
-- the state comes back beside an exception too. `Exc` has the exceptions that the program raises
-- or handles; `external` stands for any other, raised by a library.
use Prim.Native.Nat.{ℕ}
use Prim.Native.String.{String}
use mathlib.Core.Path.{◌≡◌, refl}
use mathlib.Core.Logic.{◌⊎◌, inl, inr}
use mathlib.Core.Bool.{Bool}
use asante_secure_multi_agen.Prelude.Tests.{if◌then◌else◌}

pub data Exc : Type 0 where
  value_error runtime_error lookup_error assertion_error : String → Exc
  trusted_task_not_found_error approval_state_error : String → Exc
  transient_credit_provider_error unknown_outcome_credit_provider_error : String → Exc
  tool_error invalid_token_error type_error : String → Exc
  integrity_error : Exc
  http_exception : ℕ → String → Exc
  external : String → Exc

pub data Result {ℓ} (A : Type ℓ) : Type ℓ where
  ok : A → Result A
  err : Exc → Result A

-- `str(exc)` of an exception with one message argument.
abbrev pub message : Exc → String
message (value_error m) = m
message (runtime_error m) = m
message (lookup_error m) = m
message (assertion_error m) = m
message (trusted_task_not_found_error m) = m
message (approval_state_error m) = m
message (transient_credit_provider_error m) = m
message (unknown_outcome_credit_provider_error m) = m
message (tool_error m) = m
message (invalid_token_error m) = m
message (type_error m) = m
message integrity_error = ""
message (http_exception _ m) = m
message (external m) = m

abbrev pub Action {ℓ} : Type ℓ → Type ℓ → Type ℓ
Action S A = S → Result A × S

module _ {ℓ} {S A : Type ℓ} where
  abbrev pub pure : A → Action S A
  pure a s = (ok a, s)

  abbrev pub raise : Exc → Action S A
  raise e s = (err e, s)

  abbrev pub gets : (S → A) → Action S A
  gets f s = (ok (f s), s)

  abbrev pub lift : Result A → Action S A
  lift r s = (r, s)

  abbrev pub continue {κ} : {B : Type κ} → (A → S → Result B × S) → Result A → S → Result B × S
  continue f (ok a) s = f a s
  continue f (err e) s = (err e, s)

  abbrev handle : (Exc → Action S A) → Result A → S → Result A × S
  handle h (ok a) s = (ok a, s)
  handle h (err e) s = h e s

  -- `try: m` with a handler that may raise the exception again.
  abbrev pub catch : Action S A → (Exc → Action S A) → Action S A
  catch m h s = let (r, s') = m s in handle h r s'

infixl 5 ◌>>=◌ ◌>>◌
abbrev pub ◌>>=◌ {ℓ} : {S A B : Type ℓ} → Action S A → (A → Action S B) → Action S B
◌>>=◌ m f s = let (r, s') = m s in continue f r s'

abbrev pub ◌>>◌ {ℓ} : {S A B : Type ℓ} → Action S A → Action S B → Action S B
m >> k = m >>= λ _. k

abbrev pub modify : {S : Type 0} → (S → S) → Action S Unit
modify f s = (ok tt, f s)

abbrev pub raise_if : {S : Type 0} → Bool → Exc → Action S Unit
raise_if c e s = (if c then err e else ok tt, s)

-- An action on one part of a larger state, as a method call on an attribute.
abbrev pub zoom : {W S A : Type 0} → (W → S) → (W → S → W) → Action S A → Action W A
zoom part with_part m w = let (r, s) = m (part w) in (r, with_part w s)

-- How a call came out.
pub Outcome-cases {ℓ} :
    {S A : Type ℓ} (r : Result A × S)
    → ((a : A) × (s : S) × (r ≡ (ok a, s))) ⊎ ((e : Exc) × (s : S) × (r ≡ (err e, s)))
Outcome-cases (ok a, s) = inl (a, s, refl)
Outcome-cases (err e, s) = inr (e, s, refl)

pub Result-cases {ℓ} :
    {A : Type ℓ} (r : Result A) → ((a : A) × (r ≡ ok a)) ⊎ ((e : Exc) × (r ≡ err e))
Result-cases (ok a) = inl (a, refl)
Result-cases (err e) = inr (e, refl)
