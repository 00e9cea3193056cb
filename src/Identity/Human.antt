-- ===== src/Identity/Human.antt =====
-- identity/human.py: the identity of a human from the claims of a validated token. The JWT library
-- (which checks the signature and the lifetime), `str.split` and `str.lower` are arguments.
use asante_secure_multi_agen.Prelude.{
  ℕ, String, ◌≡◌, ◌⊎◌, false, Option, none, some, List, [], ◌∷◌, arith, ◌==◌, if◌then◌else◌,
  fstring,
}
use asante_secure_multi_agen.Prelude.Dict.{Dict, get}
use asante_secure_multi_agen.Prelude.Exec.{
  invalid_token_error, http_exception, external, Result, ok, err,
}
use asante_secure_multi_agen.Reliability.Config.{bind}

-- A JSON value as far as the claims are tested: a text, a list (with `none` for an item that is no
-- text), a point in time, `None`, an object, or anything else (a number or a truth value).
pub data Claim : Type 0 where
  text_claim : String → Claim
  list_claim : List (Option String) → Claim
  instant_claim : ℕ → Claim
  null_claim : Claim
  object_claim : Claim
  other_claim : Claim

-- A `frozenset` of scopes is the list of its members.
pub record AuthenticatedHuman : Type 0 where
  pub principal_id : String
  pub subject : String
  pub issuer : String
  pub audiences : List String
  pub client_id : String
  pub scopes : List String

abbrev pub prepend : String → Option (List String) → Option (List String)
prepend x none = none
prepend x (some xs) = some (x ∷ xs)

-- The items, if all of them are texts.
abbrev pub all_texts : List (Option String) → Option (List String)
all_texts [] = some []
all_texts (none ∷ xs) = none
all_texts (some x ∷ xs) = prepend x (all_texts xs)

abbrev pub list_or_invalid : Option (List String) → Result (List String)
list_or_invalid none = err (invalid_token_error "invalid aud claim")
list_or_invalid (some xs) = ok xs

unfoldable pub audiences_of : Claim → Result (List String)
audiences_of (text_claim s) = ok (s ∷ [])
audiences_of (list_claim xs) = list_or_invalid (all_texts xs)
audiences_of _ = err (invalid_token_error "invalid aud claim")

-- `item for item in items if item`
abbrev pub nonempty : List String → List String
nonempty [] = []
nonempty (x ∷ xs) = let rest = nonempty xs in if x == "" then rest else x ∷ rest

-- `claims[name]`; a claim that is missing is a `KeyError`.
abbrev pub or_key_error : Option Claim → Result Claim
or_key_error none = err (external "KeyError")
or_key_error (some c) = ok c

-- `isinstance(value, str) and value`, or else `InvalidTokenError`.
abbrev pub text_or_invalid : String → Claim → Result String
text_or_invalid problem (text_claim s) = if s == "" then err (invalid_token_error problem) else ok s
text_or_invalid problem _ = err (invalid_token_error problem)

module _ (split : String → List String) where
  unfoldable pub scopes_of : Option Claim → Result (List String)
  scopes_of none = ok []
  scopes_of (some null_claim) = ok []
  scopes_of (some (text_claim s)) = ok (nonempty (split s))
  scopes_of (some c) = err (invalid_token_error "invalid scope claim")

  -- The three claims are looked up first, and tested in this order after that.
  unfoldable pub authenticated_human : Dict Claim → Result AuthenticatedHuman
  authenticated_human claims = bind (or_key_error (get claims "iss")) λ iss.
      bind (or_key_error (get claims "sub")) λ sub.
        bind (or_key_error (get claims "client_id")) λ client.
          bind (text_or_invalid "invalid iss claim" iss) λ issuer.
            bind (text_or_invalid "invalid sub claim" sub) λ subject.
              bind (text_or_invalid "invalid client_id claim" client) λ client_id.
                bind (or_key_error (get claims "aud")) λ aud. bind (audiences_of aud) λ audiences.
                  bind (scopes_of (get claims "scope")) λ scopes. ok (record {
                    principal_id = fstring ("oauth:" ∷ issuer ∷ "#" ∷ subject ∷ []);
                    subject = subject;
                    issuer = issuer;
                    audiences = audiences;
                    client_id = client_id;
                    scopes = scopes;
                  })

-- `HTTPAuthorizationCredentials`
pub record Credentials (Token : Type 0) : Type 0 where
  pub scheme : String
  pub credentials : Token

module _ {Token : Type 0} (lower : String → String)
    (verify : Token → Result AuthenticatedHuman) where
  -- `except PyJWTError`: `InvalidTokenError` derives from it, and any error of the JWT library that
  -- does is one in the model.
  abbrev pub or_unauthorized : Result AuthenticatedHuman → Result AuthenticatedHuman
  or_unauthorized (err (invalid_token_error _)) =
      err (http_exception 401 "Invalid or expired access token")
  or_unauthorized r = r

  unfoldable pub require_authenticated_human :
      Option (Credentials Token) → Result AuthenticatedHuman
  require_authenticated_human none = err (http_exception 401 "Bearer access token required")
  require_authenticated_human (some c) =
      if lower c.scheme == "bearer"
      then or_unauthorized (verify c.credentials)
      else err (http_exception 401 "Bearer access token required")

module _ (split : String → List String) where
  -- A human that is made from claims has the issuer, the subject and the client of the claims, none
  -- of them empty, and a principal id of the issuer and the subject; its scopes are the words of
  -- the scope claim that are not empty, and none if there is no such claim or it is null.
  pub authenticated_human_lem :
      (claims : Dict Claim) (h : AuthenticatedHuman)
      → authenticated_human split claims ≡ ok h
      → (get claims "iss" ≡ some (text_claim h.issuer))
        × (get claims "sub" ≡ some (text_claim h.subject))
        × (get claims "client_id" ≡ some (text_claim h.client_id))
        × ((h.issuer == "") ≡ false)
        × ((h.subject == "") ≡ false)
        × ((h.client_id == "") ≡ false)
        × (h.principal_id ≡ fstring ("oauth:" ∷ h.issuer ∷ "#" ∷ h.subject ∷ []))
        × ((((get claims "scope" ≡ none) ⊎ (get claims "scope" ≡ some null_claim))
              × (h.scopes ≡ []))
            ⊎ ((s : String) × (get claims "scope" ≡ some (text_claim s))
                × (h.scopes ≡ nonempty (split s))))
  unfolding authenticated_human scopes_of
  authenticated_human_lem claims h e = ground arith
