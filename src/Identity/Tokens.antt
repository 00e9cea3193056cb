-- ===== src/Identity/Tokens.antt =====
-- identity/human.py and identity/dev_token.py: the verifiers of access tokens, the choice of one
-- from the settings, and the tokens of local development. The JWT library is an argument: `Jwt` has
-- what is called of it, over its tokens. A `PyJWTError` is an `invalid_token_error`.
use asante_secure_multi_agen.Prelude.{
  ℕ, ◌+◌, String, Bool, true, false, not, ◌||◌, Option, none, some, List, [], ◌∷◌, ◌==◌,
  if◌then◌else◌, fstring, or_else, getenv_or,
}
use asante_secure_multi_agen.Prelude.Dict.{Dict, get}
use asante_secure_multi_agen.Prelude.Exec.{
  value_error, runtime_error, invalid_token_error, type_error, Result, ok, err,
}
use asante_secure_multi_agen.Ruhusa.{minutes}
use asante_secure_multi_agen.Reliability.Config.{Environment, bind}
use asante_secure_multi_agen.Identity.Human.{
  AuthenticatedHuman, Claim, text_claim, list_claim, instant_claim, null_claim, object_claim,
  other_claim, authenticated_human,
}

abbrev pub default_auth_mode : String
default_auth_mode = "dev"

abbrev pub default_dev_issuer : String
default_dev_issuer = "https://dev.asante.local"

abbrev pub default_audience : String
default_audience = "asante-secure-multi-agent"

abbrev pub default_dev_jwt_secret : String
default_dev_jwt_secret = "asante-local-development-only-change-me"

abbrev pub required_access_token_claims : List String
required_access_token_claims = "iss" ∷ "sub" ∷ "aud" ∷ "exp" ∷ "iat" ∷ "jti" ∷ "client_id" ∷ []

-- `decode` takes the time, the token, the key, the algorithms, the issuer, the audience and the
-- names of the required claims; `encode` the claims, the key, the algorithm and the header. The
-- key of `get_signing_key_from_jwt` is the one that the JWKS endpoint of the URL has for the token.
pub record Jwt (Token : Type 0) : Type 0 where
  pub get_unverified_header : Token → Result (Dict Claim)
  pub decode :
      ℕ → Token → String → List String → String → String → List String → Result (Dict Claim)
  pub encode : Dict Claim → String → String → Dict Claim → Result Token
  pub get_signing_key_from_jwt : String → Token → Result String

-- `DevHmacAccessTokenVerifier` and `JwksAccessTokenVerifier`
pub data AccessTokenVerifier : Type 0 where
  dev_hmac : (secret issuer audience : String) → AccessTokenVerifier
  jwks : (issuer audience jwks_url : String) (algorithms : List String) → AccessTokenVerifier

-- Has the value no hash?
abbrev pub is_unhashable : Claim → Bool
is_unhashable (list_claim xs) = true
is_unhashable object_claim = true
is_unhashable _ = false

-- `token_type in {"at+jwt", "application/at+jwt"}`, which hashes the value first.
abbrev pub is_access_token_type : Option Claim → Result Bool
is_access_token_type none = ok false
is_access_token_type (some (text_claim s)) = ok (s == "at+jwt" || s == "application/at+jwt")
is_access_token_type (some (list_claim xs)) = err (type_error "unhashable type: 'list'")
is_access_token_type (some object_claim) = err (type_error "unhashable type: 'dict'")
is_access_token_type (some (instant_claim t)) = ok false
is_access_token_type (some null_claim) = ok false
is_access_token_type (some other_claim) = ok false

module _ {Token : Type 0} (jwt : Jwt Token) (split : String → List String) where
  unfoldable pub require_access_token_type : Token → Result (Unit {0})
  require_access_token_type token = bind (jwt.get_unverified_header token) λ header.
      bind (is_access_token_type (get header "typ")) λ accepted.
        if accepted
        then ok tt
        else err (invalid_token_error "expected OAuth access-token JWT type at+jwt")

  -- `verify` of both classes.
  unfoldable pub verify : ℕ → AccessTokenVerifier → Token → Result AuthenticatedHuman
  unfolding require_access_token_type
  verify now (dev_hmac secret issuer audience) token = bind (require_access_token_type token) λ _.
      bind (jwt.decode now token secret ("HS256" ∷ []) issuer audience required_access_token_claims)
        (authenticated_human split)
  verify now (jwks issuer audience jwks_url algorithms) token =
      bind (require_access_token_type token) λ _.
        bind (jwt.get_signing_key_from_jwt jwks_url token) λ key.
          bind (jwt.decode now token key algorithms issuer audience required_access_token_claims)
            (authenticated_human split)

module _ (getenv : Environment) (strip lower : String → String) (split_comma : String → List String)
    (join : List String → String) where
  -- `not value`
  abbrev pub is_blank : Option String → Bool
  is_blank none = true
  is_blank (some s) = s == ""

  abbrev pub missing_among : List String → List String
  missing_among [] = []
  missing_among (name ∷ names) =
      let rest = missing_among names in if is_blank (getenv name) then name ∷ rest else rest

  abbrev pub stripped : List String → List String
  stripped [] = []
  stripped (item ∷ items) =
      let rest = stripped items in if strip item == "" then rest else strip item ∷ rest

  abbrev pub is_empty : List String → Bool
  is_empty [] = true
  is_empty (x ∷ xs) = false

  unfoldable pub jwks_verifier : Result AccessTokenVerifier
  jwks_verifier =
      let missing =
        missing_among
          ("ASANTE_AUTH_ISSUER" ∷ "ASANTE_AUTH_AUDIENCE" ∷ "ASANTE_AUTH_JWKS_URL" ∷ []) in
      let algorithms =
        stripped (split_comma (getenv_or (getenv "ASANTE_AUTH_ALGORITHMS") "RS256")) in
      if not (is_empty missing)
      then err (runtime_error (fstring ("JWKS auth mode requires: " ∷ join missing ∷ [])))
      else if is_empty algorithms
      then err (runtime_error "ASANTE_AUTH_ALGORITHMS must contain at least one algorithm")
      else ok (
          jwks (getenv_or (getenv "ASANTE_AUTH_ISSUER") "")
            (getenv_or (getenv "ASANTE_AUTH_AUDIENCE") "")
            (getenv_or (getenv "ASANTE_AUTH_JWKS_URL") "") algorithms)

  unfoldable pub build_access_token_verifier : Result AccessTokenVerifier
  unfolding jwks_verifier
  build_access_token_verifier =
      let mode = lower (strip (getenv_or (getenv "ASANTE_AUTH_MODE") default_auth_mode)) in
      if mode == "dev"
      then ok (
          dev_hmac (getenv_or (getenv "ASANTE_DEV_JWT_SECRET") default_dev_jwt_secret)
            (getenv_or (getenv "ASANTE_AUTH_ISSUER") default_dev_issuer)
            (getenv_or (getenv "ASANTE_AUTH_AUDIENCE") default_audience))
      else if mode == "jwks"
      then jwks_verifier
      else err (runtime_error "ASANTE_AUTH_MODE must be 'dev' or 'jwks'")

-- The keyword arguments of `create_dev_access_token`.
pub record TokenRequest : Type 0 where
  pub lifetime_minutes : ℕ
  pub client_id : String
  pub scope : String
  pub issuer : Option String
  pub audience : Option String
  pub secret : Option String

module _ {Token : Type 0} (jwt : Jwt Token) (getenv : Environment) where
  abbrev pub dev_claims : ℕ → String → String → TokenRequest → Dict Claim
  dev_claims now jti subject request =
      (
        "iss",
        text_claim
            (or_else request.issuer (getenv_or (getenv "ASANTE_AUTH_ISSUER") default_dev_issuer)),
      )
      ∷ ("sub", text_claim subject)
      ∷ (
        "aud",
        text_claim
            (or_else request.audience (getenv_or (getenv "ASANTE_AUTH_AUDIENCE") default_audience)),
      )
      ∷ ("exp", instant_claim (now + minutes request.lifetime_minutes))
      ∷ ("iat", instant_claim now)
      ∷ ("jti", text_claim jti)
      ∷ ("client_id", text_claim request.client_id)
      ∷ ("scope", text_claim request.scope)
      ∷ []

  unfoldable pub create_dev_access_token : ℕ → String → String → TokenRequest → Result Token
  create_dev_access_token now jti subject request =
      if subject == ""
      then err (value_error "subject is required")
      else jwt.encode (dev_claims now jti subject request)
          (or_else request.secret
            (getenv_or (getenv "ASANTE_DEV_JWT_SECRET") default_dev_jwt_secret))
          "HS256" (("typ", text_claim "at+jwt") ∷ [])
