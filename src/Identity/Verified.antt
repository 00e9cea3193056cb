-- ===== src/Identity/Verified.antt =====
-- What the verifiers of access tokens accept, and how authentication answers.
use asante_secure_multi_agen.Prelude.{
  ℕ, String, ◌≡◌, refl, ap, ◌∙◌, ◌⊎◌, inl, inr, Bool, true, false, ◌||◌, Option, none, some, List,
  [], ◌∷◌, arith, ◌==◌, Bool-cases,
}
use asante_secure_multi_agen.Prelude.Dict.{Dict, get}
use asante_secure_multi_agen.Prelude.Exec.{
  Exc, invalid_token_error, type_error, http_exception, Result, ok, err, Result-cases,
}
use asante_secure_multi_agen.Identity.Human.{
  AuthenticatedHuman, Claim, text_claim, list_claim, instant_claim, null_claim, object_claim,
  other_claim, or_unauthorized, authenticated_human, audiences_of, scopes_of,
  require_authenticated_human, Credentials,
}
use asante_secure_multi_agen.Identity.Tokens.{
  Jwt, AccessTokenVerifier, dev_hmac, verify, require_access_token_type,
  required_access_token_claims, is_access_token_type, is_unhashable, jwks,
}
use asante_secure_multi_agen.Identity.PyJwt.{IsPyJwt}

module _ {Token : Type 0} (jwt : Jwt Token) (split : String → List String) where
  -- The token has the type of an access token, and the human is that of claims which the library
  -- decoded with a key, for the issuer and the audience of the verifier.
  pub data Accepted (now : ℕ) (token : Token)
      : AccessTokenVerifier → AuthenticatedHuman → Type 0 where
    by_secret :
        (secret issuer audience : String) (header claims : Dict Claim) (human : AuthenticatedHuman)
        → jwt.get_unverified_header token ≡ ok header
        → is_access_token_type (get header "typ") ≡ ok true
        → jwt.decode now token secret ("HS256" ∷ []) issuer audience required_access_token_claims
          ≡ ok claims
        → authenticated_human split claims ≡ ok human
        → Accepted now token (dev_hmac secret issuer audience) human
    by_key :
        (issuer audience jwks_url : String) (algorithms : List String) (key : String)
        (header claims : Dict Claim) (human : AuthenticatedHuman)
        → jwt.get_unverified_header token ≡ ok header
        → is_access_token_type (get header "typ") ≡ ok true
        → jwt.get_signing_key_from_jwt jwks_url token ≡ ok key
        → jwt.decode now token key algorithms issuer audience required_access_token_claims
          ≡ ok claims
        → authenticated_human split claims ≡ ok human
        → Accepted now token (jwks issuer audience jwks_url algorithms) human

  -- What is not caught: the type of the token is a list or an object, which the set of the accepted
  -- types cannot look up, or the library met a key that is not of the type of an algorithm.
  pub data Unhandled (fits : String → List String → Bool) (now : ℕ) (token : Token)
      : AccessTokenVerifier → Exc → Type 0 where
    unhashable_type :
        (verifier : AccessTokenVerifier) (e : Exc) (header : Dict Claim) (typ : Claim) (m : String)
        → jwt.get_unverified_header token ≡ ok header
        → get header "typ" ≡ some typ
        → is_unhashable typ ≡ true
        → e ≡ type_error m
        → Unhandled fits now token verifier e
    other_key :
        (issuer audience jwks_url : String) (algorithms : List String) (key : String) (e : Exc)
        → jwt.get_signing_key_from_jwt jwks_url token ≡ ok key
        → fits key algorithms ≡ false
        → jwt.decode now token key algorithms issuer audience required_access_token_claims ≡ err e
        → Unhandled fits now token (jwks issuer audience jwks_url algorithms) e

  abbrev pub Outcome :
      (String → List String → Bool)
      → ℕ
      → Token
      → AccessTokenVerifier
      → Result AuthenticatedHuman
      → Type 0
  Outcome fits now token verifier r =
      ((human : AuthenticatedHuman) × (r ≡ ok human) × Accepted now token verifier human)
      ⊎ ((m : String) × (r ≡ err (invalid_token_error m)))
      ⊎ ((e : Exc) × (r ≡ err e) × Unhandled fits now token verifier e)

type-cases :
    (o : Option Claim)
    → (is_access_token_type o ≡ ok true)
      ⊎ (is_access_token_type o ≡ ok false)
      ⊎ ((c : Claim) × (m : String) × (o ≡ some c)
          × (is_unhashable c ≡ true)
          × (is_access_token_type o ≡ err (type_error m)))
type-cases none = inr (inl refl)
type-cases (some (text_claim s)) = elim (Bool-cases (s == "at+jwt" || s == "application/at+jwt")) [
  | inl h ↦ inl (ap ok h)
  | inr h ↦ inr (inl (ap ok h))
]
type-cases (some (list_claim xs)) = inr (inr (_, _, refl, refl, refl))
type-cases (some object_claim) = inr (inr (_, _, refl, refl, refl))
type-cases (some (instant_claim t)) = inr (inl refl)
type-cases (some null_claim) = inr (inl refl)
type-cases (some other_claim) = inr (inl refl)

unauthorized-cases :
    {Token : Type 0} (lower : String → String) (verify : Token → Result AuthenticatedHuman)
    (e : Exc)
    → (or_unauthorized lower verify (err e)
        ≡ err (http_exception 401 "Invalid or expired access token"))
      ⊎ (or_unauthorized lower verify (err e) ≡ err e)
unauthorized-cases lower verify e = ground arith

module _ {Token : Type 0} (jwt : Jwt Token) (split : String → List String)
    (fits : String → List String → Bool) (is_hmac_key : String → Bool)
    (py : IsPyJwt jwt fits is_hmac_key) where
  -- With the claims that are looked up in place, the only error is `InvalidTokenError`.
  authenticated_human-error :
      (claims : Dict Claim) (iss sub client aud : Claim) (e : Exc)
      → get claims "iss" ≡ some iss
      → get claims "sub" ≡ some sub
      → get claims "client_id" ≡ some client
      → get claims "aud" ≡ some aud
      → authenticated_human split claims ≡ err e
      → (m : String) × (e ≡ invalid_token_error m)
  unfolding authenticated_human audiences_of scopes_of
  authenticated_human-error claims iss sub client aud e hi hs hc ha h = ground arith

  typed-cases :
      (token : Token)
      → ((header : Dict Claim) × (jwt.get_unverified_header token ≡ ok header)
          × (is_access_token_type (get header "typ") ≡ ok true)
          × (require_access_token_type jwt split token ≡ ok tt))
        ⊎ ((m : String) × (require_access_token_type jwt split token ≡ err (invalid_token_error m)))
        ⊎ ((e : Exc) × (require_access_token_type jwt split token ≡ err e)
            × ((now : ℕ) (verifier : AccessTokenVerifier)
                → Unhandled jwt split fits now token verifier e))
  unfolding require_access_token_type
  typed-cases token = elim (Result-cases (jwt.get_unverified_header token)) [
    | inr (e, h) ↦
        let (m, is_invalid) = py.header_error token e h in rw (h, is_invalid) (inr (inl (m, refl)))
    | inl (header, h) ↦ elim (type-cases (get header "typ")) [
      | inl t ↦ rw (h, t) (inl (header, refl, t, refl))
      | inr (inl f) ↦ rw (h, f) (inr (inl (_, refl)))
      | inr (inr (c, m, found, u, f)) ↦
          rw (h, f)
            (inr
              (inr (_, refl, λ now verifier. unhashable_type verifier _ header c m h found u refl)))
    ]
  ]

  -- The claims of a decoded token, made into a human.
  decoded-cases :
      (now : ℕ) (token : Token) (key : String) (algorithms : List String) (issuer audience : String)
      (claims : Dict Claim)
      → jwt.decode now token key algorithms issuer audience required_access_token_claims ≡ ok claims
      → ((human : AuthenticatedHuman) × (authenticated_human split claims ≡ ok human))
        ⊎ ((m : String) × (authenticated_human split claims ≡ err (invalid_token_error m)))
  decoded-cases now token key algorithms issuer audience claims d =
      let present = λ (name : String).
        py.required_present now token key algorithms issuer audience required_access_token_claims
          claims name d in
      elim (Result-cases (authenticated_human split claims)) [
        | inl (human, h) ↦ inl (human, h)
        | inr (e, h) ↦
            let (iss, hi) = present "iss" refl in
            let (sub, hs) = present "sub" refl in
            let (client, hc) = present "client_id" refl in
            let (aud, ha) = present "aud" refl in
            let (m, is_invalid) =
              authenticated_human-error claims iss sub client aud e hi hs hc ha h in
            inr (m, h ∙ ap err is_invalid)
      ]

  verify-Outcome :
      (now : ℕ) (verifier : AccessTokenVerifier) (token : Token)
      → Outcome jwt split fits now token verifier (verify jwt split now verifier token)
  unfolding verify
  verify-Outcome now (dev_hmac secret issuer audience) token = elim (typed-cases token) [
    | inr (inl (m, h)) ↦ rw h (inr (inl (m, refl)))
    | inr (inr (e, h, unhandled)) ↦ rw h (inr (inr (e, refl, unhandled _ _)))
    | inl (header, h, t, passed) ↦
        rw passed
          (elim (Result-cases (
            jwt.decode now token secret ("HS256" ∷ []) issuer audience
              required_access_token_claims)) [
                | inr (e, d) ↦
                    let (m, is_invalid) =
                      py.decode_error now token secret _ issuer audience _ e (py.fits_text secret)
                        d in
                    rw (d, is_invalid) (inr (inl (m, refl)))
                | inl (claims, d) ↦
                    rw d (elim (decoded-cases now token secret _ issuer audience claims d) [
                      | inl (human, a) ↦ rw a (
                          inl (
                            human,
                            refl,
                            by_secret secret issuer audience header claims human h t d a,
                          ))
                      | inr (m, a) ↦ rw a (inr (inl (m, refl)))
                    ])
              ])
  ]
  verify-Outcome now (jwks issuer audience jwks_url algorithms) token = elim (typed-cases token) [
    | inr (inl (m, h)) ↦ rw h (inr (inl (m, refl)))
    | inr (inr (e, h, unhandled)) ↦ rw h (inr (inr (e, refl, unhandled _ _)))
    | inl (header, h, t, passed) ↦
        rw passed (elim (Result-cases (jwt.get_signing_key_from_jwt jwks_url token)) [
          | inr (e, k) ↦
              let (m, is_invalid) = py.key_error jwks_url token e k in
              rw (k, is_invalid) (inr (inl (m, refl)))
          | inl (key, k) ↦
              rw k
                (elim (Result-cases (
                  jwt.decode now token key algorithms issuer audience
                    required_access_token_claims)) [
                      | inr (e, d) ↦ elim (Bool-cases (fits key algorithms)) [
                        | inl suits ↦
                            let (m, is_invalid) =
                              py.decode_error now token key _ issuer audience _ e suits d in
                            rw (d, is_invalid) (inr (inl (m, refl)))
                        | inr other ↦
                            let why =
                              other_key issuer audience jwks_url algorithms key e k other d in
                            rw d (inr (inr (e, refl, why)))
                      ]
                      | inl (claims, d) ↦
                          rw d (elim (decoded-cases now token key _ issuer audience claims d) [
                            | inl (human, a) ↦ rw a (
                                inl (
                                  human,
                                  refl,
                                  by_key issuer audience jwks_url algorithms key header claims human
                                      h t k d a,
                                ))
                            | inr (m, a) ↦ rw a (inr (inl (m, refl)))
                          ])
                    ])
        ])
  ]

  -- With a verifier, authentication answers every request: with a human, if the credentials are a
  -- Bearer token that the verifier accepts, that is, one of the type of access tokens whose claims
  -- the library decoded for the issuer and the audience of the verifier and which are well formed;
  -- or else with the HTTP error 401. No other exception gets out, if the library works as
  -- documented, but `TypeError` for a token whose header has a list or an object as its type, and
  -- what the library raised on a key that is not of the type of an algorithm.
  pub require_authenticated_human-Accepted :
      (lower : String → String) (now : ℕ) (verifier : AccessTokenVerifier)
      (credentials : Option (Credentials Token))
      → let r = require_authenticated_human lower (verify jwt split now verifier) credentials in
        ((c : Credentials Token) × (human : AuthenticatedHuman) × (credentials ≡ some c)
          × ((lower c.scheme == "bearer") ≡ true)
          × Accepted jwt split now c.credentials verifier human
          × (r ≡ ok human))
        ⊎ ((detail : String) × (r ≡ err (http_exception 401 detail)))
        ⊎ ((c : Credentials Token) × (e : Exc) × (credentials ≡ some c)
            × Unhandled jwt split fits now c.credentials verifier e
            × (r ≡ err e))
  unfolding require_authenticated_human
  require_authenticated_human-Accepted lower now verifier none = inr (inl (_, refl))
  require_authenticated_human-Accepted lower now verifier (some c) =
      elim (Bool-cases (lower c.scheme == "bearer")) [
        | inr n ↦ rw n (inr (inl (_, refl)))
        | inl y ↦ rw y (elim (verify-Outcome now verifier c.credentials) [
          | inl (human, h, accepted) ↦ rw h (inl (c, human, refl, y, accepted, refl))
          | inr (inl (m, h)) ↦ rw h (inr (inl (_, refl)))
          | inr (inr (e, h, why)) ↦
              rw h (elim (unauthorized-cases lower (verify jwt split now verifier) e) [
                | inl u ↦ rw u (inr (inl (_, refl)))
                | inr u ↦ rw u (inr (inr (c, e, refl, why, refl)))
              ])
        ])
      ]
