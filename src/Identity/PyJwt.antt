-- ===== src/Identity/PyJwt.antt =====
-- What is assumed of the JWT library.
use asante_secure_multi_agen.Prelude.{
  ℕ, ◌+◌, ◌≤◌, String, ◌≡◌, Bool, true, false, ◌||◌, ◌==◌, none, some, List, [], ◌∷◌, is_some,
  member, All,
}
use asante_secure_multi_agen.Prelude.Dict.{Dict, get}
use asante_secure_multi_agen.Prelude.Exec.{Exc, invalid_token_error, ok, err}
use asante_secure_multi_agen.Identity.Human.{Claim, text_claim, instant_claim}
use asante_secure_multi_agen.Identity.Tokens.{Jwt}

-- A claim that JSON can write: a text, or the time of one of the three claims on time.
abbrev pub is_plain : String → Claim → Bool
is_plain name (text_claim s) = true
is_plain name (instant_claim t) = name == "exp" || name == "iat" || name == "nbf"
is_plain name _ = false

module _ {Token : Type 0} (jwt : Jwt Token) where
  -- What is documented of PyJWT. It refuses a token by an exception of its own, unless the key that
  -- it is given is not of the type of an algorithm (`fits`; a text fits HS256); a token that it
  -- decodes has every required claim; with a key that it takes for HS256 (`is_hmac_key`: no public
  -- key in disguise, and as long as it asks for) it encodes plain claims; and such a token it
  -- decodes, with the key, for the issuer and the audience of the token, which are not empty, while
  -- the token lives (times are cut to seconds, whence the second).
  pub record IsPyJwt (fits : String → List String → Bool) (is_hmac_key : String → Bool)
      : Type 0 where
    pub fits_text : (key : String) → fits key ("HS256" ∷ []) ≡ true
    pub header_error :
        (token : Token) (e : Exc)
        → jwt.get_unverified_header token ≡ err e
        → (m : String) × (e ≡ invalid_token_error m)
    pub key_error :
        (url : String) (token : Token) (e : Exc)
        → jwt.get_signing_key_from_jwt url token ≡ err e
        → (m : String) × (e ≡ invalid_token_error m)
    pub decode_error :
        (now : ℕ) (token : Token) (key : String) (algorithms : List String)
        (issuer audience : String) (required : List String) (e : Exc)
        → fits key algorithms ≡ true
        → jwt.decode now token key algorithms issuer audience required ≡ err e
        → (m : String) × (e ≡ invalid_token_error m)
    pub required_present :
        (now : ℕ) (token : Token) (key : String) (algorithms : List String)
        (issuer audience : String) (required : List String) (claims : Dict Claim) (name : String)
        → jwt.decode now token key algorithms issuer audience required ≡ ok claims
        → member name required ≡ true
        → (c : Claim) × (get claims name ≡ some c)
    pub header_encode :
        (claims : Dict Claim) (key issuer typ : String)
        → is_hmac_key key ≡ true
        → All (λ e. is_plain e.0 e.1 ≡ true) claims
        → get claims "iss" ≡ some (text_claim issuer)
        → (typ == "") ≡ false
        → (token : Token) × (header : Dict Claim) × (jwt.encode claims key "HS256"
              (("typ", text_claim typ) ∷ [])
            ≡ ok token)
          × (jwt.get_unverified_header token ≡ ok header)
          × (get header "typ" ≡ some (text_claim typ))
    pub decode_encode :
        (now issued ended : ℕ) (claims : Dict Claim) (key typ : String) (algorithms : List String)
        (issuer audience subject jti : String) (required : List String) (token : Token)
        → jwt.encode claims key "HS256" (("typ", text_claim typ) ∷ []) ≡ ok token
        → All (λ e. is_plain e.0 e.1 ≡ true) claims
        → (issuer == "") ≡ false
        → (audience == "") ≡ false
        → member "HS256" algorithms ≡ true
        → get claims "iss" ≡ some (text_claim issuer)
        → get claims "aud" ≡ some (text_claim audience)
        → get claims "sub" ≡ some (text_claim subject)
        → get claims "jti" ≡ some (text_claim jti)
        → get claims "iat" ≡ some (instant_claim issued)
        → get claims "exp" ≡ some (instant_claim ended)
        → get claims "nbf" ≡ none
        → All (λ name. is_some (get claims name) ≡ true) required
        → issued ≤ now
        → now + 1_000_000 ≤ ended
        → (decoded : Dict Claim) × (jwt.decode now token key algorithms issuer audience required
            ≡ ok decoded)
          × ((name s : String)
              → get claims name ≡ some (text_claim s)
              → get decoded name ≡ some (text_claim s))
