-- ===== src/Identity/DevToken.antt =====
-- The tokens of local development are accepted by the verifier of local development.
use asante_secure_multi_agen.Prelude.{
  ℕ, ◌+◌, ◌≤◌, String, ◌≡◌, refl, true, false, none, List, [], ◌∷◌, ◌==◌, fstring, getenv_or, Bool,
  All,
}
use asante_secure_multi_agen.Prelude.Dict.{Dict}
use asante_secure_multi_agen.Prelude.Exec.{ok}
use asante_secure_multi_agen.Ruhusa.{minutes}
use asante_secure_multi_agen.Reliability.Config.{Environment}
use asante_secure_multi_agen.Identity.Human.{
  AuthenticatedHuman, Claim, text_claim, authenticated_human, nonempty, audiences_of, scopes_of,
}
use asante_secure_multi_agen.Identity.Tokens.{
  Jwt, AccessTokenVerifier, dev_hmac, verify, require_access_token_type,
  required_access_token_claims, build_access_token_verifier, create_dev_access_token, TokenRequest,
  dev_claims, default_auth_mode, default_dev_issuer, default_audience, default_dev_jwt_secret,
}
use asante_secure_multi_agen.Identity.PyJwt.{IsPyJwt, is_plain}

-- A request that leaves the issuer, the audience and the secret to the settings.
abbrev pub default_request : ℕ → String → String → TokenRequest
default_request lifetime client_id scope = record {
  lifetime_minutes = lifetime;
  client_id = client_id;
  scope = scope;
  issuer = none;
  audience = none;
  secret = none;
}

module _ {Token : Type 0} (jwt : Jwt Token) (split : String → List String) (getenv : Environment)
    (strip lower : String → String) (split_comma : String → List String)
    (join : List String → String) (fits : String → List String → Bool)
    (is_hmac_key : String → Bool) where
  -- A token of local development is accepted by the verifier that the same settings choose in
  -- the mode `dev`, while it lives, and names the subject, the client and the scopes that it was
  -- made for, under the issuer of the settings. The library is assumed to work as documented and
  -- to take the secret of the settings for HS256, and none of the issuer, the audience and the
  -- client to be empty.
  pub create_dev_access_token-verify :
      (issued now lifetime : ℕ) (jti subject client_id scope : String)
      → IsPyJwt jwt fits is_hmac_key
      → is_hmac_key (getenv_or (getenv "ASANTE_DEV_JWT_SECRET") default_dev_jwt_secret) ≡ true
      → (lower (strip (getenv_or (getenv "ASANTE_AUTH_MODE") default_auth_mode)) == "dev") ≡ true
      → (subject == "") ≡ false
      → (client_id == "") ≡ false
      → (getenv_or (getenv "ASANTE_AUTH_ISSUER") default_dev_issuer == "") ≡ false
      → (getenv_or (getenv "ASANTE_AUTH_AUDIENCE") default_audience == "") ≡ false
      → issued ≤ now
      → now + 1_000_000 ≤ issued + minutes lifetime
      → let request = default_request lifetime client_id scope in
        (token : Token) × (verifier : AccessTokenVerifier) × (human : AuthenticatedHuman)
        × (create_dev_access_token jwt getenv issued jti subject request ≡ ok token)
        × (build_access_token_verifier getenv strip lower split_comma join ≡ ok verifier)
        × (verify jwt split now verifier token ≡ ok human)
        × (human.subject ≡ subject)
        × (human.issuer ≡ getenv_or (getenv "ASANTE_AUTH_ISSUER") default_dev_issuer)
        × (human.client_id ≡ client_id)
        × (human.scopes ≡ nonempty (split scope))
  unfolding create_dev_access_token build_access_token_verifier verify require_access_token_type
      authenticated_human audiences_of scopes_of
  create_dev_access_token-verify issued now lifetime jti subject client_id scope py hk mode hs hc hi
        ha started lives =
      let secret = getenv_or (getenv "ASANTE_DEV_JWT_SECRET") default_dev_jwt_secret in
      let issuer = getenv_or (getenv "ASANTE_AUTH_ISSUER") default_dev_issuer in
      let audience = getenv_or (getenv "ASANTE_AUTH_AUDIENCE") default_audience in
      let claims =
        dev_claims jwt getenv issued jti subject (default_request lifetime client_id scope) in
      let headers : Dict Claim = ("typ", text_claim "at+jwt") ∷ [] in
      let plain : All (λ e. is_plain e.0 e.1 ≡ true) claims =
        (refl, (refl, (refl, (refl, (refl, (refl, (refl, (refl, tt)))))))) in
      let (token, header, made, h, typ) =
        py.header_encode claims secret issuer "at+jwt" hk plain refl refl in
      let (decoded, d, keeps) =
        py.decode_encode now issued (issued + minutes lifetime) claims secret "at+jwt"
          ("HS256" ∷ []) issuer audience subject jti required_access_token_claims token made plain
          hi ha refl refl refl refl refl refl refl refl
          (refl, (refl, (refl, (refl, (refl, (refl, (refl, tt))))))) started lives in
      (
        token,
        dev_hmac secret issuer audience,
        record {
          principal_id = fstring ("oauth:" ∷ issuer ∷ "#" ∷ subject ∷ []);
          subject = subject;
          issuer = issuer;
          audiences = audience ∷ [];
          client_id = client_id;
          scopes = nonempty (split scope);
        },
        rw hs made,
        rw mode refl,
        rw
            (
              h,
              typ,
              d,
              keeps "iss" issuer refl,
              keeps "sub" subject refl,
              keeps "client_id" client_id refl,
              keeps "aud" audience refl,
              keeps "scope" scope refl,
              hi,
              hs,
              hc,
            )
            refl,
        refl,
        refl,
        refl,
        refl,
      )
