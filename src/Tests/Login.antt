-- ===== src/Tests/Login.antt =====
-- A JWT library that signs nothing, and the theorems on tokens with it.
use asante_secure_multi_agen.Prelude.{
  String, ◌≡◌, refl, sym, ap, ◌∙◌, ◌⊎◌, inl, inr, Bool, true, false, none, some, List, [], ◌∷◌,
  arith, ◌==◌, eq_iff, if◌then◌else◌, is_some, Bool-cases, Option-cases, member, All,
}
use asante_secure_multi_agen.Prelude.Dict.{Dict, get}
use asante_secure_multi_agen.Prelude.Exec.{
  Exc, invalid_token_error, http_exception, Result, ok, err,
}
use asante_secure_multi_agen.Reliability.Config.{Environment}
use asante_secure_multi_agen.Identity.Human.{
  AuthenticatedHuman, Claim, text_claim, Credentials, require_authenticated_human, nonempty,
}
use asante_secure_multi_agen.Identity.Tokens.{
  Jwt, AccessTokenVerifier, dev_hmac, verify, build_access_token_verifier, create_dev_access_token,
  default_dev_issuer, dev_claims,
}
use asante_secure_multi_agen.Identity.PyJwt.{IsPyJwt}
use asante_secure_multi_agen.Identity.DevToken.{create_dev_access_token-verify, default_request}
use asante_secure_multi_agen.Identity.Verified.{
  require_authenticated_human-Accepted, Accepted, Unhandled,
}
use mathlib.Core.Path.{subst}

-- A token is its claims and its header.
abbrev Unsigned : Type 0
Unsigned = Dict Claim × Dict Claim

abbrev all_present : Dict Claim → List String → Bool
all_present claims [] = true
all_present claims (name ∷ names) =
    if is_some (get claims name) then all_present claims names else false

abbrev if_present : Dict Claim → List String → Result (Dict Claim)
if_present claims required =
    if all_present claims required then ok claims else err (invalid_token_error "missing claim")

abbrev unsigned : Jwt Unsigned
unsigned = record {
  get_unverified_header = λ token. ok token.1;
  decode = λ now token key algorithms issuer audience required. if_present token.0 required;
  encode = λ claims key algorithm headers. ok (claims, headers);
  get_signing_key_from_jwt = λ url token. ok "key";
}

all_present-get :
    (claims : Dict Claim) (required : List String) (name : String)
    → all_present claims required ≡ true
    → member name required ≡ true
    → (c : Claim) × (get claims name ≡ some c)
all_present-get claims [] name h m = ground (arith, m)
all_present-get claims (r ∷ required) name h m = elim (Option-cases (get claims r)) [
  | inl e ↦ ground (arith, e, h)
  | inr (c, e) ↦ elim (Bool-cases (r == name)) [
    | inl y ↦ (c, ap (get claims) (sym ((eq_iff r name).0 y)) ∙ e)
    | inr n ↦ all_present-get claims required name (ground (arith, e, h)) (ground (arith, n, m))
  ]
]

all_present_of_each :
    (claims : Dict Claim) (required : List String)
    → All (λ name. is_some (get claims name) ≡ true) required
    → all_present claims required ≡ true
all_present_of_each claims [] h = refl
all_present_of_each claims (name ∷ names) (h, hs) = rw h (all_present_of_each claims names hs)

if_present-ok :
    (claims found : Dict Claim) (required : List String)
    → if_present claims required ≡ ok found
    → (claims ≡ found) × (all_present claims required ≡ true)
if_present-ok claims found required h = ground (arith, h)

if_present-err :
    (claims : Dict Claim) (required : List String) (e : Exc)
    → if_present claims required ≡ err e
    → (m : String) × (e ≡ invalid_token_error m)
if_present-err claims required e h = ground (arith, h)

abbrev fits_all : String → List String → Bool
fits_all key algorithms = true

abbrev any_key : String → Bool
any_key key = true

ok-injective : (t u : Unsigned) → ok t ≡ ok u → t ≡ u
ok-injective t u h = cc

unsigned-IsPyJwt : IsPyJwt unsigned fits_all any_key
unsigned-IsPyJwt = record {
  fits_text = λ key. refl;
  header_error = λ token e h. ground (arith, h);
  key_error = λ url token e h. ground (arith, h);
  decode_error = λ now token key algorithms issuer audience required e suits h.
      if_present-err token.0 required e h;
  required_present = λ now token key algorithms issuer audience required claims name h m.
      let (same, all) = if_present-ok token.0 claims required h in
      subst (λ found. (c : Claim) × (get found name ≡ some c)) same
        (all_present-get token.0 required name all m);
  header_encode = λ claims key issuer typ k plain h named.
      ((claims, ("typ", text_claim typ) ∷ []), ("typ", text_claim typ) ∷ [], refl, refl, refl);
  decode_encode =
      λ now issued ended claims key typ algorithms issuer audience subject jti required token made
          plain ni na a b c d e f g h present i j.
        let same : (claims, ("typ", text_claim typ) ∷ []) ≡ token = ok-injective _ _ made in
        (
          claims,
          subst (λ t. if_present t.0 required ≡ ok claims) same
              (rw (all_present_of_each claims required present) refl),
          λ name s k. k,
        );
}

abbrev unset : Environment
unset name = none

abbrev same : String → String
same s = s

abbrev one : String → List String
one s = s ∷ []

abbrev joined : List String → String
joined names = ""

create_dev_access_token-verify_example :
    (token : Unsigned) × (verifier : AccessTokenVerifier) × (human : AuthenticatedHuman)
    × (create_dev_access_token unsigned unset 5 "j" "claire"
          (default_request 30 "cli" "asante:operate")
        ≡ ok token)
    × (build_access_token_verifier unset same same one joined ≡ ok verifier)
    × (verify unsigned one 9 verifier token ≡ ok human)
    × (human.subject ≡ "claire")
    × (human.issuer ≡ default_dev_issuer)
    × (human.client_id ≡ "cli")
    × (human.scopes ≡ nonempty ("asante:operate" ∷ []))
create_dev_access_token-verify_example =
    create_dev_access_token-verify unsigned one unset same same one joined fits_all any_key 5 9 30
      "j" "claire" "cli" "asante:operate" unsigned-IsPyJwt refl refl refl refl refl refl
      (omega arith) (omega arith)

abbrev dev_verifier : AccessTokenVerifier
dev_verifier = dev_hmac "s" "i" "a"

abbrev bearer : Credentials Unsigned
bearer = record {
  scheme = "bearer";
  credentials = (
    dev_claims unsigned unset 5 "j" "claire" (default_request 30 "cli" "asante:operate"),
    ("typ", text_claim "at+jwt") ∷ [],
  );
}

require_authenticated_human-Accepted_example :
    ((c : Credentials Unsigned) × (human : AuthenticatedHuman) × (some bearer ≡ some c)
      × ((c.scheme == "bearer") ≡ true)
      × Accepted unsigned one 9 c.credentials dev_verifier human
      × (require_authenticated_human same (verify unsigned one 9 dev_verifier) (some bearer)
          ≡ ok human))
    ⊎ ((detail : String) × (require_authenticated_human same
            (verify unsigned one 9 dev_verifier)
            (some bearer)
          ≡ err (http_exception 401 detail)))
    ⊎ ((c : Credentials Unsigned) × (e : Exc) × (some bearer ≡ some c)
        × Unhandled unsigned one fits_all 9 c.credentials dev_verifier e
        × (require_authenticated_human same (verify unsigned one 9 dev_verifier) (some bearer)
            ≡ err e))
require_authenticated_human-Accepted_example =
    require_authenticated_human-Accepted unsigned one fits_all any_key unsigned-IsPyJwt same 9
      dev_verifier (some bearer)
