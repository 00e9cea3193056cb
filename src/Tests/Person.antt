-- ===== src/Tests/Person.antt =====
-- Identities of humans and workloads at concrete inputs.
use asante_secure_multi_agen.Prelude.{
  String, ◌≡◌, refl, ◌≢◌, ◌⊎◌, false, none, some, List, [], ◌∷◌, ◌==◌, fstring,
}
use asante_secure_multi_agen.Prelude.Dict.{Dict, get}
use asante_secure_multi_agen.Prelude.Exec.{lookup_error, err}
use asante_secure_multi_agen.Identity.Human.{
  authenticated_human_lem, AuthenticatedHuman, Claim, authenticated_human, audiences_of, text_claim,
  null_claim, scopes_of, nonempty,
}
use asante_secure_multi_agen.Identity.Static.{static_identities_lem, static_identities, Knows}
use asante_secure_multi_agen.Identity.Workload.{
  Identities, ParsedUrl, WorkloadIdentity, spiffe_id, lstrip_slash, require_workload,
}

abbrev claims : Dict Claim
claims =
    ("iss", text_claim "i")
    ∷ ("sub", text_claim "s")
    ∷ ("client_id", text_claim "c")
    ∷ ("aud", text_claim "a")
    ∷ []

abbrev one_word : String → List String
one_word s = s ∷ []

abbrev person : AuthenticatedHuman
person = record {
  principal_id = "oauth:i#s";
  subject = "s";
  issuer = "i";
  audiences = "a" ∷ [];
  client_id = "c";
  scopes = [];
}

authenticated_human_lem_example :
    (get claims "iss" ≡ some (text_claim "i"))
    × (get claims "sub" ≡ some (text_claim "s"))
    × (get claims "client_id" ≡ some (text_claim "c"))
    × (("i" == "") ≡ false)
    × (("s" == "") ≡ false)
    × (("c" == "") ≡ false)
    × (person.principal_id ≡ fstring ("oauth:" ∷ "i" ∷ "#" ∷ "s" ∷ []))
    × ((((get claims "scope" ≡ none) ⊎ (get claims "scope" ≡ some null_claim))
          × (person.scopes ≡ []))
        ⊎ ((s : String) × (get claims "scope" ≡ some (text_claim s))
            × (person.scopes ≡ nonempty (one_word s))))
unfolding authenticated_human audiences_of scopes_of
authenticated_human_lem_example = authenticated_human_lem one_word claims person refl

-- A parser that takes every text for a SPIFFE URI.
abbrev parsed : String → ParsedUrl
parsed s = record { scheme = "spiffe"; netloc = "d"; path = "/p"; query = ""; fragment = "" }

abbrev at : String → String → String × WorkloadIdentity
at workload path =
    (workload, record { workload = workload; principal_id = fstring ("spiffe://d/" ∷ path ∷ []) })

abbrev known : Identities
known =
    at "supervisor" "agents/supervisor"
    ∷ at "guest-support" "agents/guest-support"
    ∷ at "property-operations" "agents/property-operations"
    ∷ at "reservations" "agents/reservations"
    ∷ at "service-recovery" "agents/service-recovery"
    ∷ at "approval-executor" "services/approval-executor"
    ∷ []

static_identities_lem_example :
    Knows parsed known "d" "supervisor" "agents/supervisor"
    × Knows parsed known "d" "guest-support" "agents/guest-support"
    × Knows parsed known "d" "property-operations" "agents/property-operations"
    × Knows parsed known "d" "reservations" "agents/reservations"
    × Knows parsed known "d" "service-recovery" "agents/service-recovery"
    × Knows parsed known "d" "approval-executor" "services/approval-executor"
    × ((other : String)
        → other ≢ "supervisor"
        → other ≢ "guest-support"
        → other ≢ "property-operations"
        → other ≢ "reservations"
        → other ≢ "service-recovery"
        → other ≢ "approval-executor"
        → require_workload known other
          ≡ err (lookup_error (fstring ("unknown trusted workload: " ∷ other ∷ []))))
unfolding static_identities spiffe_id lstrip_slash
static_identities_lem_example = static_identities_lem parsed "d" known refl
