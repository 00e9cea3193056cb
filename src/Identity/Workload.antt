-- ===== src/Identity/Workload.antt =====
-- identity/workload.py: the trusted workload names and their SPIFFE identities.
-- `urllib.parse.urlparse` is a parameter: only the parts of its result that are tested are named.
use asante_secure_multi_agen.Prelude.{
  String, not, ◌||◌, Option, none, some, [], ◌∷◌, ◌==◌, if◌then◌else◌, fstring,
}
use asante_secure_multi_agen.Prelude.Dict.{Dict, get}
use asante_secure_multi_agen.Prelude.Exec.{value_error, lookup_error, Result, ok, err}

abbrev pub supervisor_workload : String
supervisor_workload = "supervisor"

abbrev pub guest_support_workload : String
guest_support_workload = "guest-support"

abbrev pub property_operations_workload : String
property_operations_workload = "property-operations"

abbrev pub reservations_workload : String
reservations_workload = "reservations"

abbrev pub service_recovery_workload : String
service_recovery_workload = "service-recovery"

abbrev pub approval_executor_workload : String
approval_executor_workload = "approval-executor"

pub record WorkloadIdentity : Type 0 where
  pub workload : String
  pub principal_id : String

-- The parts of `urlparse`'s result.
pub record ParsedUrl : Type 0 where
  pub scheme : String
  pub netloc : String
  pub path : String
  pub query : String
  pub fragment : String

-- `path.lstrip('/')`
unfoldable pub lstrip_slash : String → String
lstrip_slash String.[] = ""
lstrip_slash (String.◌∷◌ c s) =
    let rest = lstrip_slash s in if String.◌∷◌ c "" == "/" then rest else String.◌∷◌ c s

module _ (urlparse : String → ParsedUrl) where
  unfoldable pub spiffe_id : String → String → Result String
  unfolding lstrip_slash
  spiffe_id trust_domain path =
      let value = fstring ("spiffe://" ∷ trust_domain ∷ "/" ∷ lstrip_slash path ∷ []) in
      let parsed = urlparse value in
      if not (parsed.scheme == "spiffe") || (parsed.netloc == "" || parsed.path == "")
      then err (value_error "invalid SPIFFE identity")
      else if not (parsed.query == "") || not (parsed.fragment == "")
      then err (value_error "SPIFFE identity cannot contain query or fragment")
      else ok value

abbrev pub Identities : Type 0
Identities = Dict WorkloadIdentity

abbrev pub or_unknown : String → Option WorkloadIdentity → Result WorkloadIdentity
or_unknown workload (some i) = ok i
or_unknown workload none =
    err (lookup_error (fstring ("unknown trusted workload: " ∷ workload ∷ [])))

-- `StaticSpiffeWorkloadIdentityProvider.require`
unfoldable pub require_workload : Identities → String → Result WorkloadIdentity
require_workload ids workload = or_unknown workload (get ids workload)
