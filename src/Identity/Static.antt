-- ===== src/Identity/Static.antt =====
-- identity/workload.py: the constructor of `StaticSpiffeWorkloadIdentityProvider`.
use asante_secure_multi_agen.Prelude.{
  String, ◌≡◌, refl, ◌≢◌, ◌⊎◌, inl, inr, Bool, true, false, not, ◌||◌, Option, none, some, [], ◌∷◌,
  arith, ◌==◌, eq_iff, if◌then◌else◌, fstring,
}
use asante_secure_multi_agen.Prelude.Exec.{Exc, lookup_error, Result, ok, err}
use asante_secure_multi_agen.Reliability.Config.{bind}
use asante_secure_multi_agen.Identity.Workload.{
  ParsedUrl, Identities, WorkloadIdentity, require_workload, spiffe_id, supervisor_workload,
  guest_support_workload, property_operations_workload, reservations_workload,
  service_recovery_workload, approval_executor_workload, lstrip_slash,
}

abbrev pub default_spiffe_trust_domain : String
default_spiffe_trust_domain = "asante.jamiiz.io"

-- `os.getenv(name, default)`
abbrev pub or_default_domain : Option String → String
or_default_domain none = default_spiffe_trust_domain
or_default_domain (some s) = s

-- `trust_domain or os.getenv("ASANTE_SPIFFE_TRUST_DOMAIN", default)`
abbrev pub domain_of : Option String → Option String → String
domain_of none setting = or_default_domain setting
domain_of (some s) setting = if s == "" then or_default_domain setting else s

err-ne-ok : (e : Exc) (ids : Identities) → err e ≢ ok ids
err-ne-ok e ids h = cc

ok-injective : (ids ids' : Identities) → ok ids ≡ ok ids' → ids ≡ ids'
ok-injective ids ids' h = cc

two_tests :
    (c d : Bool) (a b : Exc) (v : String)
    → ((if c then err a else if d then err b else ok v) ≡ ok v)
      ⊎ ((e : Exc) × ((if c then err a else if d then err b else ok v) ≡ err e))
two_tests true d a b v = inr (a, refl)
two_tests false true a b v = inr (b, refl)
two_tests false false a b v = inl refl

module _ (urlparse : String → ParsedUrl) where
  abbrev pub assigned : String → String → String → Result (String × WorkloadIdentity)
  assigned domain workload path =
      bind (spiffe_id urlparse domain path)
        λ id. ok (workload, record { workload = workload; principal_id = id })

  unfoldable pub static_identities : String → Result Identities
  static_identities domain =
      bind (assigned domain supervisor_workload "agents/supervisor") λ supervisor.
        bind (assigned domain guest_support_workload "agents/guest-support") λ guest_support.
          bind (assigned domain property_operations_workload "agents/property-operations")
            λ property_operations.
              bind (assigned domain reservations_workload "agents/reservations") λ reservations.
                bind (assigned domain service_recovery_workload "agents/service-recovery")
                  λ service_recovery.
                    bind (assigned domain approval_executor_workload "services/approval-executor")
                      λ approval_executor. ok (
                        supervisor ∷ guest_support ∷ property_operations ∷ reservations
                        ∷ service_recovery ∷ approval_executor ∷ [])

  -- The provider knows a workload under the SPIFFE id of the domain and a path.
  abbrev pub Knows : Identities → String → String → String → Type 0
  Knows ids domain workload path =
      require_workload ids workload
      ≡ ok (record {
        workload = workload;
        principal_id = fstring ("spiffe://" ∷ domain ∷ "/" ∷ path ∷ []);
      })

  spiffe_id-cases :
      (domain path : String)
      → lstrip_slash path ≡ path
      → (spiffe_id urlparse domain path ≡ ok (fstring ("spiffe://" ∷ domain ∷ "/" ∷ path ∷ [])))
        ⊎ ((e : Exc) × (spiffe_id urlparse domain path ≡ err e))
  unfolding spiffe_id
  spiffe_id-cases domain path h =
      let value = fstring ("spiffe://" ∷ domain ∷ "/" ∷ path ∷ []) in
      let u = urlparse value in
      rw h (
        two_tests (not (u.scheme == "spiffe") || (u.netloc == "" || u.path == ""))
          (not (u.query == "") || not (u.fragment == "")) _ _ value)

  -- An assignment that the construction got past.
  assigned-step :
      (domain workload path : String) (f : String × WorkloadIdentity → Result Identities)
      (ids : Identities)
      → lstrip_slash path ≡ path
      → bind (assigned domain workload path) f ≡ ok ids
      → f (
        workload,
        record {
          workload = workload;
          principal_id = fstring ("spiffe://" ∷ domain ∷ "/" ∷ path ∷ []);
        },
      )
        ≡ ok ids
  assigned-step domain workload path f ids s h = elim (spiffe_id-cases domain path s) [
    | inr (e, a) ↦ absurd (err-ne-ok e ids (rw a at h))
    | inl a ↦ rw a at h
  ]

  -- A provider that could be made for a domain knows the six workloads, each under its own SPIFFE
  -- id in the domain, and raises `LookupError` for every other workload.
  pub static_identities_lem :
      (domain : String) (ids : Identities)
      → static_identities domain ≡ ok ids
      → Knows ids domain "supervisor" "agents/supervisor"
        × Knows ids domain "guest-support" "agents/guest-support"
        × Knows ids domain "property-operations" "agents/property-operations"
        × Knows ids domain "reservations" "agents/reservations"
        × Knows ids domain "service-recovery" "agents/service-recovery"
        × Knows ids domain "approval-executor" "services/approval-executor"
        × ((other : String)
            → other ≢ "supervisor"
            → other ≢ "guest-support"
            → other ≢ "property-operations"
            → other ≢ "reservations"
            → other ≢ "service-recovery"
            → other ≢ "approval-executor"
            → require_workload ids other
              ≡ err (lookup_error (fstring ("unknown trusted workload: " ∷ other ∷ []))))
  unfolding static_identities require_workload lstrip_slash
  static_identities_lem domain ids h =
      let h1 = assigned-step domain "supervisor" "agents/supervisor" _ ids refl h in
      let h2 = assigned-step domain "guest-support" "agents/guest-support" _ ids refl h1 in
      let h3 =
        assigned-step domain "property-operations" "agents/property-operations" _ ids refl h2 in
      let h4 = assigned-step domain "reservations" "agents/reservations" _ ids refl h3 in
      let h5 = assigned-step domain "service-recovery" "agents/service-recovery" _ ids refl h4 in
      let h6 =
        assigned-step domain "approval-executor" "services/approval-executor" _ ids refl h5 in
      let same = ok-injective _ _ h6 in
      rw (← same) (
        refl,
        refl,
        refl,
        refl,
        refl,
        refl,
        λ other a b c d e f. ground (
          arith,
          eq_iff "supervisor" other,
          eq_iff "guest-support" other,
          eq_iff "property-operations" other,
          eq_iff "reservations" other,
          eq_iff "service-recovery" other,
          eq_iff "approval-executor" other,
        ),
      )
