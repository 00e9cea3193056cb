-- ===== src/Tools/Reservation.antt =====
-- tools/reservation.py: `SecuredReservationTool`. SHA-256 and the readings of the two clocks are
-- arguments. An exception of the cache or the provider is not handled, so the permit stays open.
use asante_secure_multi_agen.Prelude.{
  ℕ, ◌+◌, String, Bool, true, Option, none, some, List, [], ◌∷◌, leb, if◌then◌else◌,
}
use asante_secure_multi_agen.Prelude.Exec.{
  value_error, runtime_error, Result, ok, err, Action, pure, raise, lift, ◌>>=◌, ◌>>◌,
}
use asante_secure_multi_agen.Values.{text, obj, items, Fields, opt_text}
use asante_secure_multi_agen.Metrics.{record_cache_lookup, record_cache_denied_before_lookup}
use asante_secure_multi_agen.Ruhusa.{
  Ruhusa, TaskContext, DelegationGrant, Invocation, Authorization, minutes, earlier,
}
use asante_secure_multi_agen.Identity.Workload.{
  Identities, require_workload, WorkloadIdentity, supervisor_workload, reservations_workload,
}
use asante_secure_multi_agen.Cache.Store.{
  get_entry, put_entry, build_reservation_cache_key, schema_version,
}
use asante_secure_multi_agen.World.{World, on_control, on_meter, on_business, on_cache, on_provider}
use asante_secure_multi_agen.Tools.Providers.{read_reservation}
use asante_secure_multi_agen.Tools.Gate.{gated}
use asante_secure_multi_agen.Tools.Operations.{resource_of}

abbrev pub reservation_tool_id : String
reservation_tool_id = "asante.reservation-reader"

abbrev pub reservation_tool_implementation : String
reservation_tool_implementation = "asante.reservation-reader@0.9.0"

-- The constructor's test of the lifetime of cached reservations.
abbrev pub checked_cache_ttl : ℕ → Result ℕ
checked_cache_ttl cache_ttl_seconds =
    if leb cache_ttl_seconds 0
    then err (value_error "cache_ttl_seconds must be greater than zero")
    else ok cache_ttl_seconds

-- The times of one call: the wall clock, and `monotonic()` at the lookup and at the store.
pub record ReadTimes : Type 0 where
  pub now : ℕ
  pub looked_up : ℕ
  pub stored : ℕ

module _ {N : Type 0} (R : Ruhusa N) (ids : Identities) (sha256 : String → String)
    (cache_ttl_seconds : ℕ) where
  open R use {Permit, allow, complete}

  abbrev pub disclosed : Authorization → String → Fields N → Fields N
  disclosed auth cache reservation =
      ("status", text "found")
      ∷ ("effect", text allow)
      ∷ ("policy_id", opt_text auth.policy_id)
      ∷ ("cache", text cache)
      ∷ ("reservation", obj (items reservation))
      ∷ []

  abbrev pub not_found : Authorization → Fields N
  not_found auth =
      ("status", text "not_found")
      ∷ ("effect", text allow)
      ∷ ("policy_id", opt_text auth.policy_id)
      ∷ ("cache", text "miss")
      ∷ []

  -- `complete` the permit, then return the result or raise.
  abbrev pub complete_read : Permit → String → Fields N → Action (World R) (Fields N)
  complete_read permit failure result = do
    completed ← on_control R (complete permit)
    if completed then pure result else raise (runtime_error failure)

  abbrev pub lifecycle_failure : String
  lifecycle_failure = "reservation disclosed but execution lifecycle did not complete"

  abbrev pub store_read :
      String → ℕ → Permit → Authorization → Option (Fields N) → Action (World R) (Fields N)
  store_read key stored permit auth none =
      complete_read permit "reservation read lifecycle could not complete" (not_found auth)
  store_read key stored permit auth (some reservation) = do
    on_business R (on_cache (put_entry key reservation cache_ttl_seconds stored))
    complete_read permit lifecycle_failure (disclosed auth "miss" reservation)

  -- `lookup.hit and lookup.value is not None`
  abbrev pub after_lookup :
      String
      → String
      → ℕ
      → Permit
      → Authorization
      → Bool
      → Option (Fields N)
      → Action (World R) (Fields N)
  after_lookup reservation_id key stored permit auth true (some value) =
      complete_read permit lifecycle_failure (disclosed auth "hit" value)
  after_lookup reservation_id key stored permit auth _ _ = do
    reservation ← on_business R (on_provider (read_reservation reservation_id))
    store_read key stored permit auth reservation

  unfoldable pub run_read :
      ReadTimes → String → Permit → Authorization → Action (World R) (Fields N)
  unfolding record_cache_lookup
  run_read times reservation_id permit auth = do
    let key = build_reservation_cache_key sha256 reservation_id schema_version
    lookup ←
        on_business R
          (on_cache (λ c. let (found, c') = get_entry key times.looked_up c in (ok found, c')))
    on_meter R (record_cache_lookup lookup.hit lookup.expired)
    after_lookup reservation_id key times.stored permit auth lookup.hit lookup.value

  abbrev pub read_invocation :
      String
      → TaskContext
      → List (DelegationGrant N)
      → ℕ
      → WorkloadIdentity
      → WorkloadIdentity
      → Invocation N
  read_invocation reservation_id task chain now supervisor executing = record {
    invoking_principal_id = supervisor.principal_id;
    executing_principal_id = executing.principal_id;
    principal_type = "agent";
    task = task;
    action = "reservation.read";
    resource = resource_of reservation_id;
    arguments = [];
    expires_at = earlier task.expires_at (now + minutes 5);
    tool_id = reservation_tool_id;
    implementation_id = reservation_tool_implementation;
    delegation_chain = chain;
  }

  unfoldable pub get_reservation :
      ReadTimes → String → TaskContext → List (DelegationGrant N) → Action (World R) (Fields N)
  get_reservation times reservation_id task chain = do
    supervisor ← lift (require_workload ids supervisor_workload)
    executing ← lift (require_workload ids reservations_workload)
    gated R (read_invocation reservation_id task chain times.now supervisor executing)
        record_cache_denied_before_lookup (pure tt) (run_read times reservation_id)
