-- ===== src/Api/Direct.antt =====
-- main.py: the endpoints that call a tool without the agents, and those that only read. Sorting is
-- an argument; the entries of the stores are answered as they are.
use asante_secure_multi_agen.Prelude.{ℕ, ◌+◌, String, Option, none, List, [], ◌∷◌, map}
use asante_secure_multi_agen.Prelude.Exec.{Action, pure, gets, ◌>>=◌}
use asante_secure_multi_agen.Floats.{Floats}
use asante_secure_multi_agen.Ruhusa.{Ruhusa, TaskContext, DelegationGrant, minutes}
use asante_secure_multi_agen.Values.{Fields, text, num, obj, items, merge, opt_text}
use asante_secure_multi_agen.World.{World, Business, on_control, on_approvals}
use asante_secure_multi_agen.Identity.Workload.{Identities}
use asante_secure_multi_agen.Identity.Human.{AuthenticatedHuman}
use asante_secure_multi_agen.Security.Delegation.{
  GrantDraw, issue_reservations_delegation, issue_service_recovery_delegation,
}
use asante_secure_multi_agen.Tools.Credit.{CreditProvider, issue_credit}
use asante_secure_multi_agen.Tools.Reservation.{ReadTimes, get_reservation}
use asante_secure_multi_agen.Reliability.Retry.{RetryPolicy}
use asante_secure_multi_agen.Approvals.Store.{list_requests, to_dict}
use asante_secure_multi_agen.Api.Run.{both}

-- What a direct call draws: the id and the time of the task, the draw of its delegation, and the
-- trace id.
pub record DirectDraw : Type 0 where
  pub task_hex : String
  pub task_at : ℕ
  pub grants : GrantDraw
  pub trace_id : Option String

abbrev pub direct_task : DirectDraw → String → AuthenticatedHuman → TaskContext
direct_task draw purpose operator = record {
  task_id = draw.task_hex;
  initiated_by = operator.principal_id;
  purpose = purpose;
  expires_at = draw.task_at + minutes 30;
}

-- The answer of `/auth/whoami`.
pub record WhoAmI : Type 0 where
  pub principal_id : String
  pub subject : String
  pub issuer : String
  pub audiences : List String
  pub client_id : String
  pub scopes : List String
  pub trace_id : Option String

abbrev pub whoami : (List String → List String) → Option String → AuthenticatedHuman → WhoAmI
whoami sorted trace_id operator = record {
  principal_id = operator.principal_id;
  subject = operator.subject;
  issuer = operator.issuer;
  audiences = operator.audiences;
  client_id = operator.client_id;
  scopes = sorted operator.scopes;
  trace_id = trace_id;
}

module _ {N : Type 0} where
  abbrev pub health : Fields N
  health = ("status", text "ok") ∷ []

  abbrev pub root : N → String → Fields N
  root phase exporter =
      ("name", text "Asante Secure Multi-Agent Application")
      ∷ ("phase", num phase)
      ∷ ("status", text "running")
      ∷ ("docs", text "/docs")
      ∷ ("redoc", text "/redoc")
      ∷ ("health", text "/health")
      ∷ ("whoami", text "/auth/whoami")
      ∷ ("mcp", text "/mcp/")
      ∷ (
        "operations",
        obj (
            items (
              ("approvals", text "/operations/approvals")
              ∷ ("maintenance", text "/operations/work-orders")
              ∷ ("messages", text "/operations/messages")
              ∷ [])),
      )
      ∷ (
        "specialists",
        obj (
            items (
              ("reservations", text "reservation.read")
              ∷ ("property_operations", text "maintenance.create")
              ∷ ("guest_support", text "guest.message.send")
              ∷ ("service_recovery", text "guest.credit.issue / guest.credit.request")
              ∷ [])),
      )
      ∷ ("auth", text "Bearer JWT access token")
      ∷ ("workload_identity", text "SPIFFE IDs")
      ∷ ("observability", text "OpenTelemetry")
      ∷ ("release_gate", text "deterministic security + reliability + cache-disclosure evals")
      ∷ ("caching", text "authorization-aware reservation reads")
      ∷ ("human_approval", text "SQLite-backed durable approval workflow")
      ∷ ("otel_exporter", text exporter)
      ∷ []

  abbrev pub list_demo_credits : Action (Business N) (List (Fields N))
  list_demo_credits = gets (λ b. b.ledger.entries)

  abbrev pub list_work_orders : Action (Business N) (List (Fields N))
  list_work_orders = gets (λ b. b.maintenance.entries)

  abbrev pub list_guest_messages : Action (Business N) (List (Fields N))
  list_guest_messages = gets (λ b. b.messages.entries)

  unfoldable pub list_approvals : Action (Business N) (List (Fields N))
  list_approvals = do records ← on_approvals (list_requests none); pure (map to_dict records)

module _ (F : Floats) (R : Ruhusa F.Float) (ids : Identities) (sha256 : String → String)
    (ttl : ℕ) where
  open F use {Float, whole}

  -- A tool in a new task of the operator, with the delegation that is issued for it.
  abbrev pub direct_call :
      DirectDraw
      → String
      → AuthenticatedHuman
      → (TaskContext → Action R.Control (DelegationGrant Float × DelegationGrant Float))
      → (TaskContext → List (DelegationGrant Float) → Action (World R) (Fields Float))
      → Action (World R) (Fields Float)
  direct_call draw purpose operator issue tool = do
    let task = direct_task draw purpose operator
    grants ← on_control R (issue task)
    result ← tool task (both grants)
    pure (
        merge
          (("task_id", text task.task_id)
            ∷ ("trace_id", opt_text draw.trace_id)
            ∷ ("initiated_by", text operator.principal_id)
            ∷ [])
          result)

  unfoldable pub dev_issue_credit :
      CreditProvider Float
      → RetryPolicy Float
      → ℕ
      → DirectDraw
      → String
      → Float
      → String
      → AuthenticatedHuman
      → Action (World R) (Fields Float)
  dev_issue_credit provider policy now draw reservation_id amount reason operator =
      direct_call draw "direct guest credit test" operator
        (λ task. issue_service_recovery_delegation F R ids draw.grants task (whole 100) (whole 25))
        (issue_credit F R ids sha256 provider policy now reservation_id amount reason)

  unfoldable pub dev_get_reservation :
      ReadTimes → DirectDraw → String → AuthenticatedHuman → Action (World R) (Fields Float)
  dev_get_reservation times draw reservation_id operator =
      direct_call draw "direct reservation read test" operator
        (λ task. issue_reservations_delegation F R ids draw.grants task)
        (get_reservation R ids sha256 ttl times reservation_id)
