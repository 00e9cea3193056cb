-- ===== src/Api/Run/Kept.antt =====
-- The clients of a run, and the registry, which the agents leave as it is.
use asante_secure_multi_agen.Prelude.{ℕ, String, ◌≡◌, refl, ◌∙◌, ◌⊎◌, inl, inr, none, some}
use asante_secure_multi_agen.Prelude.Exec.{Exc, ok, err, Result-cases}
use asante_secure_multi_agen.Floats.{Floats}
use asante_secure_multi_agen.Ruhusa.{Ruhusa}
use asante_secure_multi_agen.Values.{Value, Fields}
use asante_secure_multi_agen.Identity.Workload.{Identities}
use asante_secure_multi_agen.Mcp.Registry.{AsanteRunContext}
use asante_secure_multi_agen.Mcp.Client.{
  Headers, Specialist, build_client, build_guest_support_mcp_client,
  build_property_operations_mcp_client, build_reservations_mcp_client,
  build_service_recovery_mcp_client, guest_support, property_operations, reservations,
  service_recovery,
}
use asante_secure_multi_agen.Mcp.Server.{App}
use asante_secure_multi_agen.Mcp.Dispatch.{McpCall, serve, serve-Trusted}
use asante_secure_multi_agen.Mcp.Boundary.{turned_away, served}
use asante_secure_multi_agen.Tools.Operations.{TextOps}
use asante_secure_multi_agen.Tools.Credit.{CreditProvider}
use asante_secure_multi_agen.Reliability.Retry.{RetryPolicy}
use asante_secure_multi_agen.Reliability.Config.{Builtins, Environment}
use asante_secure_multi_agen.Api.Run.{
  Agents, finish, fail, calls, Clients, client_of, run_agents, meta_for, build_clients,
  with_clients,
}

module _ (F : Floats) (R : Ruhusa F.Float) (ids : Identities) (inject : Headers → Headers)
    (settings : Builtins F) (getenv : Environment) (py : TextOps) (ttl : ℕ)
    (str : Value F.Float → String) (provider : CreditProvider F.Float)
    (policy : RetryPolicy F.Float) where
  open F use {Float}

  pub build_clients-cases :
      {S : Type 0} (s : S)
      → ((e : Exc) × (build_clients F R ids inject settings getenv s ≡ (err e, s)))
        ⊎ ((clients : Clients Float) × (build_clients F R ids inject settings getenv s
              ≡ (ok clients, s))
            × ((sp : Specialist)
                → build_client inject F settings getenv sp none ≡ ok (client_of clients sp)))
  unfolding build_clients build_client
  build_clients-cases s =
      elim (Result-cases (build_reservations_mcp_client inject F settings getenv none)) [
        | inr (e, h) ↦ rw h (inl (_, refl))
        | inl (c1, h1) ↦
            rw h1
              (elim (Result-cases
                (build_property_operations_mcp_client inject F settings getenv none)) [
                  | inr (e, h) ↦ rw h (inl (_, refl))
                  | inl (c2, h2) ↦
                      rw h2
                        (elim (Result-cases
                          (build_guest_support_mcp_client inject F settings getenv none)) [
                            | inr (e, h) ↦ rw h (inl (_, refl))
                            | inl (c3, h3) ↦
                                rw h3
                                  (elim (Result-cases (
                                    build_service_recovery_mcp_client inject F settings getenv
                                      none)) [
                                        | inr (e, h) ↦ rw h (inl (_, refl))
                                        | inl (c4, h4) ↦
                                            rw h4 (inr (_, refl, by_specialist _ h1 h2 h3 h4))
                                      ])
                          ])
                ])
      ]
    where
      by_specialist :
          (clients : Clients Float)
          → build_client inject F settings getenv reservations none ≡ ok clients.reservations_mcp
          → build_client inject F settings getenv property_operations none
            ≡ ok clients.property_operations_mcp
          → build_client inject F settings getenv guest_support none ≡ ok clients.guest_support_mcp
          → build_client inject F settings getenv service_recovery none
            ≡ ok clients.service_recovery_mcp
          → (sp : Specialist)
          → build_client inject F settings getenv sp none ≡ ok (client_of clients sp)
      by_specialist clients h1 h2 h3 h4 reservations = h1
      by_specialist clients h1 h2 h3 h4 property_operations = h2
      by_specialist clients h1 h2 h3 h4 guest_support = h3
      by_specialist clients h1 h2 h3 h4 service_recovery = h4

  serve-registry :
      (call : McpCall Float) (meta : Fields Float) (a : App F R ids py ttl str)
      → (serve F R ids py ttl str provider policy call meta a).1.task_registry ≡ a.task_registry
  serve-registry call meta a = elim (serve-Trusted F R ids py ttl str provider policy call meta a) [
    | turned_away p e same_c same_b same_r ↦ same_r
    | served task_id c hw ht hr same_r only ↦ same_r
  ]

  run_agents-registry :
      (clients : Clients Float) (context : AsanteRunContext Float) (agents : Agents Float)
      (a : App F R ids py ttl str)
      → (run_agents F R ids inject settings getenv py ttl str provider policy clients context agents
          a).1.task_registry
        ≡ a.task_registry
  unfolding run_agents
  run_agents-registry clients context (finish last_agent final_output) a = refl
  run_agents-registry clients context (fail e) a = refl
  run_agents-registry clients context (calls s call next) a =
      let meta = meta_for ((client_of clients s).tool_meta_resolver (some context)) in
      let r = serve F R ids py ttl str provider policy call meta a in
      run_agents-registry clients context (next r.0) r.1 ∙ serve-registry call meta a

  pub with_clients-registry :
      (context : AsanteRunContext Float) (agents : Agents Float) (a : App F R ids py ttl str)
      → (with_clients F R ids inject settings getenv py ttl str provider policy context agents
          a).1.task_registry
        ≡ a.task_registry
  unfolding with_clients
  with_clients-registry context agents a = elim (build_clients-cases a) [
    | inl (e, h) ↦ rw h refl
    | inr (clients, h, built) ↦ rw h (run_agents-registry clients context agents a)
  ]
