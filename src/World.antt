-- ===== src/World.antt =====
-- The state of the running application: the authorization library's, the metrics, and the stores
-- of the business (`main.py` makes one of each and hands them to the tools).
use asante_secure_multi_agen.Prelude.Exec.{Action, zoom}
use asante_secure_multi_agen.Values.{Fields}
use asante_secure_multi_agen.Metrics.{Meter}
use asante_secure_multi_agen.Ruhusa.{Ruhusa}
use asante_secure_multi_agen.Approvals.Store.{Table}
use asante_secure_multi_agen.Cache.Store.{InMemoryCacheStore}
use asante_secure_multi_agen.Tools.Providers.{KeyedLog, ReservationProvider}

pub record Business (N : Type 0) : Type 0 where
  pub maintenance : KeyedLog N
  pub messages : KeyedLog N
  pub ledger : KeyedLog N
  pub approvals : Table N
  pub cache : InMemoryCacheStore (Fields N)
  pub provider : ReservationProvider N

pub record World {N : Type 0} (R : Ruhusa N) : Type 0 where
  pub control : R.Control
  pub meter : Meter
  pub business : Business N

module _ {N : Type 0} (R : Ruhusa N) {A : Type 0} where
  -- A call of the authorization library.
  abbrev pub on_control : Action R.Control A → Action (World R) A
  on_control = zoom (λ w. w.control) (λ w c. record w { control = c })

  abbrev pub on_meter : Action Meter A → Action (World R) A
  on_meter = zoom (λ w. w.meter) (λ w m. record w { meter = m })

  abbrev pub on_business : Action (Business N) A → Action (World R) A
  on_business = zoom (λ w. w.business) (λ w b. record w { business = b })

module _ {N : Type 0} {A : Type 0} where
  abbrev pub on_maintenance : Action (KeyedLog N) A → Action (Business N) A
  on_maintenance = zoom (λ b. b.maintenance) (λ b s. record b { maintenance = s })

  abbrev pub on_messages : Action (KeyedLog N) A → Action (Business N) A
  on_messages = zoom (λ b. b.messages) (λ b s. record b { messages = s })

  abbrev pub on_ledger : Action (KeyedLog N) A → Action (Business N) A
  on_ledger = zoom (λ b. b.ledger) (λ b s. record b { ledger = s })

  abbrev pub on_approvals : Action (Table N) A → Action (Business N) A
  on_approvals = zoom (λ b. b.approvals) (λ b s. record b { approvals = s })

  abbrev pub on_cache : Action (InMemoryCacheStore (Fields N)) A → Action (Business N) A
  on_cache = zoom (λ b. b.cache) (λ b s. record b { cache = s })

  abbrev pub on_provider : Action (ReservationProvider N) A → Action (Business N) A
  on_provider = zoom (λ b. b.provider) (λ b s. record b { provider = s })
