-- ===== src/Ruhusa.antt =====
-- The authorization library `ruhusa`, which is not part of the repository. `Ruhusa` has the
-- operations that the program calls, over a state of the library's own; each may answer anything,
-- and may raise. The other records hold the arguments that the program passes to the library.
use asante_secure_multi_agen.Prelude.{ℕ, ◌*◌, String, Bool, Option, List, ltb, if◌then◌else◌}
use asante_secure_multi_agen.Prelude.Exec.{Action}
use asante_secure_multi_agen.Values.{Fields}

-- A point in time, in microseconds.
abbrev pub minutes : ℕ → ℕ
minutes n = n * 60_000_000

-- Python's `min` of two times.
abbrev pub earlier : ℕ → ℕ → ℕ
earlier a b = if ltb b a then b else a

pub record TaskContext : Type 0 where
  pub task_id : String
  pub initiated_by : String
  pub purpose : String
  pub expires_at : ℕ

pub record Scope (N : Type 0) : Type 0 where
  pub actions : List String
  pub resource_prefixes : List String
  pub max_numeric_arguments : List (String × N)

pub record DelegationGrant (N : Type 0) : Type 0 where
  pub grant_id : String
  pub grantor_id : String
  pub grantee_id : String
  pub task_id : String
  pub scope : Scope N
  pub issued_at : ℕ
  pub expires_at : ℕ

-- The keyword arguments of `invocation_factory.create`.
pub record Invocation (N : Type 0) : Type 0 where
  pub invoking_principal_id : String
  pub executing_principal_id : String
  pub principal_type : String
  pub task : TaskContext
  pub action : String
  pub resource : String
  pub arguments : Fields N
  pub expires_at : ℕ
  pub tool_id : String
  pub implementation_id : String
  pub delegation_chain : List (DelegationGrant N)

pub record Authorization : Type 0 where
  pub effect : String
  pub reason : String
  pub policy_id : Option String

pub record Admission (P : Type 0) : Type 0 where
  pub authorization : Authorization
  pub allowed : Bool
  pub permit : Option P

pub record Revalidation : Type 0 where
  pub authorization : Authorization
  pub allowed : Bool

pub record Ruhusa (N : Type 0) : Type 1 where
  pub Control : Type 0
  pub Request : Type 0
  pub Permit : Type 0
  pub allow : String
  pub create : Invocation N → Action Control Request
  pub begin : Request → Action Control (Admission Permit)
  pub revalidate_before_execution : Request → Permit → Action Control Revalidation
  pub complete : Permit → Action Control Bool
  pub mark_unknown : Permit → Action Control Unit
  pub register_grant : DelegationGrant N → Action Control Unit
