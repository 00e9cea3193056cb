-- ===== src/Tests/Data.antt =====
-- A concrete program: whole dollars for floats, an authorization library that admits everything
-- and counts its calls, and the identities of the hotel.
use asante_secure_multi_agen.Prelude.{
  ℕ, ◌+◌, ◌*◌, String, true, ◌&&◌, none, some, [], ◌∷◌, arith, ltb, leb, if◌then◌else◌, fstring,
}
use asante_secure_multi_agen.Prelude.Exec.{ok}
use asante_secure_multi_agen.Ruhusa.{Authorization, Ruhusa, TaskContext, Invocation}
use asante_secure_multi_agen.Tools.Operations.{Draw, TextOps}
use asante_secure_multi_agen.World.{World}
use asante_secure_multi_agen.Floats.{Floats, IsOrdered}
use asante_secure_multi_agen.Identity.Workload.{Identities, WorkloadIdentity}
use asante_secure_multi_agen.Reliability.Retry.{RetryPolicy}
use asante_secure_multi_agen.Approvals.Table.{Row, approved, pending}
use asante_secure_multi_agen.Approvals.Requests.{CreditRequest}
use asante_secure_multi_agen.Tools.Providers.{KeyedLog, default_provider}

abbrev pub dollars : Floats
dollars = record {
  Float = ℕ;
  eqf = λ a b. leb a b && leb b a;
  ltf = ltb;
  lef = leb;
  whole = λ n. n;
  mul = λ a b. a * b;
  format_2f = λ n. if leb n 30 then "30.00" else "60.00";
}

pub dollars-IsOrdered : IsOrdered dollars
dollars-IsOrdered = record {
  ltf-whole = λ m n h small. ground arith;
  lef_of_ltf = λ x y h. ground arith;
  lef_trans = λ x y z h k. ground arith;
  ltf-lef = λ x y z h k. ground arith;
  not-lef_of_ltf = λ x y h. ground arith;
  not-ltf_of_lef = λ x y h. ground arith;
}

abbrev pub admits_all : Authorization
admits_all = record { effect = "allow"; reason = "in scope"; policy_id = some "policy-1" }

abbrev pub library : Ruhusa ℕ
library = record {
  Control = ℕ;
  Request = Invocation ℕ;
  Permit = ℕ;
  allow = "allow";
  create = λ inv c. (ok inv, c + 1);
  begin = λ request c.
      (ok (record { authorization = admits_all; allowed = true; permit = some c }), c + 1);
  revalidate_before_execution =
      λ request permit c. (ok (record { authorization = admits_all; allowed = true }), c + 1);
  complete = λ permit c. (ok true, c + 1);
  mark_unknown = λ permit c. (ok tt, c + 1);
  register_grant = λ grant c. (ok tt, c + 1);
}

abbrev identity : String → String × WorkloadIdentity
identity name =
    (name, record { workload = name; principal_id = fstring ("spiffe://asante/" ∷ name ∷ []) })

abbrev pub hotel : Identities
hotel =
    identity "supervisor"
    ∷ identity "guest-support"
    ∷ identity "property-operations"
    ∷ identity "reservations"
    ∷ identity "service-recovery"
    ∷ identity "approval-executor"
    ∷ []

abbrev pub texts : TextOps
texts = record { strip = λ s. s; lower = λ s. s; sha256 = λ s. s }

abbrev pub stay : TaskContext
stay = record {
  task_id = "task-1";
  initiated_by = "human-1";
  purpose = "stay";
  expires_at = 9_000_000_000;
}

abbrev pub no_log : KeyedLog ℕ
no_log = record { entries = []; by_key = [] }

abbrev pub opening : World library
opening = record {
  control = 0;
  meter = [];
  business = record {
    maintenance = no_log;
    messages = no_log;
    ledger = no_log;
    approvals = [];
    cache = record { entries = []; get_calls = 0 };
    provider = default_provider;
  };
}

abbrev pub sixty : CreditRequest ℕ
sixty = record {
  task_id = "task-1";
  requested_by = "human-1";
  reservation_id = "R-3001";
  amount = 60;
  reason = "noise";
  policy_id = none;
}

abbrev pub asked_id : String
asked_id = "approval-1"

abbrev pub asked : Row ℕ
asked = record {
  approval_id = asked_id;
  action = "guest.credit.issue.approved";
  task_id = "task-1";
  requested_by = "human-1";
  reservation_id = "R-3001";
  amount = 60;
  reason = "noise";
  policy_id = none;
  status = pending;
  created_at = 1;
  decided_at = none;
  decided_by = none;
  decision_note = none;
  executed_at = none;
  execution_result_json = none;
}

abbrev pub agreed : Row ℕ
agreed = record asked { status = approved; decided_at = some 2; decided_by = some "manager" }

abbrev pub two_tries : RetryPolicy ℕ
two_tries = record { max_attempts = 2; initial_backoff_seconds = 0; max_backoff_seconds = 0 }

abbrev pub draw : Draw
draw = record { now = 5; uuid = "0123456789" }
