-- ===== src/Lib.antt =====
-- A verification library of Asante, a secure multi-agent application for hotel operations. A human's
-- request runs as a task; a supervisor agent hands it to specialist agents, which call business
-- tools over MCP; each tool asks the authorization library `ruhusa` before it acts; credits above
-- the automatic limit wait for a human's approval in a durable store.
--
-- The Python package is src/asante_secure_multi_agent. Its parts, and the files that model them:
--
--   approvals/store.py       Approvals/Table (the SQL table and its statements), Approvals/Json,
--                            Approvals/Store (`get`, `require`, `list_requests`, `decide`,
--                            `mark_executed`, `to_dict`), Approvals/Requests
--                            (`create_credit_request` and what it calls); Approvals/Rows, Commands,
--                            History, Audit, Finality and Once hold the proofs
--   tools/*.py               Tools/Providers (the in-memory stores), Tools/Gate (the admission and
--                            revalidation that each tool writes out), Tools/Operations, Tools/Credit,
--                            Tools/Reservation and Tools/ApprovedCredit (the four secured tools);
--                            Tools/Fence, Tools/Safety, Tools/Idempotence and Tools/Keys hold the
--                            proofs
--   mcp/registry.py, context.py, mcp/server.py
--                            Mcp/Registry and Mcp/Server (`handler` is what the five tool handlers
--                            share), Mcp/Dispatch (a call of any of the tools); Mcp/Boundary,
--                            Mcp/Calls and Mcp/Served hold the proofs
--   mcp/client.py            Mcp/Client (the metadata and the clients of the specialists); the
--                            proofs on client and server together are in Mcp/Surface
--   security/delegation.py   Security/Delegation; the proofs are in Security/Chains, Executor
--   security/runtime.py      Security/Policy (conditions and rules of the policy), with the proof
--                            on who may pay in Security/Paying
--   identity/workload.py     Identity/Workload and Identity/Static
--   identity/human.py, identity/dev_token.py
--                            Identity/Human (the identity from claims, and the guard of the
--                            endpoints) and Identity/Tokens (the verifiers, their choice, and the
--                            tokens of development); Identity/PyJwt has what is assumed of the JWT
--                            library, and Identity/Verified and Identity/DevToken hold the proofs
--   cache/*.py               Cache/Store; the proofs are in Cache/View
--   reliability/*.py         Reliability/Retry and Reliability/Config; the proofs on the retry loop
--                            are in Reliability/Attempts
--   telemetry/*.py           Metrics, Telemetry/Bridge (the processor of the agents' traces) and
--                            Telemetry/Runtime (the providers, configured once); Telemetry/Counts,
--                            Spans and Structure hold the proofs on the bridge
--   main.py                  World (the stores that the application makes, side by side),
--                            Api/Run (`run_agent`), with the proofs in Api/Run/Kept, Safety and
--                            Tasks, Api/Run/Steps (several runs at the same time), with the
--                            proofs in Api/Run/Interleaved, Api/Direct (the endpoints without
--                            agents), with the proofs in Api/Operator, and Api/Decisions (the approve
--                            and deny endpoints), with the proofs in Api/Guards and Api/Payment
--   evals/*.py               Evals/Report (the report of the release gate and its exit code), with
--                            the proofs in Evals/Gate
--
-- A method is an `Action`: a function from a state to a result, which may be an exception, and the
-- state after it, kept also when an exception is raised. `World` has the state of the authorization
-- library, the metrics and the stores of the business; a tool runs on it, and an MCP handler runs on
-- it together with the registry of trusted tasks. What the agents do in a run is an inductive
-- sequence of tool calls, each of which may depend on the answers so far (`Agents`).
--
-- Parameters: the authorization library (Ruhusa: any state, any answers, any exceptions), floats
-- (Floats, with the facts of IEEE order as the hypothesis `IsOrdered` of the theorems on credit
-- bands and on the release gate, and the division of whole numbers with the hypothesis `IsRatio`;
-- whole numbers only up to 2^53, `float_limit`),
-- SHA-256, `uuid4`, the clocks, `str.strip`, `str.lower`, `str`, `urlparse`, the environment and the
-- parsing of numbers, the credit provider, the equality of run contexts, what the agents do in a run,
-- the trace headers (`OnlyTraceHeaders`: nothing but the headers of the W3C propagators is added),
-- and PyJWT (`IsPyJwt`: its own exceptions, the required claims, and decoding what was encoded, for
-- the keys that it takes).
--
-- Bounds: the retry loop recurses on the number of attempts left, which starts as `max_attempts`, so
-- that it makes every attempt that the source makes; no other function has fuel. Times and lifetimes
-- are natural numbers of one unit; a lifetime that is not positive is 0.
--
-- Not modelled: the spans that the tools and endpoints open themselves, durations, the response
-- models of the HTTP endpoints and their examples, the agents' prompts and configuration, and the
-- evaluators of the release gate, which are fixed runs of the tools. Api/Run models one run with no
-- other request served meanwhile, and Api/Run/Steps any number of them step by step, where a call of
-- a tool is one step. What the approval store does to its table happens under its lock, and so a
-- history is a list of calls; `decide` and `mark_executed` read the record again after the lock, here
-- with no other call between. The callbacks of the trace processor are taken one after the other,
-- although its lock guards only its dictionaries. A TTL of the cache is a number of ticks, so that NaN
-- and rounding are left out. How `ruhusa` matches policy rules and grants is not part of the
-- repository.
pub mod Prelude
pub mod Floats
pub mod Values
pub mod Approvals
pub mod Identity
pub mod Ruhusa
pub mod Metrics
pub mod Telemetry
pub mod Cache
pub mod Reliability
pub mod World
pub mod Tools
pub mod Mcp
pub mod Security
pub mod Api
pub mod Evals
pub mod Tests
