-- ===== src/Lib.antt =====
-- AgentTrustOps guards the business actions of AI agents: each request is recorded in a durable
-- ledger under an idempotency key, a policy allows, denies or asks for a human approval, and the
-- protected function runs under a lease. What the provider did with an uncertain call is settled by
-- reconciliation. Every step of a run is an event of a hash chain.
--
-- Parts and files (paths from the root of the repository; all of the package is in
-- src/agenttrustops):
-- * errors.py - Errors: the exceptions, as the values of `Error`; code that may raise returns a
--   `Result`.
-- * models.py - Models: statuses, policy outcomes, and the records with the checks and the
--   normalisation of their `__post_init__` (`action_context`, `policy_decision`, ...).
-- * providers.py - Providers: lookups, observations and probes.
-- * ledger.py - Ledger and its children. Ledger/Store has the tables, the columns as records, and
--   the SQL statements of the ledger as actions `M A = World → Result A × World`. The methods of
--   `SQLiteActionLedger` keep their names: Ledger/Events (`append_event` for `_append_event_tx`,
--   `verify_event_chain`), Ledger/Runs (`create_or_get_run`, `record_policy_decision`),
--   Ledger/Approvals (`decide_approval`, `expire_approvals`), Ledger/Execution (claims, heartbeats,
--   `finish_execution`, recovery) and Ledger/Reconcile. A long method is cut where its SELECT has
--   answered, and each rest is a definition of its own.
-- * runtime.py - Runtime and its children: `TrustedAction` (Runtime/Action), how it is invoked and
--   resumed (Runtime/Invoke) and reviewed and reconciled (Runtime/Review). The runtime calls the
--   ledger only by its methods.
-- * ledger.py, queries - Ledger/Queries: `list_runs`, the counts, `verify_all_event_chains`; and
--   Ledger/Audit: `audit_trail` with the redactions.
-- * registry.py - Registry. auth.py - Auth: both verifiers; hashing, `urlparse` and PyJWT are
--   parameters.
-- * api.py - Api: the arguments of `create_app` as `App`, requests, answers, the dependency
--   `principal` and the handlers of exceptions; Api/Routes: each route of `create_app`
--   (`approve_route` for `approve`; `public_body` for those without a principal), `handle` and
--   `respond`. An `HTTPException` is an `Error`. FastAPI has matched the route and parsed the body;
--   it runs `principal` before it checks the constraints of the body.
-- * observability.py - Observability: the snapshot, `collect_operational_snapshot` and
--   `render_prometheus`. The backend and the version of the schema are its arguments.
-- * integrations/opa.py - Opa: `OPAPolicy.evaluate`; the server is a parameter.
-- * audit.py - Bundles: `export_audit_bundle`; Bundles/Check: `verify_audit_bundle`. A document is
--   JSON; base64, Ed25519 and the canonical text are a parameter, `Crypto`.
-- * refund_ops.py - Refunds: dates, doubles, orders; Refunds/Config and Refunds/Policy:
--   `RefundPolicy`; Refunds/Store: `RefundStore`; Refunds/Release: the action of
--   `build_refund_action`, whose store is what its earlier calls have left, and `evaluate_release`
--   on documents that were loaded. A double is NaN, an infinity or a whole multiple of 2 ^ -1074.
--   `float`, `str` and the formats of Python are a parameter, `Builtins`.
-- Proofs: Ledger/Machine has the state machine of a run as a relation, and Ledger/Method the
-- clients of the ledger as sequences of calls. Ledger/Trace has the atomic changes that a method is
-- made of, each under the guard of its UPDATE, and the induction that History, Lifecycle, Chain and
-- Uniqueness use. Returns, Claims and Authorization follow the value that a method returns,
-- Atomicity its errors, Idempotency the second request with a key, and Silence the record of the
-- calls of protected functions. Runtime/Operation has the clients of trusted actions, and
-- Runtime/Cover, Execution and Calls count the calls of protected functions; Api/Calls does the
-- same for HTTP requests. Api/Isolation and Api/Roles have what a foreign and an unauthorised
-- caller get. Ledger/Queries and Ledger/Audit have their proofs beside them, Auth/Tokens the static
-- verifier, Refunds/Amounts, Eligibility, Selection and NotNumber the policy, Refunds/Verdict the
-- metrics of a release, Bundles/Export and RoundTrip the bundles, Observability/Labels the labels
-- against a reader of the text format of Prometheus, which is not code of the repository, and
-- Opa/Closed the adapter.
--
-- How it is modelled:
-- * A time is its number of microseconds. `isoformat` texts of UTC times are in the order of the
--   times, which is what the SQL comparisons use. JSON columns hold the text that is stored.
-- * `Platform` is what Python gives: `json.dumps`, `json.loads`, SHA-256, ISO times, the readings
--   of the clock and of `uuid4`. Any such functions are admitted; the clock may even go back. A
--   theorem that needs more says so, as `IsCanonical`, `IsCollisionFree` and `IsSigning`.
-- * A table is a list of rows by primary key. A UNIQUE or FOREIGN KEY constraint raises
--   `IntegrityError` where the statement does not ignore it.
-- * A ledger object has a number, which the attribute `ledger` of actions and registries holds.
--   Several objects may open one database; the tables of `World` are that database.
-- * A transaction begins with BEGIN IMMEDIATE and so excludes other writers: concurrent workers
--   amount to a sequence of `Method` calls, of which theorems quantify over all. While a protected
--   function runs, other workers and the heartbeat of the lease make any calls `meanwhile`; between
--   the other ledger calls of one method of `TrustedAction` no other client acts.
-- * The policy, the key factory, the protected function and the probes are the application's: they
--   are fields of records, and nothing is assumed of them.
-- * Loops are over lists of rows, so nothing needs fuel.
--
-- Not modelled: the migration of old schemas, the metadata table, the heartbeat thread as such,
-- identity files, the refund demonstration, the headers of the HTTP API and the documentation that
-- FastAPI serves itself, the files of audit bundles, the command line, PostgreSQL, and the other
-- adapters of third-party services.
pub mod Prelude
pub mod Errors
pub mod Json
pub mod Models
pub mod Ledger
pub mod Providers
pub mod Runtime
pub mod Registry
pub mod Auth
pub mod Api
pub mod Refunds
pub mod Opa
pub mod Bundles
pub mod Observability
pub mod Tests
