-- ===== src/Ledger/Method.antt =====
-- Clients of the ledger: any sequence of calls of its methods. A method's transaction holds the
-- write lock of the database, so concurrent workers amount to such a sequence. An error ends only
-- its own call.
use agent_trust_ops.Prelude.{ℕ, String, Option, List, [], ◌∷◌}
use agent_trust_ops.Json.{Json, Platform}
use agent_trust_ops.Models.{ActionStatus, PolicyDecision, VerifiedPrincipal}
use agent_trust_ops.Ledger.Table
use agent_trust_ops.Ledger.Store.{World, M, pure, ◌>>◌}
use agent_trust_ops.Ledger.Keeps.{Keeps, Keeps-bind, Keeps-pure}
use agent_trust_ops.Ledger.Runs.{
  NewRun, create_or_get_run, record_duplicate, record_policy_decision,
}
use agent_trust_ops.Ledger.Approvals.{Decision, decide_approval, expire_approvals}
use agent_trust_ops.Ledger.Execution.{
  claim_execution, heartbeat_execution, complete_execution, fail_execution, mark_execution_unknown,
  recover_expired_executions,
}
use agent_trust_ops.Ledger.Reconcile.{Observation, reconcile_run, apply_provider_observation}
use agent_trust_ops.Ledger.Trace.{Trace, Trace-IsPreorder}
use agent_trust_ops.Ledger.Trace.Methods.{
  create_or_get_run-Trace, record_duplicate-Trace, record_policy_decision-Trace,
}
use agent_trust_ops.Ledger.Trace.Leases.{
  claim_execution-Trace, heartbeat_execution-Trace, complete_execution-Trace, fail_execution-Trace,
  mark_execution_unknown-Trace, recover_expired_executions-Trace,
}
use agent_trust_ops.Ledger.Trace.Reconciliation.{
  reconcile_run-Trace, apply_provider_observation-Trace,
}
use agent_trust_ops.Ledger.Trace.Decisions.{decide_approval-Trace, expire_approvals-Trace}

pub data Method : Type 0 where
  creates : NewRun → Method
  counts_duplicate : String → Method
  records_policy : String → PolicyDecision → ℕ → Method
  decides : String → Decision → Method
  expires_approvals : Option String → Method
  claims : String → String → ℕ → Method
  beats : String → String → ℕ → Method
  completes : String → String → Json → Method
  fails : String → String → String → Method
  marks_unknown : String → String → String → Method
  recovers : Option String → Method
  reconciles : String → ActionStatus → String → Json → VerifiedPrincipal → Method
  observes : String → Observation → VerifiedPrincipal → Method

abbrev pub quietly : {A : Type 0} → M A → M (Unit {0})
quietly m = m >> pure tt

unfoldable pub start : World
start = record {
  db = record { runs = Table.empty; events = []; approvals = Table.empty; sequence = 0 };
  ticks = 0;
  uuids = 0;
  calls = [];
}

module _ ⦃p : Platform⦄ where
  unfoldable pub perform : Method → M (Unit {0})
  perform (creates n) = quietly (create_or_get_run n)
  perform (counts_duplicate k) = record_duplicate k
  perform (records_policy k d ttl) = record_policy_decision k d ttl
  perform (decides k d) = quietly (decide_approval k d)
  perform (expires_approvals tenant) = quietly (expire_approvals tenant)
  perform (claims k owner n) = quietly (claim_execution k owner n)
  perform (beats k owner n) = quietly (heartbeat_execution k owner n)
  perform (completes k owner v) = complete_execution k owner v
  perform (fails k owner e) = fail_execution k owner e
  perform (marks_unknown k owner e) = mark_execution_unknown k owner e
  perform (recovers tenant) = quietly (recover_expired_executions tenant)
  perform (reconciles k s why v u) = quietly (reconcile_run k s why v u)
  perform (observes k o v) = quietly (apply_provider_observation k o v)

  unfoldable pub serve : List Method → World → World
  serve [] w = w
  serve (m ∷ l) w = serve l (perform m w).1

  quietly-Trace : {A : Type 0} (m : M A) → Keeps Trace m → Keeps Trace (quietly m)
  quietly-Trace m k = Keeps-bind Trace-IsPreorder m _ k (λ _. Keeps-pure Trace-IsPreorder tt)

  pub perform-Trace : (m : Method) → Keeps Trace (perform m)
  unfolding perform
  perform-Trace (creates n) = quietly-Trace _ (create_or_get_run-Trace n)
  perform-Trace (counts_duplicate k) = record_duplicate-Trace k
  perform-Trace (records_policy k d ttl) = record_policy_decision-Trace k d ttl
  perform-Trace (decides k d) = quietly-Trace _ (decide_approval-Trace k d)
  perform-Trace (expires_approvals tenant) = quietly-Trace _ (expire_approvals-Trace tenant)
  perform-Trace (claims k owner n) = quietly-Trace _ (claim_execution-Trace k owner n)
  perform-Trace (beats k owner n) = quietly-Trace _ (heartbeat_execution-Trace k owner n)
  perform-Trace (completes k owner v) = complete_execution-Trace k owner v
  perform-Trace (fails k owner e) = fail_execution-Trace k owner e
  perform-Trace (marks_unknown k owner e) = mark_execution_unknown-Trace k owner e
  perform-Trace (recovers tenant) = quietly-Trace _ (recover_expired_executions-Trace tenant)
  perform-Trace (reconciles k s why v u) = quietly-Trace _ (reconcile_run-Trace k s why v u)
  perform-Trace (observes k o v) = quietly-Trace _ (apply_provider_observation-Trace k o v)

  pub serve-Trace : (l : List Method) (w : World) → Trace w.db (serve l w).db
  unfolding serve
  serve-Trace [] w = Trace-IsPreorder.same w.db
  serve-Trace (m ∷ l) w =
      Trace-IsPreorder.chain w.db (perform m w).1.db _ ((perform-Trace m).at w)
        (serve-Trace l (perform m w).1)
