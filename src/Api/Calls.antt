-- ===== src/Api/Calls.antt =====
-- The calls of protected functions that requests to api.py make, by the rules of Runtime/Cover.
use agent_trust_ops.Prelude.{
  ℕ, ◌≤◌, String, false, Option, none, some, List, [], ◌∷◌, ◌==◌, length, select,
}
use agent_trust_ops.Json.{Json, Platform}
use agent_trust_ops.Models.{ActionStatus, VerifiedPrincipal}
use agent_trust_ops.Ledger.Store.{Run, World, M, now, gets, ◌>>=◌, collect}
use agent_trust_ops.Ledger.Events.{verify_event_chain}
use agent_trust_ops.Ledger.Method.{start}
use agent_trust_ops.Ledger.Queries.{
  list_runs, status_counts, event_counts, approval_counts, duplicate_retry_count,
}
use agent_trust_ops.Ledger.Keeps.{Keeps-now}
use agent_trust_ops.Ledger.Trace.{Trace-IsPreorder}
use agent_trust_ops.Ledger.Silence.{IsSilent-now}
use agent_trust_ops.Observability.{collect_operational_snapshot}
use agent_trust_ops.Ledger.Audit.{finished_trail, shown_trail, trail_of, audit_trail}
use agent_trust_ops.Runtime.Action.{TrustedAction}
use agent_trust_ops.Runtime.Cover.{IsCovered, Covers, Covers-bind, Covers-pure, Covers-Trace}
use agent_trust_ops.Runtime.Execution.{cover_rules, Covers-select_run}
use agent_trust_ops.Runtime.Operation.{Operation, operation}
use agent_trust_ops.Runtime.Calls.{
  expire_approvals-Covers, recover_expired_executions-Covers, operation-Covers, IsCovered-once,
  start-IsCovered, invoke_request-Covers, invoke_request_async-Covers, resume-Covers,
  resume_async-Covers, approve-Covers, reject-Covers, reconcile-Covers,
  reconcile_from_provider-Covers,
}
use agent_trust_ops.Api.{
  App, Endpoint, unguarded, metrics, actions, approvals, recover, runs, audit, HttpRequest,
}
use agent_trust_ops.Api.Routes.{
  load_tenant_run, visible_run, tenant_action, invoke_resolved, invoke_route, runs_route,
  audit_route, approvals_route, approve_route, reject_route, resume_route, reconcile_route,
  provider_route, recover_route, actions_route, metrics_route, route, guarded, handle, respond,
}

-- What comes to the application: a request, or what the rest of the program asks meanwhile.
pub data Arrival : Type 0 where
  request : App → HttpRequest → Arrival
  elsewhere : Operation → Arrival

Covers-gets : {A : Type 0} (f : World → A) → Covers (gets f)
unfolding ◌>>=◌
Covers-gets f = record { at = λ w c. c }

Covers-collect :
    {A B : Type 0} (body : A → M (List B)) (l : List A)
    → ((a : A) → Covers (body a))
    → Covers (collect body l)
unfolding collect
Covers-collect body [] k = Covers-pure []
Covers-collect body (x ∷ l) k =
    Covers-bind _ _ (k x)
      (λ found. Covers-bind _ _ (Covers-collect body l k) (λ rest. Covers-pure _))

ruleset query_rules = (cover_rules, Covers-gets, Covers-select_run)

module _ ⦃p : Platform⦄ where
  unfoldable pub arrive : List Arrival → World → World
  arrive [] w = w
  arrive (request app q ∷ l) w = arrive l (respond app q w).1
  arrive (elsewhere o ∷ l) w = arrive l (operation o w).1

  verify_event_chain-Covers : (k : String) → Covers (verify_event_chain k)
  unfolding verify_event_chain
  verify_event_chain-Covers k = search (query_rules) depth 8

  trail_of-Covers : (o : Option VerifiedPrincipal) (r : Option Run) → Covers (trail_of o r)
  unfolding trail_of shown_trail finished_trail
  trail_of-Covers o none = Covers-pure none
  trail_of-Covers o (some r) = search (query_rules, verify_event_chain-Covers) depth 12

  audit_trail-Covers : (k : String) (o : Option VerifiedPrincipal) → Covers (audit_trail k o)
  unfolding audit_trail
  audit_trail-Covers k o = search (query_rules, trail_of-Covers) depth 8

  list_runs-Covers :
      (tenant : Option String) (status : Option ActionStatus) (limit : ℕ)
      → Covers (list_runs tenant status limit)
  unfolding list_runs
  list_runs-Covers tenant status limit = search (query_rules) depth 8

  visible_run-Covers : (v : VerifiedPrincipal) (r : Run) → Covers (visible_run v r)
  unfolding visible_run
  visible_run-Covers v r = search (query_rules, audit_trail-Covers) depth 8

  load_tenant_run-Covers : (k : String) (v : VerifiedPrincipal) → Covers (load_tenant_run k v)
  unfolding load_tenant_run
  load_tenant_run-Covers k v = search (query_rules) depth 8

  tenant_action-Covers :
      (app : App) (k : String) (v : VerifiedPrincipal) → Covers (tenant_action app k v)
  unfolding tenant_action
  tenant_action-Covers app k v = search (query_rules, load_tenant_run-Covers) depth 8

  invoke_resolved-Covers :
      (app : App) (v : VerifiedPrincipal) (a : TrustedAction) (name : String) (arguments : Json)
      (refs : List String) (key : String)
      → Covers (invoke_resolved app v a name arguments refs key)
  unfolding invoke_resolved
  invoke_resolved-Covers app v a name arguments refs key =
      search (query_rules, invoke_request-Covers, invoke_request_async-Covers) depth 12

  Covers-now : Covers now
  Covers-now = Covers-Trace now (Keeps-now Trace-IsPreorder) IsSilent-now

  snapshot-Covers :
      (backend : String) (version : Option ℕ) (tenant : Option String) (limit : ℕ)
      → Covers (collect_operational_snapshot backend version tenant false limit)
  unfolding collect_operational_snapshot status_counts event_counts approval_counts
      duplicate_retry_count
  snapshot-Covers backend version tenant limit = search (query_rules, Covers-now) depth 12

  route-Covers : (app : App) (v : VerifiedPrincipal) (e : Endpoint) → Covers (route app v e)
  unfolding route invoke_route runs_route audit_route approvals_route approve_route reject_route
      resume_route reconcile_route provider_route recover_route actions_route metrics_route
  route-Covers app v (unguarded e) = Covers-pure _
  route-Covers app v metrics = search (query_rules, snapshot-Covers) depth 12
  route-Covers app v actions = search (query_rules) depth 8
  route-Covers app v approvals =
      search (query_rules, list_runs-Covers, visible_run-Covers, Covers-collect) depth 12
  route-Covers app v recover =
      search (query_rules, expire_approvals-Covers, recover_expired_executions-Covers) depth 12
  route-Covers app v (Endpoint.invoke name arguments refs key) =
      search (query_rules, invoke_resolved-Covers) depth 16
  route-Covers app v (runs status limit) =
      search (query_rules, list_runs-Covers, visible_run-Covers, Covers-collect) depth 12
  route-Covers app v (audit k) =
      search (query_rules, load_tenant_run-Covers, audit_trail-Covers) depth 12
  route-Covers app v (Endpoint.resume k) =
      search (query_rules, tenant_action-Covers, resume-Covers, resume_async-Covers) depth 12
  route-Covers app v (Endpoint.reconcile_from_provider k) =
      search (query_rules, tenant_action-Covers, reconcile_from_provider-Covers) depth 16
  route-Covers app v (Endpoint.approve k note) =
      search (query_rules, tenant_action-Covers, approve-Covers) depth 12
  route-Covers app v (Endpoint.reject k note) =
      search (query_rules, tenant_action-Covers, reject-Covers) depth 12
  route-Covers app v (Endpoint.reconcile k outcome value note) =
      search (query_rules, tenant_action-Covers, reconcile-Covers) depth 12

  handle-Covers :
      (app : App) (authorization : Option String) (e : Endpoint)
      → Covers (handle app authorization e)
  unfolding handle guarded
  handle-Covers app authorization (unguarded e) = Covers-pure _
  handle-Covers app authorization e = search (query_rules, route-Covers) depth 8

  arrive-IsCovered : (l : List Arrival) (w : World) → IsCovered w → IsCovered (arrive l w)
  unfolding arrive respond
  arrive-IsCovered [] w c = c
  arrive-IsCovered (request app q ∷ l) w c =
      arrive-IsCovered l _ ((handle-Covers app q.authorization q.endpoint).at w c)
  arrive-IsCovered (elsewhere o ∷ l) w c = arrive-IsCovered l _ ((operation-Covers o).at w c)

  -- From an empty ledger, whatever requests arrive at whatever applications, with whatever
  -- credentials and in whatever order, and whatever the rest of the program asks of actions and of
  -- the ledger in between: for each run the protected function is called at most once.
  pub arrive_once :
      (l : List Arrival) (k : String)
      → length (select (λ c. c.run_id == k) (arrive l start).calls) ≤ 1
  arrive_once l k = IsCovered-once k _ (arrive-IsCovered l start start-IsCovered)
