-- ===== src/Api/Routes.antt =====
-- The routes of `create_app` in api.py, and how a request passes through the application.
use agent_trust_ops.Prelude.{
  ℕ, String, false, Option, none, some, List, [], ◌∷◌, ◌==◌, shares, if◌then◌else◌,
}
use agent_trust_ops.Errors.{Error, Result, ok, err, approval_denied, http_exception, require}
use agent_trust_ops.Errors
use agent_trust_ops.Json.{Json, Platform}
use agent_trust_ops.Models.{ActionStatus, pending_approval, ActionResult, VerifiedPrincipal}
use agent_trust_ops.Providers.{ProviderProbe}
use agent_trust_ops.Ledger.Table
use agent_trust_ops.Ledger.Store.{
  Run, World, M, pure, lift, ◌>>=◌, ◌>>◌, attempt, collect, select_run,
}
use agent_trust_ops.Ledger.Approvals.{expire_approvals}
use agent_trust_ops.Ledger.Execution.{recover_expired_executions}
use agent_trust_ops.Ledger.Queries.{list_runs, schema_info}
use agent_trust_ops.Ledger.Audit.{RunView, AuditTrail, audit_trail}
use agent_trust_ops.Runtime.Action.{TrustedAction}
use agent_trust_ops.Runtime.Invoke.{invoke_request, invoke_request_async, resume, resume_async}
use agent_trust_ops.Runtime.Review.{approve, reject, reconcile, reconcile_from_provider}
use agent_trust_ops.Registry.{get_action, action_names}
use agent_trust_ops.Observability.{collect_operational_snapshot, render_prometheus}
use agent_trust_ops.Api.{
  App, PublicEndpoint, health, readiness, control_plane_ui, control_plane_css, control_plane_js,
  Endpoint, unguarded, metrics, actions, approvals, recover, runs, audit, HttpRequest, Body,
  healthy, ready, page, action_list, run_list, approval_list, trail, recovery, HttpAnswer,
  public_result, answer_of, principal, require_role, is_valid, validate_resolved_context,
  required_key, not_found, bad_request, bad_gateway,
}

abbrev missing_run : Error
missing_run = http_exception 404 "run not found"

-- The checks of `load_tenant_run`.
unfoldable pub tenant_run : VerifiedPrincipal → Option Run → Result Run
tenant_run v none = err missing_run
tenant_run v (some r) = Errors.◌>>◌ (require (r.tenant_id == v.tenant_id) missing_run) (ok r)

abbrev pub found_trail : Option AuditTrail → Result AuditTrail
found_trail none = err missing_run
found_trail (some t) = ok t

abbrev found_probe : Option ProviderProbe → Result ProviderProbe
found_probe none =
    err (http_exception 409 "no provider reconciliation probe is configured for this action")
found_probe (some probe) = ok probe

abbrev result_body : ActionResult → Body
result_body r = Body.result (public_result r)

unfoldable pub public_body : App → PublicEndpoint → Body
public_body app health = healthy
public_body app readiness = ready (schema_info app.backend_name app.schema_version)
public_body app control_plane_ui = page "text/html" (app.static_asset "control-plane.html")
public_body app control_plane_css = page "text/css" (app.static_asset "control-plane.css")
public_body app control_plane_js = page "text/javascript" (app.static_asset "control-plane.js")

module _ ⦃p : Platform⦄ where
  unfoldable pub load_tenant_run : String → VerifiedPrincipal → M Run
  unfolding tenant_run
  load_tenant_run run_id v = do run ← select_run run_id; lift (tenant_run v run)

  unfoldable pub visible_run : VerifiedPrincipal → Run → M (List RunView)
  visible_run v r = do
    found ← audit_trail r.run_id (some v)
    t ← lift (found_trail found)
    pure (t.run ∷ [])

  -- The run of the tenant, and the action that it belongs to.
  unfoldable pub tenant_action : App → String → VerifiedPrincipal → M (Run × TrustedAction)
  unfolding load_tenant_run
  tenant_action app run_id v = do
    run ← load_tenant_run run_id v
    action ← lift (get_action run.action_name app.registry)
    pure (run, action)

  -- The second `try` of the route.
  unfoldable pub invoke_resolved :
      App
      → VerifiedPrincipal
      → TrustedAction
      → String
      → Json
      → List String
      → String
      → M ActionResult
  unfolding validate_resolved_context
  invoke_resolved app v action name arguments refs key = do
    context ← lift (app.context_resolver v name arguments refs)
    lift (validate_resolved_context v context)
    if action.is_async
        then invoke_request_async action context arguments key
        else invoke_request action context arguments key

  unfoldable pub invoke_route :
      App → VerifiedPrincipal → String → Json → List String → Option String → M Body
  unfolding require_role required_key invoke_resolved
  invoke_route app v name arguments refs idempotency_key = do
    lift (require_role v app.invoker_role)
    key ← lift (required_key idempotency_key)
    action ← lift (not_found app (get_action name app.registry))
    outcome ← attempt (invoke_resolved app v action name arguments refs key)
    r ← lift (bad_request outcome)
    pure (result_body r)

  unfoldable pub runs_route : App → VerifiedPrincipal → Option ActionStatus → ℕ → M Body
  unfolding visible_run
  runs_route app v status limit = do
    lift (require_role v app.viewer_role)
    listed ← list_runs (some v.tenant_id) status limit
    views ← collect (visible_run v) listed
    pure (run_list views)

  unfoldable pub audit_route : App → VerifiedPrincipal → String → M Body
  unfolding load_tenant_run
  audit_route app v run_id = do
    lift (require_role v app.viewer_role)
    load_tenant_run run_id v >>= λ _.
        audit_trail run_id (some v) >>= λ found. lift (found_trail found) >>= λ t. pure (trail t)

  unfoldable pub approvals_route : App → VerifiedPrincipal → M Body
  unfolding visible_run
  approvals_route app v = do
    lift (require_role v app.viewer_role)
    waiting ← list_runs (some v.tenant_id) (some pending_approval) 1000
    views ← collect (visible_run v) waiting
    pure (approval_list views)

  unfoldable pub approve_route : App → VerifiedPrincipal → String → String → M Body
  unfolding tenant_action
  approve_route app v run_id note = do
    found ← tenant_action app run_id v
    r ← approve found.1 run_id v note
    pure (result_body r)

  unfoldable pub reject_route : App → VerifiedPrincipal → String → String → M Body
  unfolding tenant_action
  reject_route app v run_id note = do
    found ← tenant_action app run_id v
    r ← reject found.1 run_id v note
    pure (result_body r)

  unfoldable pub resume_route : App → VerifiedPrincipal → String → M Body
  unfolding tenant_action
  resume_route app v run_id = do
    lift (require_role v app.executor_role)
    found ← tenant_action app run_id v
    r ← (if found.1.is_async then resume_async found.1 run_id else resume found.1 run_id)
    pure (result_body r)

  unfoldable pub reconcile_route :
      App → VerifiedPrincipal → String → String → Json → String → M Body
  unfolding tenant_action
  reconcile_route app v run_id outcome value note = do
    found ← tenant_action app run_id v
    r ← reconcile found.1 run_id outcome v note value
    pure (result_body r)

  unfoldable pub provider_route : App → VerifiedPrincipal → String → M Body
  unfolding tenant_action
  provider_route app v run_id = do
    found ← tenant_action app run_id v
    lift (
        require (shares found.1.reconciliation_roles v.roles)
          (approval_denied "principal lacks a required reconciliation role"))
    probe ← lift (found_probe (Table.get found.0.action_name app.provider_probes))
    outcome ← attempt (reconcile_from_provider found.1 run_id probe v)
    r ← lift (bad_gateway outcome)
    pure (result_body r)

  unfoldable pub recover_route : App → VerifiedPrincipal → M Body
  recover_route app v = do
    lift (require_role v app.operator_role)
    expired ← expire_approvals (some v.tenant_id)
    recovered ← recover_expired_executions (some v.tenant_id)
    pure (recovery recovered expired)

  unfoldable pub actions_route : App → VerifiedPrincipal → M Body
  actions_route app v = do
    lift (require_role v app.viewer_role)
    pure (action_list (action_names app.registry))

  unfoldable pub metrics_route : App → VerifiedPrincipal → M Body
  metrics_route app v = do
    lift (require_role v app.observer_role)
    snapshot ←
        collect_operational_snapshot app.backend_name app.schema_version (some v.tenant_id) false
          10000
    pure (page "text/plain; version=0.0.4; charset=utf-8" (render_prometheus snapshot))

  unfoldable pub route : App → VerifiedPrincipal → Endpoint → M Body
  route app v (unguarded e) = pure (public_body app e)
  route app v metrics = metrics_route app v
  route app v actions = actions_route app v
  route app v approvals = approvals_route app v
  route app v recover = recover_route app v
  route app v (Endpoint.invoke name arguments refs key) = invoke_route app v name arguments refs key
  route app v (runs status limit) = runs_route app v status limit
  route app v (audit k) = audit_route app v k
  route app v (Endpoint.resume k) = resume_route app v k
  route app v (Endpoint.reconcile_from_provider k) = provider_route app v k
  route app v (Endpoint.approve k note) = approve_route app v k note
  route app v (Endpoint.reject k note) = reject_route app v k note
  route app v (Endpoint.reconcile k outcome value note) = reconcile_route app v k outcome value note

  -- A request with the `Authorization` header: FastAPI refuses a body that breaks a constraint.
  unfoldable pub guarded : App → Option String → Endpoint → M Body
  unfolding route
  guarded app authorization e = do
    v ← lift (principal app authorization)
    lift (require (is_valid e) (http_exception 422 "Unprocessable Content"))
    route app v e

  -- `/healthz`, `/readyz`, `/ui` and the two assets of the page need no principal.
  unfoldable pub handle : App → Option String → Endpoint → M Body
  unfolding guarded
  handle app authorization (unguarded e) = pure (public_body app e)
  handle app authorization e = guarded app authorization e

  unfoldable pub respond : App → HttpRequest → World → HttpAnswer × World
  unfolding handle
  respond app q w = let (r, w') = handle app q.authorization q.endpoint w in (answer_of r, w')
