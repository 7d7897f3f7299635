-- ===== src/Api/Roles.antt =====
-- What a caller of api.py needs before a route does anything for it.
use agent_trust_ops.Prelude.{String, ◌≡◌, refl, Bool, true, false, Option, none, some, contains}
use agent_trust_ops.Errors.{
  Error, Result, ok, err, http_exception, idempotency_conflict, invalid_transition, approval_denied,
}
use agent_trust_ops.Json.{Platform}
use agent_trust_ops.Models.{VerifiedPrincipal}
use agent_trust_ops.Ledger.Store.{World, M, lift, ◌>>◌}
use agent_trust_ops.Ledger.Returns.{Returns, lifted, Returns-bind, Returns-checked}
use agent_trust_ops.Api.{
  App, Endpoint, unguarded, metrics, actions, approvals, recover, runs, audit, HttpRequest, Body,
  answered, refusal, answer_of, principal, require_role, is_valid,
}
use agent_trust_ops.Api.Routes.{
  actions_route, approvals_route, recover_route, invoke_route, runs_route, audit_route,
  resume_route, metrics_route, route, guarded, handle, respond,
}

-- The role that a route asks for; the others leave the roles to the action.
unfoldable pub role_of : App → Endpoint → Option String
role_of app actions = some app.viewer_role
role_of app approvals = some app.viewer_role
role_of app metrics = some app.observer_role
role_of app recover = some app.operator_role
role_of app (Endpoint.invoke name arguments refs key) = some app.invoker_role
role_of app (runs status limit) = some app.viewer_role
role_of app (audit k) = some app.viewer_role
role_of app (Endpoint.resume k) = some app.executor_role
role_of app _ = none

unfoldable pub has_role : VerifiedPrincipal → Option String → Bool
has_role v none = true
has_role v (some role) = contains role v.roles

unfoldable pub is_public : Endpoint → Bool
is_public (unguarded e) = true
is_public _ = false

pub record IsAdmitted (app : App) (q : HttpRequest) : Type 0 where
  pub caller : VerifiedPrincipal
  pub verified : principal app q.authorization ≡ ok caller
  pub valid : is_valid q.endpoint ≡ true
  pub permitted : has_role caller (role_of app q.endpoint) ≡ true

refuses : (e : Error) (b : Body) → refusal e ≡ answered b → ◌≡◌ {A = Result Body} (err e) (ok b)
unfolding refusal
refuses (http_exception status detail) b h = cc h
refuses (idempotency_conflict m) b h = cc h
refuses (invalid_transition m) b h = cc h
refuses (approval_denied m) b h = cc h
refuses e b h = cc h

answered_ok : (r : Result Body) (b : Body) → answer_of r ≡ answered b → r ≡ ok b
unfolding answer_of
answered_ok (ok c) b h = let same : c ≡ b = cc h in cc same
answered_ok (err e) b h = refuses e b h

module _ ⦃p : Platform⦄ where
  checked :
      (v : VerifiedPrincipal) (role : String) (m : M Body) (w : World)
      → Returns (λ _ _. contains role v.roles ≡ true) (lift (require_role v role) >> m) w
  unfolding require_role
  checked v role m w =
      Returns-checked (λ _ _. contains role v.roles ≡ true) (contains role v.roles) _ m w
        (λ h a e. h)

  route_permits :
      (app : App) (v : VerifiedPrincipal) (e : Endpoint) (w : World)
      → Returns (λ _ _. has_role v (role_of app e) ≡ true) (route app v e) w
  unfolding route has_role role_of actions_route approvals_route recover_route invoke_route
      runs_route audit_route resume_route metrics_route
  route_permits app v actions w = checked v app.viewer_role _ w
  route_permits app v approvals w = checked v app.viewer_role _ w
  route_permits app v metrics w = checked v app.observer_role _ w
  route_permits app v recover w = checked v app.operator_role _ w
  route_permits app v (Endpoint.invoke name arguments refs key) w = checked v app.invoker_role _ w
  route_permits app v (runs status limit) w = checked v app.viewer_role _ w
  route_permits app v (audit k) w = checked v app.viewer_role _ w
  route_permits app v (Endpoint.resume k) w = checked v app.executor_role _ w
  route_permits app v e w = λ b h. refl

  guarded-IsAdmitted :
      (app : App) (q : HttpRequest) (w : World)
      → Returns (λ _ _. IsAdmitted app q) (guarded app q.authorization q.endpoint) w
  unfolding guarded
  guarded-IsAdmitted app q w =
      Returns-bind (λ _ _. IsAdmitted app q) (lift (principal app q.authorization)) _ w
        (λ v known.
          Returns-checked (λ _ _. IsAdmitted app q) (is_valid q.endpoint) _ (route app v q.endpoint)
            _
            (λ valid b h. record {
              caller = v;
              verified = lifted _ v w known;
              valid = valid;
              permitted = route_permits app v q.endpoint _ b h;
            }))

  handle-IsAdmitted :
      (app : App) (q : HttpRequest) (e : Endpoint) (w : World)
      → is_public e ≡ false
      → Returns (λ _ _. IsAdmitted app q) (guarded app q.authorization e) w
      → Returns (λ _ _. IsAdmitted app q) (handle app q.authorization e) w
  unfolding handle is_public
  handle-IsAdmitted app q (unguarded e) w n r = cc n
  handle-IsAdmitted app q e w n r = r

  -- A request to a route of `create_app` other than `/healthz`, `/readyz`, `/ui` and the two assets
  -- of its page: if it is answered with status 200, it has a credential of a verified principal and
  -- keeps the constraints of its body, and the principal has the role that the route asks for; the
  -- routes that approve, reject and reconcile leave the roles to the action.
  pub respond-IsAdmitted :
      (app : App) (q : HttpRequest) (w : World) (b : Body)
      → is_public q.endpoint ≡ false
      → (respond app q w).0 ≡ answered b
      → IsAdmitted app q
  unfolding respond
  respond-IsAdmitted app q w b n h =
      handle-IsAdmitted app q q.endpoint w n (guarded-IsAdmitted app q w) b (answered_ok _ b h)
