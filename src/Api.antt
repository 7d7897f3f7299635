-- ===== src/Api.antt =====
-- api.py: the data of the HTTP control plane, and what stands before its routes. FastAPI parses a
-- request into an `Endpoint`; it runs the dependency `principal` first, then checks the body.
pub mod Routes
pub mod Isolation
pub mod Roles
pub mod Calls
use Prim.Native.String.{[], ◌∷◌}
use agent_trust_ops.Prelude.{
  ℕ, String, Bool, true, false, not, ◌&&◌, ◌||◌, Option, none, some, List, ◌==◌, ◌<>◌, leb, strip,
  char_count, contains, length, if◌then◌else◌,
}
use agent_trust_ops.Errors.{
  Error, Result, ok, err, value_error, key_error, idempotency_conflict, invalid_transition,
  approval_denied, authentication_error, provider_lookup_error, http_exception, require, ◌>>=◌,
  ◌>>◌,
}
use agent_trust_ops.Json.{Json, str, obj, object, Platform}
use agent_trust_ops.Models.{
  ActionStatus, ActionContext, action_context, ActionResult, VerifiedPrincipal, completed, failed,
  status_value,
}
use agent_trust_ops.Providers.{ProviderProbe}
use agent_trust_ops.Ledger.Table
use agent_trust_ops.Ledger.Queries.{SchemaInfo}
use agent_trust_ops.Ledger.Audit.{RunView, AuditTrail}
use agent_trust_ops.Auth.{all_in}
use agent_trust_ops.Registry.{ActionRegistry}

-- The arguments of `create_app`; the attribute `backend_name` of the registry's ledger, and the
-- version of the schema that its metadata hold; `_static_asset`, which reads a file of the package;
-- and `repr` of a text, by which `str` shows a `KeyError`.
pub record App : Type 0 where
  pub registry : ActionRegistry
  pub identity_verifier : String → Result VerifiedPrincipal
  pub context_resolver : VerifiedPrincipal → String → Json → List String → Result ActionContext
  pub provider_probes : Table.Table ProviderProbe
  pub invoker_role : String
  pub viewer_role : String
  pub executor_role : String
  pub observer_role : String
  pub operator_role : String
  pub backend_name : String
  pub schema_version : Option ℕ
  pub static_asset : String → String
  pub repr : String → String

-- The routes that do not depend on `principal`.
pub data PublicEndpoint : Type 0 where
  health readiness control_plane_ui control_plane_css control_plane_js : PublicEndpoint

-- The routes with the parts of a request that they declare.
pub data Endpoint : Type 0 where
  unguarded : PublicEndpoint → Endpoint
  actions approvals recover metrics : Endpoint
  invoke : String → Json → List String → Option String → Endpoint
  runs : Option ActionStatus → ℕ → Endpoint
  audit resume reconcile_from_provider : String → Endpoint
  approve reject : String → String → Endpoint
  reconcile : String → String → Json → String → Endpoint

pub record HttpRequest : Type 0 where
  pub authorization : Option String
  pub endpoint : Endpoint

-- `ActionResult.to_public_dict`
pub record PublicResult : Type 0 where
  pub run_id : String
  pub action_name : String
  pub status : String
  pub policy_version : Option String
  pub reason : Option String
  pub value : Json
  pub attempt : ℕ

unfoldable pub public_result : ActionResult → PublicResult
public_result r = record {
  run_id = r.run_id;
  action_name = r.action_name;
  status = status_value r.status;
  policy_version = r.policy_version;
  reason = r.reason;
  value = r.value;
  attempt = r.attempt;
}

-- A page or a text has its media type first.
pub data Body : Type 0 where
  healthy : Body
  ready : SchemaInfo → Body
  page : String → String → Body
  action_list : List String → Body
  result : PublicResult → Body
  run_list approval_list : List RunView → Body
  trail : AuditTrail → Body
  recovery : List String → List String → Body

-- An answer with status 200, or a refusal with its status and detail.
pub data HttpAnswer : Type 0 where
  answered : Body → HttpAnswer
  refused : ℕ → String → HttpAnswer

-- The handlers of exceptions; what none handles is a server error without its text.
unfoldable pub refusal : Error → HttpAnswer
refusal (http_exception status detail) = refused status detail
refusal (idempotency_conflict m) = refused 409 m
refusal (invalid_transition m) = refused 409 m
refusal (approval_denied m) = refused 403 m
refusal _ = refused 500 "Internal Server Error"

unfoldable pub answer_of : Result Body → HttpAnswer
unfolding refusal
answer_of (ok b) = answered b
answer_of (err e) = refusal e

-- `PrincipalContextResolver`, the default
module _ ⦃p : Platform⦄ where
  unfoldable pub principal_context :
      VerifiedPrincipal → String → Json → List String → Result ActionContext
  principal_context v name arguments (List.◌∷◌ e l) =
      err (value_error "evidence_refs require a server-side InvocationContextResolver")
  principal_context v name arguments List.[] = action_context (record {
    actor_id = v.actor_id;
    tenant_id = v.tenant_id;
    roles = v.roles;
    evidence = List.[];
    metadata = obj (object (List.◌∷◌ ("identity_source", str v.auth_source) List.[]));
  })

-- `text.removeprefix(prefix)`, or none if the text does not start with it.
unfoldable pub after_prefix : String → String → Option String
after_prefix [] s = some s
after_prefix (c ∷ t) [] = none
after_prefix (c ∷ t) (d ∷ s) =
    let rest = after_prefix t s in if (c ∷ []) == (d ∷ []) then rest else none

-- `except AuthenticationError` of `principal`
abbrev unauthorized : Result VerifiedPrincipal → Result VerifiedPrincipal
unauthorized (err (authentication_error m)) = err (http_exception 401 m)
unauthorized r = r

abbrev verified : App → Option String → Result VerifiedPrincipal
verified app none = err (http_exception 401 "bearer credential required")
verified app (some credential) = unauthorized (app.identity_verifier (strip credential))

abbrev credential_of : Option String → Option String
credential_of none = none
credential_of (some header) = after_prefix "Bearer " header

unfoldable pub principal : App → Option String → Result VerifiedPrincipal
unfolding after_prefix
principal app authorization = verified app (credential_of authorization)

unfoldable pub require_role : VerifiedPrincipal → String → Result (Unit {0})
require_role v role =
    require (contains role v.roles)
      (http_exception 403 ("verified principal lacks required role: " <> role))

abbrev between : ℕ → ℕ → ℕ → Bool
between low high n = leb low n && leb n high

unfoldable pub refs_are_bounded : List String → Bool
refs_are_bounded List.[] = true
refs_are_bounded (List.◌∷◌ e l) = between 1 255 (char_count e) && refs_are_bounded l

-- The constraints of the request models: `InvokeRequest`, `DecisionRequest`, `ReconcileRequest`,
-- and of the query of `/v1/runs`.
unfoldable pub is_valid : Endpoint → Bool
unfolding refs_are_bounded
is_valid (invoke name arguments refs key) = leb (length refs) 100 && refs_are_bounded refs
is_valid (approve k note) = between 3 2000 (char_count note)
is_valid (reject k note) = between 3 2000 (char_count note)
is_valid (reconcile k outcome value note) =
    between 3 2000 (char_count note)
    && (outcome == status_value completed || outcome == status_value failed)
is_valid (runs status limit) = between 1 1000 limit
is_valid _ = true

-- `_validate_resolved_context`
unfoldable pub validate_resolved_context : VerifiedPrincipal → ActionContext → Result (Unit {0})
validate_resolved_context v c =
    require (c.actor_id == v.actor_id && c.tenant_id == v.tenant_id)
      (value_error "context resolver changed verified actor or tenant")
    >> require (all_in c.roles v.roles) (value_error "context resolver added an unverified role")

-- `8 <= len(idempotency_key.strip()) <= 255`
unfoldable pub required_key : Option String → Result String
required_key none =
    err (http_exception 400 "Idempotency-Key must contain between 8 and 255 characters")
required_key (some key) =
    require (between 8 255 (char_count (strip key)))
      (http_exception 400 "Idempotency-Key must contain between 8 and 255 characters")
    >> ok key

-- `except KeyError`
abbrev pub not_found : {A : Type 0} → App → Result A → Result A
not_found app (err (key_error m)) = err (http_exception 404 (app.repr m))
not_found app r = r

-- `except ValueError`
abbrev pub bad_request : {A : Type 0} → Result A → Result A
bad_request (err (value_error m)) = err (http_exception 400 m)
bad_request r = r

-- `except ProviderLookupError`
abbrev pub bad_gateway : {A : Type 0} → Result A → Result A
bad_gateway (err (provider_lookup_error m)) =
    err (http_exception 502 "provider lookup failed; run remains unknown")
bad_gateway r = r
