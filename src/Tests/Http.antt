-- ===== src/Tests/Http.antt =====
-- Requests to an application with one action and one caller.
use agent_trust_ops.Prelude.{
  ℕ, ◌≡◌, ◌≤◌, refl, true, false, none, some, [], ◌∷◌, ◌==◌, ◌<>◌, String, length, select, contains,
  strip,
}
use agent_trust_ops.Errors.{ok}
use agent_trust_ops.Json.{str, obj, object}
use agent_trust_ops.Ledger.Table
use agent_trust_ops.Ledger.Store.{World, ◌>>=◌}
use agent_trust_ops.Ledger.Queries.{schema_info}
use agent_trust_ops.Ledger.Method.{start}
use agent_trust_ops.Models.{sorted}
use agent_trust_ops.Registry.{action_names}
use agent_trust_ops.Auth.{verify_token, match_digest}
use agent_trust_ops.Api.{
  App, readiness, Endpoint, unguarded, metrics, ready, refusal, actions, audit, HttpRequest,
  answered, refused, action_list, answer_of, principal_context, after_prefix, principal,
  require_role, is_valid,
}
use agent_trust_ops.Api.Routes.{
  public_body, metrics_route, actions_route, route, guarded, handle, respond,
}
use agent_trust_ops.Api.Isolation.{is_own, respond_unseen}
use agent_trust_ops.Api.Roles.{IsAdmitted, respond-IsAdmitted, is_public}
use agent_trust_ops.Api.Calls.{Arrival, request, elsewhere, arrive, arrive_once}
use agent_trust_ops.Runtime.Operation.{invokes}
use agent_trust_ops.Tests.Platform.{test_platform}
use agent_trust_ops.Tests.Access.{one_action, caller, tokens}
use agent_trust_ops.Tests.Runtime.{refund_action, agent}

abbrev app : App
app = record {
  registry = one_action;
  identity_verifier = λ credential. verify_token tokens.entries credential;
  context_resolver = λ v name arguments refs. principal_context v name arguments refs;
  provider_probes = Table.empty;
  invoker_role = "agenttrustops_invoker";
  viewer_role = "agenttrustops_viewer";
  executor_role = "agenttrustops_executor";
  observer_role = "agenttrustops_observer";
  operator_role = "agenttrustops_operator";
  backend_name = "sqlite";
  schema_version = some 2;
  static_asset = λ name. "";
  repr = λ t. "'" <> (t <> "'");
}

abbrev asked : Endpoint → HttpRequest
asked e = record { authorization = some "Bearer a-token-of-the-agent"; endpoint = e }

caller_verified : principal app (some "Bearer a-token-of-the-agent") ≡ ok caller
unfolding principal after_prefix verify_token match_digest strip
caller_verified = refl

respond_unseen_example :
    (status : ℕ) × (detail : String) × ((w : World)
      → is_own caller (Table.get "run_9" w.db.runs) ≡ false
      → respond app (asked (audit "run_9")) w ≡ (refused status detail, w))
respond_unseen_example =
    respond_unseen app (asked (audit "run_9")) caller "run_9" caller_verified refl

actions_answered :
    (respond app (asked actions) start).0 ≡ answered (action_list ("execute_refund" ∷ []))
unfolding respond handle guarded route actions_route require_role is_valid answer_of principal
    after_prefix verify_token match_digest strip contains ◌>>=◌ action_names sorted Table.rows
    Table.put Table.empty
actions_answered = refl

readiness_answered :
    (respond app (record { authorization = none; endpoint = unguarded readiness }) start).0
    ≡ answered (ready (record { backend = "sqlite"; schema_version = some 2; writable = true }))
unfolding respond handle public_body schema_info answer_of ◌>>=◌
readiness_answered = refl

metrics_refused :
    (respond app (asked metrics) start).0
    ≡ refused 403 "verified principal lacks required role: agenttrustops_observer"
unfolding respond handle guarded route metrics_route require_role is_valid answer_of refusal
    principal after_prefix verify_token match_digest strip contains ◌>>=◌
metrics_refused = refl

respond-IsAdmitted_example : IsAdmitted app (asked actions)
unfolding is_public
respond-IsAdmitted_example =
    respond-IsAdmitted app (asked actions) start (action_list ("execute_refund" ∷ [])) refl
      actions_answered

abbrev posted : Arrival
posted = request app (
    asked (
      Endpoint.invoke "execute_refund" (obj (object (("amount", str "5") ∷ []))) []
        (some "refund-0001")))

arrive_once_example :
    length (
      select
        (λ c. c.run_id == "run_")
        (arrive
          (posted ∷ elsewhere (invokes refund_action agent (obj (object []))) ∷ posted ∷ [])
          start).calls)
    ≤ 1
arrive_once_example =
    arrive_once (posted ∷ elsewhere (invokes refund_action agent (obj (object []))) ∷ posted ∷ [])
      "run_"
