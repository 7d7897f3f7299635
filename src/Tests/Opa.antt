-- ===== src/Tests/Opa.antt =====
-- A decision of a server that allows.
use agent_trust_ops.Prelude.{◌≡◌, refl, none, some, [], ◌∷◌, strip}
use agent_trust_ops.Errors.{Result, ok, err}
use agent_trust_ops.Json.{Json, null, str, obj, object, end, get_field}
use agent_trust_ops.Models.{deny, PolicyDecision, policy_decision, json_object_copy}
use agent_trust_ops.Opa.{
  OpaPolicy, body, opa_payload, opa_outcome, opa_result, opa_envelope, opa_details, opa_decision,
  evaluate_opa,
}
use agent_trust_ops.Opa.Closed.{Names, evaluate_opa-Names}
use agent_trust_ops.Tests.Platform.{test_platform, dump}
use agent_trust_ops.Tests.Runtime.{agent}

abbrev allowed : Json
allowed = obj (
    object (("outcome", str "allow") ∷ ("reason", str "small") ∷ ("policy_version", str "v1") ∷ []))

abbrev server : OpaPolicy
server = record {
  max_response_bytes = 1048576;
  encoded = λ v. dump v;
  answer = λ t. body 80 (some (obj (object (("result", allowed) ∷ []))));
  text_of = λ v. "";
}

abbrev decision_in : Result PolicyDecision → PolicyDecision
decision_in (ok d) = d
decision_in (err e) = record {
  outcome = deny;
  reason = "";
  policy_version = "";
  facts = null;
  policy_digest = none;
}

abbrev answer : PolicyDecision
answer = decision_in (evaluate_opa server "execute_refund" (obj end) agent)

server_allows : evaluate_opa server "execute_refund" (obj end) agent ≡ ok answer
unfolding evaluate_opa opa_decision opa_details opa_envelope opa_result opa_outcome get_field
    policy_decision json_object_copy strip dump
server_allows = refl

evaluate_opa-Names_example :
    Names server (opa_payload "execute_refund" (obj end) agent) answer.outcome
evaluate_opa-Names_example =
    evaluate_opa-Names server "execute_refund" (obj end) agent answer server_allows
