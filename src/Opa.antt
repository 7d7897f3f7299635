-- ===== src/Opa.antt =====
-- integrations/opa.py: the decision of an Open Policy Agent server. The transport is a parameter.
pub mod Closed
use agent_trust_ops.Prelude.{
  ℕ, String, ◌≡◌, refl, sym, Bool, true, false, Option, none, some, List, [], ◌∷◌, ◌==◌, ◌<>◌,
  eq_iff, leb, inl, inr, Bool-cases, if◌then◌else◌,
}
use agent_trust_ops.Errors.{
  Error, Result, ok, err, value_error, type_error, runtime_error, require, returned_first,
}
use agent_trust_ops.Errors
use agent_trust_ops.Json.{
  Json, null, str, arr, obj, object, texts, Fields, end, get_field, Platform,
}
use agent_trust_ops.Models.{
  PolicyOutcome, allow, deny, approval_required, outcome_value, PolicyDecision, policy_decision,
  policy_decision_outcome, ActionContext,
}

-- What comes back from the server: `HTTPError`, `URLError` or `TimeoutError` by name, or a body with
-- its length and its JSON, if it is that.
pub data OpaReply : Type 0 where
  unavailable : String → OpaReply
  body : ℕ → Option Json → OpaReply

-- The server answers a text; `encoded` is `json.dumps` with `ensure_ascii=False`, or what it raises,
-- and `text_of` is Python's `str`.
pub record OpaPolicy : Type 0 where
  pub max_response_bytes : ℕ
  pub encoded : Json → Result String
  pub answer : String → OpaReply
  pub text_of : Json → String

unfoldable pub opa_payload : String → Json → ActionContext → Json
opa_payload name arguments c = obj (
    object (
      (
        "input",
        obj (
            object (
              ("action_name", str name)
              ∷ ("arguments", arguments)
              ∷ (
                "context",
                obj (
                    object (
                      ("actor_id", str c.actor_id)
                      ∷ ("tenant_id", str c.tenant_id)
                      ∷ ("roles", arr (texts c.roles))
                      ∷ ("evidence", arr (texts c.evidence))
                      ∷ ("metadata", c.metadata)
                      ∷ [])),
              )
              ∷ [])),
      )
      ∷ []))

abbrev invalid_contract : Error
invalid_contract = value_error "OPA result has an invalid decision contract"

-- `PolicyOutcome(result["outcome"])`, whose errors are all one
abbrev pub outcome_named : String → Result PolicyOutcome
outcome_named s =
    if s == "allow"
    then ok allow
    else (if s == "deny"
        then ok deny
        else (if s == "approval_required" then ok approval_required else err invalid_contract))

unfoldable pub opa_outcome : Option Json → Result PolicyOutcome
opa_outcome (some (str s)) = outcome_named s
opa_outcome _ = err invalid_contract

abbrev pub opa_text : OpaPolicy → Option Json → Result String
opa_text o none = err invalid_contract
opa_text o (some (str s)) = ok s
opa_text o (some v) = ok (o.text_of v)

abbrev pub opa_facts : Option Json → Result Json
opa_facts none = ok (obj end)
opa_facts (some (obj fields)) = ok (obj fields)
opa_facts (some v) = err (type_error "OPA decision facts must be an object")

abbrev pub opa_digest : Option Json → Result (Option String)
opa_digest none = ok none
opa_digest (some null) = ok none
opa_digest (some (str s)) = ok (some s)
opa_digest (some v) = err (value_error "OPA policy_digest must be a string")

-- `envelope["result"]`, which must be an object in an object.
unfoldable pub opa_result : Json → Result Json
opa_result envelope = elim (get_field "result" envelope) [
  | some (obj fields) ↦ ok (obj fields)
  | _ ↦ err (type_error "OPA response must contain an object result")
]

unfoldable pub opa_envelope : OpaPolicy → OpaReply → Result Json
opa_envelope o (unavailable name) = err (runtime_error ("OPA evaluation unavailable: " <> name))
opa_envelope o (body n json) =
    Errors.◌>>◌
      (require (leb n o.max_response_bytes)
        (value_error "OPA response exceeded max_response_bytes"))
      (elim json [ none ↦ err (value_error "OPA returned invalid JSON") | some v ↦ ok v ])

module _ ⦃p : Platform⦄ where
  -- The fields that follow the outcome.
  unfoldable pub opa_details : OpaPolicy → Json → PolicyOutcome → Result PolicyDecision
  opa_details o v outcome = Errors.◌>>=◌ (opa_text o (get_field "reason" v)) (λ reason.
      Errors.◌>>=◌ (opa_text o (get_field "policy_version" v)) (λ version.
        Errors.◌>>=◌ (opa_facts (get_field "facts" v)) (λ facts.
          Errors.◌>>=◌ (opa_digest (get_field "policy_digest" v)) (λ digest.
            policy_decision (record {
              outcome = outcome;
              reason = reason;
              policy_version = version;
              facts = facts;
              policy_digest = digest;
            })))))

  -- The part of `OPAPolicy.evaluate` with a result.
  unfoldable pub opa_decision : OpaPolicy → Json → Result PolicyDecision
  unfolding opa_outcome opa_details
  opa_decision o v = Errors.◌>>=◌ (opa_outcome (get_field "outcome" v)) (opa_details o v)

  -- `OPAPolicy.evaluate`
  unfoldable pub evaluate_opa : OpaPolicy → String → Json → ActionContext → Result PolicyDecision
  unfolding opa_payload opa_envelope opa_result opa_decision
  evaluate_opa o name arguments c = Errors.◌>>=◌ (o.encoded (opa_payload name arguments c)) (λ t.
      Errors.◌>>=◌ (opa_envelope o (o.answer t))
        (λ envelope. Errors.◌>>=◌ (opa_result envelope) (opa_decision o)))
