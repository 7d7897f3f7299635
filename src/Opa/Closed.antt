-- ===== src/Opa/Closed.antt =====
-- What stands behind a decision of `OPAPolicy.evaluate` in integrations/opa.py.
use agent_trust_ops.Prelude.{
  ℕ, ◌≤◌, String, ◌≡◌, refl, sym, ap, ◌∙◌, Option, none, some, ◌==◌, eq_iff, leb, arith, inl, inr,
  Bool-cases,
}
use agent_trust_ops.Errors.{Error, Result, ok, err, require, returned_first, Result-cases}
use agent_trust_ops.Errors
use agent_trust_ops.Json.{Json, str, get_field, Platform}
use agent_trust_ops.Models.{
  PolicyOutcome, allow, deny, approval_required, outcome_value, PolicyDecision,
  policy_decision_outcome, ActionContext,
}
use agent_trust_ops.Opa.{
  OpaReply, unavailable, body, OpaPolicy, opa_payload, outcome_named, opa_outcome, opa_text,
  opa_facts, opa_digest, opa_result, opa_envelope, opa_details, opa_decision, evaluate_opa,
}

-- An answer of the server, within the limit, whose result names the outcome.
pub record Names (o : OpaPolicy) (payload : Json) (outcome : PolicyOutcome) : Type 0 where
  pub sent : String
  pub size : ℕ
  pub envelope : Json
  pub result : Json
  pub encoded : o.encoded payload ≡ ok sent
  pub answered : o.answer sent ≡ body size (some envelope)
  pub bounded : size ≤ o.max_response_bytes
  pub held : opa_result envelope ≡ ok result
  pub named : get_field "outcome" result ≡ some (str (outcome_value outcome))

outcome_named_lem : (s : String) (x : PolicyOutcome) → outcome_named s ≡ ok x → s ≡ outcome_value x
unfolding outcome_value
outcome_named_lem s x h = elim (Bool-cases (s == "allow")) [
  | inl a ↦
      let h' = (rw a at h) in let same : allow ≡ x = cc h' in rw (← same) ((eq_iff s "allow").0 a)
  | inr a ↦ elim (Bool-cases (s == "deny")) [
    | inl b ↦
        let h' = (rw (a, b) at h) in
        let same : deny ≡ x = cc h' in rw (← same) ((eq_iff s "deny").0 b)
    | inr b ↦ elim (Bool-cases (s == "approval_required")) [
      | inl c ↦
          let h' = (rw (a, b, c) at h) in
          let same : approval_required ≡ x = cc h' in
          rw (← same) ((eq_iff s "approval_required").0 c)
      | inr c ↦ let h' = (rw (a, b, c) at h) in cc h'
    ]
  ]
]

opa_outcome_lem :
    (v : Option Json) (x : PolicyOutcome) → opa_outcome v ≡ ok x → v ≡ some (str (outcome_value x))
unfolding opa_outcome
opa_outcome_lem (some (str s)) x h = ap (λ t. some (str t)) (outcome_named_lem s x h)
opa_outcome_lem v x h = cc h

opa_envelope_lem :
    (o : OpaPolicy) (r : OpaReply) (v : Json)
    → opa_envelope o r ≡ ok v
    → (n : ℕ) × (r ≡ body n (some v)) × (n ≤ o.max_response_bytes)
unfolding opa_envelope
opa_envelope_lem o (unavailable name) v h = cc h
opa_envelope_lem o (body n json) v h = elim (Bool-cases (leb n o.max_response_bytes)) [
  | inr long ↦ let h' = (rw long at h) in cc h'
  | inl fits ↦ parsed json (rw fits at h)
]
  where
    parsed :
        (j : Option Json)
        → (elim j [ none ↦ err (Errors.value_error "OPA returned invalid JSON") | some u ↦ ok u ])
          ≡ ok v
        → (m : ℕ) × (body n j ≡ body m (some v)) × (m ≤ o.max_response_bytes)
    parsed none e = cc e
    parsed (some u) e = let same : u ≡ v = cc e in (n, rw same refl, ground arith)

module _ ⦃p : Platform⦄ where
  opa_details_lem :
      (o : OpaPolicy) (v : Json) (x : PolicyOutcome) (d : PolicyDecision)
      → opa_details o v x ≡ ok d
      → d.outcome ≡ x
  unfolding opa_details
  opa_details_lem o v x d h = elim (Result-cases (opa_text o (get_field "reason" v))) [
    | inr (e, a) ↦ let h' = (rw a at h) in cc h'
    | inl (reason, a) ↦ elim (Result-cases (opa_text o (get_field "policy_version" v))) [
      | inr (e, b) ↦ let h' = (rw (a, b) at h) in cc h'
      | inl (version, b) ↦ elim (Result-cases (opa_facts (get_field "facts" v))) [
        | inr (e, c) ↦ let h' = (rw (a, b, c) at h) in cc h'
        | inl (facts, c) ↦ elim (Result-cases (opa_digest (get_field "policy_digest" v))) [
          | inr (e, g) ↦ let h' = (rw (a, b, c, g) at h) in cc h'
          | inl (digest, g) ↦ policy_decision_outcome _ d (rw (a, b, c, g) at h)
        ]
      ]
    ]
  ]

  -- The adapter fails closed: it returns a decision only where the server answered, within the
  -- limit, with an object result in which the outcome of the decision is named.
  pub evaluate_opa-Names :
      (o : OpaPolicy) (name : String) (arguments : Json) (c : ActionContext) (d : PolicyDecision)
      → evaluate_opa o name arguments c ≡ ok d
      → Names o (opa_payload name arguments c) d.outcome
  unfolding evaluate_opa opa_decision
  evaluate_opa-Names o name arguments c d h =
      let payload = opa_payload name arguments c in
      let (t, encoded, e₀) =
        returned_first (o.encoded payload)
          (λ s.
            Errors.◌>>=◌ (opa_envelope o (o.answer s))
              (λ u. Errors.◌>>=◌ (opa_result u) (opa_decision o)))
          h in
      let (envelope, received, e) =
        returned_first (opa_envelope o (o.answer t))
          (λ u. Errors.◌>>=◌ (opa_result u) (opa_decision o)) e₀ in
      let (v, held, e') = returned_first (opa_result envelope) (opa_decision o) e in
      let (x, named, e'') =
        returned_first (opa_outcome (get_field "outcome" v)) (opa_details o v) e' in
      let (n, answered, bounded) = opa_envelope_lem o (o.answer t) envelope received in
      record {
        sent = t;
        encoded = encoded;
        size = n;
        envelope = envelope;
        result = v;
        answered = answered;
        bounded = bounded;
        held = held;
        named =
            opa_outcome_lem _ x named
            ∙ ap (λ y. some (str (outcome_value y))) (sym (opa_details_lem o v x d e''));
      }
