-- ===== src/Refunds/Eligibility.antt =====
-- What `RefundPolicy.evaluate` of refund_ops.py allows.
use agent_trust_ops.Prelude.{
  String, ◌≡◌, refl, Bool, true, false, ◌||◌, ◌⊎◌, Option, none, some, ◌==◌, eq_iff, inl, inr, List,
  Bool-cases, if◌then◌else◌,
}
use agent_trust_ops.Errors.{Result, ok, err, returned_first}
use agent_trust_ops.Json.{Json, get_field, Platform}
use agent_trust_ops.Models.{
  PolicyOutcome, allow, PolicyDecision, policy_decision_outcome, ActionContext,
}
use agent_trust_ops.Ledger.Table
use agent_trust_ops.Refunds.{Float, nan, plus, below, at_most, Builtins, Order, RefundPolicyVersion}
use agent_trust_ops.Refunds.Config.{RefundPolicy, setting, text_set, default_roles, select_policy}
use agent_trust_ops.Refunds.Policy.{
  order_id_of, lacks_role, lacks_evidence, needs_approval, is_ineligible, is_caught, amount_of,
  decided, evaluate_amount, evaluate_parsed, evaluate_roles, evaluate_version, evaluate_order,
  evaluate,
}
use agent_trust_ops.Refunds.Amounts.{IsWithin, eligible_amount}

-- What stands behind an allowed refund.
pub record IsEligible (b : Builtins) (policy : RefundPolicy) (name : String) (arguments : Json)
    (c : ActionContext) : Type 0 where
  pub order : Order
  pub version : RefundPolicyVersion
  pub allowed_roles : List String
  pub asked : Json
  pub amount : Float
  pub action : name ≡ "execute_refund"
  pub found : Table.get (order_id_of b arguments) policy.orders ≡ some order
  pub selected : select_policy policy order.ordered_at ≡ ok version
  pub tenant : order.tenant_id ≡ c.tenant_id
  pub configured : text_set (setting "allowed_roles" default_roles policy.config) ≡ ok allowed_roles
  pub role : lacks_role b policy allowed_roles c ≡ false
  pub evidence : lacks_evidence b policy (order_id_of b arguments) c ≡ false
  pub given : get_field "amount" arguments ≡ some asked
  pub parsed : b.float_of asked ≡ ok amount
  pub positive : at_most amount (plus 0) ≡ false
  pub covered : below order.total amount ≡ false
  pub small : needs_approval b policy amount version ≡ false

-- The two bounds of an amount.
or_false : (a b : Bool) → (a || b) ≡ false → (a ≡ false) × (b ≡ false)
or_false false false h = (refl, refl)
or_false false true h = cc h
or_false true b h = cc h

module _ ⦃p : Platform⦄ where
  decided_outcome :
      (policy : RefundPolicy) (o : PolicyOutcome) (reason version : String) (facts : Json)
      (d : PolicyDecision)
      → decided policy o reason version facts ≡ ok d
      → d.outcome ≡ o
  unfolding decided
  decided_outcome policy o reason version facts d h = policy_decision_outcome _ d h

  evaluate_amount_allows :
      (b : Builtins) (policy : RefundPolicy) (o : Order) (v : RefundPolicyVersion) (amount : Float)
      (d : PolicyDecision)
      → evaluate_amount b policy o v amount ≡ ok d
      → d.outcome ≡ allow
      → (is_ineligible amount o ≡ false) × (needs_approval b policy amount v ≡ false)
  unfolding evaluate_amount
  evaluate_amount_allows b policy o v amount d h a = elim (Bool-cases (is_ineligible amount o)) [
    | inl bad ↦ let e = decided_outcome _ _ _ _ _ d (rw bad at h) in cc (a, e)
    | inr good ↦ elim (Bool-cases (needs_approval b policy amount v)) [
      | inl big ↦ let e = decided_outcome _ _ _ _ _ d (rw (good, big) at h) in cc (a, e)
      | inr small ↦ (good, small)
    ]
  ]

  evaluate_parsed_allows :
      (b : Builtins) (policy : RefundPolicy) (o : Order) (v : RefundPolicyVersion)
      (r : Result Float) (d : PolicyDecision)
      → evaluate_parsed b policy o v r ≡ ok d
      → d.outcome ≡ allow
      → (amount : Float) × (r ≡ ok amount)
        × (is_ineligible amount o ≡ false)
        × (needs_approval b policy amount v ≡ false)
  unfolding evaluate_parsed
  evaluate_parsed_allows b policy o v (ok amount) d h a =
      let e = evaluate_amount_allows b policy o v amount d h a in (amount, refl, e.0, e.1)
  evaluate_parsed_allows b policy o v (err e) d h a = elim (Bool-cases (is_caught e)) [
    | inl caught ↦ let x = decided_outcome _ _ _ _ _ d (rw caught at h) in cc (a, x)
    | inr other ↦ let x = (rw other at h) in cc x
  ]

  evaluate_roles_allows :
      (b : Builtins) (policy : RefundPolicy) (o : Order) (v : RefundPolicyVersion) (k : String)
      (arguments : Json) (c : ActionContext) (allowed : List String) (d : PolicyDecision)
      → evaluate_roles b policy o v k arguments c allowed ≡ ok d
      → d.outcome ≡ allow
      → (lacks_role b policy allowed c ≡ false)
        × (lacks_evidence b policy k c ≡ false)
        × (evaluate_parsed b policy o v (amount_of b (get_field "amount" arguments)) ≡ ok d)
  unfolding evaluate_roles
  evaluate_roles_allows b policy o v k arguments c allowed d h a =
      elim (Bool-cases (lacks_role b policy allowed c)) [
        | inl bad ↦ let e = decided_outcome _ _ _ _ _ d (rw bad at h) in cc (a, e)
        | inr good ↦ elim (Bool-cases (lacks_evidence b policy k c)) [
          | inl none_shown ↦
              let e = decided_outcome _ _ _ _ _ d (rw (good, none_shown) at h) in cc (a, e)
          | inr shown ↦ (good, shown, rw (good, shown) at h)
        ]
      ]

  amount_given :
      (b : Builtins) (o : Option Json) (amount : Float)
      → amount_of b o ≡ ok amount
      → (v : Json) × (o ≡ some v) × (b.float_of v ≡ ok amount)
  amount_given b none amount h = cc h
  amount_given b (some v) amount h = (v, refl, h)

  found_order :
      (policy : RefundPolicy) (name k : String) (o : Order)
      → (if name == "execute_refund" then Table.get k policy.orders else none) ≡ some o
      → (name ≡ "execute_refund") × (Table.get k policy.orders ≡ some o)
  found_order policy name k o h = elim (Bool-cases (name == "execute_refund")) [
    | inl same ↦ ((eq_iff name "execute_refund").0 same, rw same at h)
    | inr other ↦ let x = (rw other at h) in cc x
  ]

  evaluate_order_allows :
      (b : Builtins) (policy : RefundPolicy) (k : String) (arguments : Json) (c : ActionContext)
      (found : Option Order) (d : PolicyDecision)
      → evaluate_order b policy k arguments c found ≡ ok d
      → d.outcome ≡ allow
      → (o : Order) × (v : RefundPolicyVersion) × (allowed : List String) × (found ≡ some o)
        × (select_policy policy o.ordered_at ≡ ok v)
        × (o.tenant_id ≡ c.tenant_id)
        × (text_set (setting "allowed_roles" default_roles policy.config) ≡ ok allowed)
        × (evaluate_roles b policy o v k arguments c allowed ≡ ok d)
  unfolding evaluate_order evaluate_version
  evaluate_order_allows b policy k arguments c none d h a =
      let e = decided_outcome _ _ _ _ _ d h in cc (a, e)
  evaluate_order_allows b policy k arguments c (some o) d h a =
      let (v, selected, e) = returned_first (select_policy policy o.ordered_at) _ h in
      elim (Bool-cases (o.tenant_id == c.tenant_id)) [
        | inr foreign ↦ let x = decided_outcome _ _ _ _ _ d (rw foreign at e) in cc (a, x)
        | inl own ↦
            let (allowed, configured, e') =
              returned_first (text_set (setting "allowed_roles" default_roles policy.config))
                (λ roles. evaluate_roles b policy o v k arguments c roles) (rw own at e) in
            (o, v, allowed, refl, selected, (eq_iff _ _).0 own, configured, e')
      ]

  -- A refund is allowed only for the action `execute_refund` on an order that exists and is of the
  -- caller's tenant, for a caller with an allowed role and with the evidence, as far as the
  -- configuration asks for them, and for an amount that can be read and that is NaN, or is above
  -- zero, not above the order's total, and, where approvals are on, not above the limit of the
  -- selected version. A total or a limit that is NaN does not bound the amount.
  pub evaluate-IsEligible :
      (b : Builtins) (policy : RefundPolicy) (name : String) (arguments : Json) (c : ActionContext)
      (d : PolicyDecision)
      → evaluate b policy name arguments c ≡ ok d
      → d.outcome ≡ allow
      → (e : IsEligible b policy name arguments c) × ((e.amount ≡ nan)
          ⊎ IsWithin b policy e.order e.version e.amount)
  unfolding evaluate is_ineligible
  evaluate-IsEligible b policy name arguments c d h a =
      let k = order_id_of b arguments in
      let (o, v, allowed, found, selected, tenant, configured, e) =
        evaluate_order_allows b policy k arguments c _ d h a in
      let (action, stored) = found_order policy name k o found in
      let (role, evidence, e') = evaluate_roles_allows b policy o v k arguments c allowed d e a in
      let (amount, read, eligible, small) = evaluate_parsed_allows b policy o v _ d e' a in
      let (asked, given, parsed) = amount_given b _ amount read in
      let (positive, covered) = or_false _ _ eligible in
      let all : IsEligible b policy name arguments c = record {
        order = o;
        version = v;
        allowed_roles = allowed;
        asked = asked;
        amount = amount;
        action = action;
        found = stored;
        selected = selected;
        tenant = tenant;
        configured = configured;
        role = role;
        evidence = evidence;
        given = given;
        parsed = parsed;
        positive = positive;
        covered = covered;
        small = small;
      } in
      (all, eligible_amount b policy o v amount positive covered small)
