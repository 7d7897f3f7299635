-- ===== src/Refunds/NotNumber.antt =====
-- `RefundPolicy.evaluate` of refund_ops.py where the conditions of a refund hold, and on NaN.
use agent_trust_ops.Prelude.{String, ◌≡◌, refl, Bool, true, false, ◌&&◌, some, eq_iff, List}
use agent_trust_ops.Errors.{ok}
use agent_trust_ops.Json.{Json, get_field, Platform}
use agent_trust_ops.Models.{allow, ActionContext}
use agent_trust_ops.Ledger.Table
use agent_trust_ops.Refunds.{
  Float, nan, plus, minus, minus_infinity, plus_infinity, below, at_most, equals, Builtins, Order,
  RefundPolicyVersion,
}
use agent_trust_ops.Refunds.Config.{RefundPolicy, setting, text_set, default_roles, select_policy}
use agent_trust_ops.Refunds.Policy.{
  facts_of, order_id_of, lacks_role, lacks_evidence, needs_approval, is_ineligible, decided,
  evaluate_amount, evaluate_parsed, evaluate_roles, evaluate_version, evaluate_order, evaluate,
}
use agent_trust_ops.Refunds.Eligibility.{IsEligible}

module _ ⦃p : Platform⦄ where
  -- The converse: such a refund is allowed.
  evaluate_eligible :
      (b : Builtins) (policy : RefundPolicy) (name : String) (arguments : Json) (c : ActionContext)
      (e : IsEligible b policy name arguments c)
      → evaluate b policy name arguments c
        ≡ decided policy allow "policy, identity, evidence, and amount checks passed"
            e.version.version
            (facts_of b e.order e.version)
  unfolding evaluate evaluate_order evaluate_version evaluate_roles evaluate_parsed evaluate_amount
      is_ineligible
  evaluate_eligible b policy name arguments c e =
      let action = (eq_iff name "execute_refund").1 e.action in
      let tenant = (eq_iff e.order.tenant_id c.tenant_id).1 e.tenant in
      rw
        (
          action, e.found, e.selected, tenant, e.configured, e.role, e.evidence, e.given, e.parsed,
          e.positive, e.covered, e.small,
        )
        refl

below_nan : (x : Float) → below x nan ≡ false
unfolding below
below_nan nan = refl
below_nan minus_infinity = refl
below_nan plus_infinity = refl
below_nan (minus n) = refl
below_nan (plus n) = refl

and_false : (t : Bool) → (t && false) ≡ false
and_false true = refl
and_false false = refl

needs_nan :
    (b : Builtins) (policy : RefundPolicy) (v : RefundPolicyVersion)
    → needs_approval b policy nan v ≡ false
unfolding needs_approval
needs_nan b policy v = rw (below_nan v.auto_approve_limit) (and_false _)

module _ ⦃p : Platform⦄ where
  -- Where the other conditions of a refund hold, an amount that Python reads as NaN is allowed for
  -- every order and under every limit.
  pub evaluate_nan :
      (b : Builtins) (policy : RefundPolicy) (arguments asked : Json) (c : ActionContext)
      (o : Order) (v : RefundPolicyVersion) (allowed : List String)
      → Table.get (order_id_of b arguments) policy.orders ≡ some o
      → select_policy policy o.ordered_at ≡ ok v
      → o.tenant_id ≡ c.tenant_id
      → text_set (setting "allowed_roles" default_roles policy.config) ≡ ok allowed
      → lacks_role b policy allowed c ≡ false
      → lacks_evidence b policy (order_id_of b arguments) c ≡ false
      → get_field "amount" arguments ≡ some asked
      → b.float_of asked ≡ ok nan
      → evaluate b policy "execute_refund" arguments c
        ≡ decided policy allow "policy, identity, evidence, and amount checks passed" v.version
            (facts_of b o v)
  unfolding at_most below equals
  evaluate_nan b policy arguments asked c o v allowed found selected tenant configured role evidence
        given parsed =
      evaluate_eligible b policy "execute_refund" arguments c (record {
        order = o;
        version = v;
        allowed_roles = allowed;
        asked = asked;
        amount = nan;
        action = refl;
        found = found;
        selected = selected;
        tenant = tenant;
        configured = configured;
        role = role;
        evidence = evidence;
        given = given;
        parsed = parsed;
        positive = refl;
        covered = below_nan o.total;
        small = needs_nan b policy v;
      })
