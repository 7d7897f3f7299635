-- ===== src/Refunds/Policy.antt =====
-- `RefundPolicy` of refund_ops.py.
use agent_trust_ops.Prelude.{
  String, Bool, true, not, ◌&&◌, ◌||◌, Option, none, some, List, [], ◌∷◌, ◌==◌, ◌<>◌, shares,
  if◌then◌else◌,
}
use agent_trust_ops.Errors.{Error, Result, ok, err, is_type_or_value_error, ◌>>=◌}
use agent_trust_ops.Json.{
  Json, boolean, number, str, arr, obj, Items, nil, cons, end, object, get_field, Platform,
}
use agent_trust_ops.Models.{
  PolicyOutcome, allow, deny, approval_required, PolicyDecision, policy_decision, ActionContext,
}
use agent_trust_ops.Ledger.Table
use agent_trust_ops.Auth.{all_in}
use agent_trust_ops.Refunds.{
  Float, plus, below, at_most, Builtins, is_true, Order, RefundPolicyVersion, policy_versions,
}
use agent_trust_ops.Refunds.Config.{RefundPolicy, setting, text_set, select_policy, default_roles}

version_items : Builtins → List RefundPolicyVersion → Items
version_items b [] = nil
version_items b (v ∷ l) =
    cons
      (obj (
        object (
          ("version", str v.version)
          ∷ ("effective_from", str (b.date_text v.effective_from))
          ∷ ("auto_approve_limit", number (b.real_text v.auto_approve_limit))
          ∷ [])))
      (version_items b l)

-- The facts that a decision shows.
unfoldable pub facts_of : Builtins → Order → RefundPolicyVersion → Json
facts_of b o v = obj (
    object (
      ("order_date", str (b.date_text o.ordered_at))
      ∷ ("selected_policy", str v.version)
      ∷ ("auto_approve_limit", number (b.real_text v.auto_approve_limit))
      ∷ []))

-- `str(arguments.get("order_id", ""))`
abbrev pub shown_text : Builtins → Json → String
shown_text b (str s) = s
shown_text b v = b.text_of v

unfoldable pub order_id_of : Builtins → Json → String
unfolding setting
order_id_of b arguments = shown_text b (setting "order_id" (str "") arguments)

-- `self.config.get("enforce_roles", True) and not (allowed_roles & set(context.roles))`
unfoldable pub lacks_role : Builtins → RefundPolicy → List String → ActionContext → Bool
unfolding setting
lacks_role b policy allowed_roles c =
    is_true b (setting "enforce_roles" (boolean true) policy.config)
    && not (shares allowed_roles c.roles)

unfoldable pub lacks_evidence : Builtins → RefundPolicy → String → ActionContext → Bool
unfolding setting
lacks_evidence b policy order_id c =
    is_true b (setting "require_evidence" (boolean true) policy.config)
    && not (all_in (("ORDER:" <> order_id) ∷ ("LOGISTICS:" <> order_id) ∷ []) c.evidence)

unfoldable pub needs_approval : Builtins → RefundPolicy → Float → RefundPolicyVersion → Bool
unfolding setting
needs_approval b policy amount v =
    is_true b (setting "approval_enabled" (boolean true) policy.config)
    && below v.auto_approve_limit amount

unfoldable pub is_ineligible : Float → Order → Bool
is_ineligible amount o = at_most amount (plus 0) || below o.total amount

-- `float(arguments["amount"])`
abbrev pub amount_of : Builtins → Option Json → Result Float
amount_of b none = err (Error.key_error "amount")
amount_of b (some v) = b.float_of v

-- `except (KeyError, TypeError, ValueError)`
abbrev pub is_caught : Error → Bool
is_caught (Error.key_error m) = true
is_caught e = is_type_or_value_error e

module _ ⦃p : Platform⦄ where
  -- `RefundPolicy.__init__`: the configuration is a copy by way of its JSON text.
  unfoldable pub refund_policy : Builtins → Table.Table Order → Json → Result RefundPolicy
  unfolding version_items
  refund_policy b orders config = do
    copy ← p.dumps config
    encoded ← p.dumps (
        obj (
          object
            (("config", p.loads copy) ∷ ("versions", arr (version_items b policy_versions)) ∷ [])))
    ok (record {
      orders = orders;
      config = p.loads copy;
      versions = policy_versions;
      policy_digest = "sha256:" <> p.sha256 encoded;
    })

  -- A decision with the digest of the policy.
  unfoldable pub decided :
      RefundPolicy → PolicyOutcome → String → String → Json → Result PolicyDecision
  decided policy outcome reason version facts = policy_decision (record {
    outcome = outcome;
    reason = reason;
    policy_version = version;
    facts = facts;
    policy_digest = some policy.policy_digest;
  })

  -- The part of `evaluate` with an amount.
  unfoldable pub evaluate_amount :
      Builtins → RefundPolicy → Order → RefundPolicyVersion → Float → Result PolicyDecision
  unfolding is_ineligible needs_approval facts_of
  evaluate_amount b policy o v amount =
      if is_ineligible amount o
      then decided policy deny "refund amount exceeds the eligible order total" v.version
          (facts_of b o v)
      else (if needs_approval b policy amount v
          then decided policy approval_required
              ("amount exceeds " <> (b.money_text v.auto_approve_limit <> " approval threshold"))
              v.version (facts_of b o v)
          else decided policy allow "policy, identity, evidence, and amount checks passed" v.version
              (facts_of b o v))

  unfoldable pub evaluate_parsed :
      Builtins → RefundPolicy → Order → RefundPolicyVersion → Result Float → Result PolicyDecision
  unfolding evaluate_amount facts_of
  evaluate_parsed b policy o v (ok amount) = evaluate_amount b policy o v amount
  evaluate_parsed b policy o v (err e) =
      if is_caught e
      then decided policy deny "refund amount is invalid" v.version (facts_of b o v)
      else err e

  -- The part of `evaluate` in the tenant of the order, with the allowed roles.
  unfoldable pub evaluate_roles :
      Builtins
      → RefundPolicy
      → Order
      → RefundPolicyVersion
      → String
      → Json
      → ActionContext
      → List String
      → Result PolicyDecision
  unfolding evaluate_parsed lacks_role lacks_evidence facts_of
  evaluate_roles b policy o v order_id arguments c allowed_roles =
      if lacks_role b policy allowed_roles c
      then decided policy deny "actor role is not allowed" v.version (facts_of b o v)
      else (if lacks_evidence b policy order_id c
          then decided policy deny "required order and logistics evidence is incomplete" v.version
              (facts_of b o v)
          else evaluate_parsed b policy o v (amount_of b (get_field "amount" arguments)))

  unfoldable pub evaluate_version :
      Builtins
      → RefundPolicy
      → Order
      → String
      → Json
      → ActionContext
      → RefundPolicyVersion
      → Result PolicyDecision
  unfolding evaluate_roles text_set setting facts_of
  evaluate_version b policy o order_id arguments c v =
      if o.tenant_id == c.tenant_id
      then (text_set (setting "allowed_roles" default_roles policy.config) >>= λ allowed.
          evaluate_roles b policy o v order_id arguments c allowed)
      else decided policy deny "order is outside the tenant boundary" v.version (facts_of b o v)

  unfoldable pub evaluate_order :
      Builtins → RefundPolicy → String → Json → ActionContext → Option Order → Result PolicyDecision
  unfolding evaluate_version select_policy
  evaluate_order b policy order_id arguments c none =
      decided policy deny "order does not exist" "unresolved" (obj end)
  evaluate_order b policy order_id arguments c (some o) =
      select_policy policy o.ordered_at >>= λ v. evaluate_version b policy o order_id arguments c v

  -- `RefundPolicy.evaluate`
  unfoldable pub evaluate :
      Builtins → RefundPolicy → String → Json → ActionContext → Result PolicyDecision
  unfolding evaluate_order order_id_of
  evaluate b policy action_name arguments c =
      evaluate_order b policy (order_id_of b arguments) arguments c (
        if action_name == "execute_refund"
        then Table.get (order_id_of b arguments) policy.orders
        else none)
