-- ===== src/Tests/Refunds.antt =====
-- Refunds of one order under one policy, and a release that is evaluated.
use agent_trust_ops.Prelude.{
  ◌≤◌, ◌||◌, ◌⊎◌, ◌≡◌, refl, none, some, [], ◌∷◌, ◌==◌, select, strip, contains, shares,
  if◌then◌else◌,
}
use agent_trust_ops.Errors.{Result, ok, err, type_error, value_error}
use agent_trust_ops.Json.{Json, null, nat, str, obj, object, end, get_field}
use agent_trust_ops.Models.{
  allow, deny, PolicyDecision, policy_decision, ActionContext, json_object_copy,
}
use agent_trust_ops.Ledger.Table
use agent_trust_ops.Auth.{all_in}
use agent_trust_ops.Refunds.{
  Date, date_leb, Float, nan, plus, below, equals, at_most, Builtins, is_true, Order,
  RefundPolicyVersion,
}
use agent_trust_ops.Refunds.Config.{
  RefundPolicy, setting, text_set, last_of, last_version, selects_latest, select_policy,
}
use agent_trust_ops.Refunds.Policy.{
  facts_of, order_id_of, lacks_role, lacks_evidence, needs_approval, is_ineligible, decided,
  evaluate_amount, evaluate_parsed, evaluate_roles, evaluate_version, evaluate_order, evaluate,
}
use agent_trust_ops.Refunds.Amounts.{IsWithin}
use agent_trust_ops.Refunds.Eligibility.{IsEligible, evaluate-IsEligible}
use agent_trust_ops.Refunds.NotNumber.{evaluate_nan}
use agent_trust_ops.Refunds.Selection.{IsLast, select_policy-IsLast}
use agent_trust_ops.Refunds.Store.{
  real, text, empty_store, count_refunds, execute_each, execute_each_once,
}
use agent_trust_ops.Tests.Platform.{test_platform, dump}

abbrev read_float : Json → Result Float
read_float (nat n) = ok (plus n)
read_float (str s) = if s == "nan" then ok nan else err (value_error "no number")
read_float _ = err (type_error "no number")

abbrev pub builtins : Builtins
builtins = record {
  float_of = read_float;
  text_of = λ v. "";
  real_text = λ x. "0.0";
  money_text = λ x. "0.00";
  date_text = λ d. "2026-05-20";
}

abbrev may : Date
may = record { year = 2026; month = 5; day = 20 }

abbrev early : RefundPolicyVersion
early = record {
  version = "refund-v2026-01";
  effective_from = record { year = 2026; month = 1; day = 1 };
  auto_approve_limit = plus 500;
}

abbrev late : RefundPolicyVersion
late = record {
  version = "refund-v2026-07";
  effective_from = record { year = 2026; month = 7; day = 1 };
  auto_approve_limit = plus 300;
}

abbrev order : Order
order = record { order_id = "O-HIST"; tenant_id = "default"; ordered_at = may; total = plus 400 }

abbrev policy : RefundPolicy
policy = record {
  orders = record { entries = ("O-HIST", order) ∷ [] };
  config = obj end;
  versions = early ∷ late ∷ [];
  policy_digest = "sha256:1";
}

abbrev clerk : ActionContext
clerk = record {
  actor_id = "agent";
  tenant_id = "default";
  roles = "refund_agent" ∷ [];
  evidence = "LOGISTICS:O-HIST" ∷ "ORDER:O-HIST" ∷ [];
  metadata = obj end;
}

abbrev asking : Json → Json
asking amount = obj (object (("order_id", str "O-HIST") ∷ ("amount", amount) ∷ []))

early_selected : select_policy policy may ≡ ok early
unfolding select_policy selects_latest setting get_field last_version last_of select date_leb
early_selected = refl

select_policy-IsLast_example :
    IsLast (λ u. selects_latest policy || date_leb u.effective_from may) policy.versions early
select_policy-IsLast_example = select_policy-IsLast policy may early early_selected

abbrev decision_in : Result PolicyDecision → PolicyDecision
decision_in (ok d) = d
decision_in (err e) = record {
  outcome = deny;
  reason = "";
  policy_version = "";
  facts = null;
  policy_digest = none;
}

abbrev decision : PolicyDecision
decision = decision_in (evaluate builtins policy "execute_refund" (asking (nat 250)) clerk)

refund_decided : evaluate builtins policy "execute_refund" (asking (nat 250)) clerk ≡ ok decision
unfolding evaluate evaluate_order evaluate_version evaluate_roles evaluate_parsed evaluate_amount
    order_id_of lacks_role lacks_evidence needs_approval is_ineligible decided policy_decision
    facts_of select_policy selects_latest setting get_field last_version last_of select date_leb
    text_set shares contains all_in is_true at_most below equals Table.get Table.lookup strip dump
    json_object_copy
refund_decided = refl

refund_allowed : decision.outcome ≡ allow
unfolding evaluate evaluate_order evaluate_version evaluate_roles evaluate_parsed evaluate_amount
    order_id_of lacks_role lacks_evidence needs_approval is_ineligible decided policy_decision
    facts_of select_policy selects_latest setting get_field last_version last_of select date_leb
    text_set shares contains all_in is_true at_most below equals Table.get Table.lookup strip dump
    json_object_copy
refund_allowed = refl

evaluate-IsEligible_example :
    (e : IsEligible builtins policy "execute_refund" (asking (nat 250)) clerk) × ((e.amount ≡ nan)
      ⊎ IsWithin builtins policy e.order e.version e.amount)
evaluate-IsEligible_example =
    evaluate-IsEligible builtins policy "execute_refund" (asking (nat 250)) clerk decision
      refund_decided refund_allowed

evaluate_nan_example :
    evaluate builtins policy "execute_refund" (asking (str "nan")) clerk
    ≡ decided policy allow "policy, identity, evidence, and amount checks passed" "refund-v2026-01"
        (facts_of builtins order early)
unfolding order_id_of setting get_field text_set Table.get Table.lookup lacks_role lacks_evidence
    is_true shares contains all_in
evaluate_nan_example =
    evaluate_nan builtins policy (asking (str "nan")) (str "nan") clerk order early
      ("refund_agent" ∷ "refund_admin" ∷ []) refl early_selected refl refl refl refl refl refl

execute_each_once_example :
    count_refunds (some "O-LOW") (
      execute_each
        (("O-LOW", real (plus 5)) ∷ ("O-HIGH", text "nan") ∷ ("O-LOW", real (plus 7)) ∷ [])
        empty_store)
    ≤ 1
execute_each_once_example =
    execute_each_once
      (("O-LOW", real (plus 5)) ∷ ("O-HIGH", text "nan") ∷ ("O-LOW", real (plus 7)) ∷ []) "O-LOW"
