-- ===== src/Ledger/Trace/Methods.antt =====
-- `create_or_get_run`, `record_duplicate` and `record_policy_decision` of ledger.py, as traces.
use agent_trust_ops.Prelude.{ℕ, ◌+◌, String, ◌≡◌, refl, Bool, true, Option, none, some}
use agent_trust_ops.Json.{Platform}
use agent_trust_ops.Models.{
  created, is_status, PolicyOutcome, allow, deny, approval_required, PolicyDecision,
}
use agent_trust_ops.Ledger.Store.{Run}
use agent_trust_ops.Ledger.Keeps.{Keeps}
use agent_trust_ops.Ledger.Runs.{
  NewRun, new_row, settle_created, create_or_get_run, record_duplicate, next_status, after_decision,
  decide_run, record_policy_decision,
}
use agent_trust_ops.Ledger.Trace.{Change, counted, decided, IsNew, Trace}
use agent_trust_ops.Ledger.Trace.Rules.{trace_rules}

new_row-IsNew : (n : NewRun) (a r e m : String) (t : ℕ) → IsNew (new_row n a r e m t)
new_row-IsNew n a r e m t = record {
  status = refl;
  policy_version = refl;
  execution_owner = refl;
  lease_expires_at = refl;
  attempt = refl;
  event_count = refl;
  event_head_hash = refl;
}

count_duplicate : (r : Run) → Change r (record r { duplicate_count = r.duplicate_count + 1 })
count_duplicate r = counted refl

decide_created :
    (d : PolicyDecision) (g : String) (t : ℕ) (r : Run)
    → is_status r.status created ≡ true
    → Change r (record r {
      status = next_status d.outcome;
      policy_version = some d.policy_version;
      policy_digest = some g;
      reason = some d.reason;
      updated_at = t;
    })
decide_created d g t r h = decided d.outcome d.policy_version g d.reason t h refl

module _ ⦃p : Platform⦄ where
  settle_created-Trace :
      (n : NewRun) (t : ℕ) (b : Bool) (o : Option Run) → Keeps Trace (settle_created n t b o)
  unfolding settle_created
  settle_created-Trace n t b none = search trace_rules
  settle_created-Trace n t b (some r) = search trace_rules depth 12

  pub create_or_get_run-Trace : (n : NewRun) → Keeps Trace (create_or_get_run n)
  unfolding create_or_get_run
  create_or_get_run-Trace n = search (trace_rules, settle_created-Trace, new_row-IsNew) depth 20

  pub record_duplicate-Trace : (k : String) → Keeps Trace (record_duplicate k)
  unfolding record_duplicate
  record_duplicate-Trace k = search (trace_rules, count_duplicate) depth 10

  after_decision-Trace :
      (o : PolicyOutcome) (k : String) (r : Run) (d : PolicyDecision) (g : String) (s e : ℕ)
      → Keeps Trace (after_decision o k r d g s e)
  unfolding after_decision
  after_decision-Trace allow k r d g s e = search trace_rules
  after_decision-Trace deny k r d g s e = search trace_rules
  after_decision-Trace approval_required k r d g s e = search trace_rules

  decide_run-Trace :
      (o : Option Run) (k : String) (d : PolicyDecision) (g : String) (s e : ℕ)
      → Keeps Trace (decide_run o k d g s e)
  unfolding decide_run
  decide_run-Trace none k d g s e = search trace_rules
  decide_run-Trace (some r) k d g s e =
      search (trace_rules, decide_created, after_decision-Trace) depth 12

  pub record_policy_decision-Trace :
      (k : String) (d : PolicyDecision) (ttl : ℕ) → Keeps Trace (record_policy_decision k d ttl)
  unfolding record_policy_decision
  record_policy_decision-Trace k d ttl = search (trace_rules, decide_run-Trace) depth 16
