-- ===== src/Ledger/Trace/Reconciliation.antt =====
-- `reconcile_run` and `apply_provider_observation` of ledger.py, as traces.
use agent_trust_ops.Prelude.{ℕ, String, ◌≡◌, refl, Bool, true, false, ◌||◌, Option, none, some}
use agent_trust_ops.Json.{Json, Platform}
use agent_trust_ops.Models.{ActionStatus, unknown, completed, failed, is_status, VerifiedPrincipal}
use agent_trust_ops.Ledger.Store.{Run, pure}
use agent_trust_ops.Ledger.Keeps.{Keeps, Keeps-bind, Keeps-if, Keeps-checked}
use agent_trust_ops.Ledger.Reconcile.{
  Observation, matches_outcome, note_reconciled, reconcile_found, reconcile_run, settle_observed,
  observe_unknown, observe_found, apply_provider_observation,
}
use agent_trust_ops.Ledger.Machine.{Step, reconciles_completed, reconciles_failed}
use agent_trust_ops.Ledger.Trace.{Change, reconciled, Trace, Trace-IsPreorder}
use agent_trust_ops.Ledger.Trace.Rules.{trace_rules}

reconcile :
    (s : ActionStatus) (why : String) (result : Option String) (t : ℕ) (r : Run)
    → Step unknown s
    → is_status r.status unknown ≡ true
    → Change r (record r { status = s; reason = some why; result_json = result; updated_at = t })
reconcile s why result t r st h = reconciled s why result t st h refl

reconcilable :
    (s : ActionStatus) → (is_status s completed || is_status s failed) ≡ true → Step unknown s
reconcilable completed h = reconciles_completed
reconcilable failed h = reconciles_failed
reconcilable _ h = cc

observable :
    (outcome : String) (s : ActionStatus) → matches_outcome outcome (some s) ≡ true → Step unknown s
unfolding matches_outcome
observable outcome completed h = reconciles_completed
observable outcome failed h = reconciles_failed
observable outcome _ h = cc

-- What the check of `apply_provider_observation` says of the status.
abbrev IsDefinite : Option ActionStatus → Type 0
IsDefinite none = Unit
IsDefinite (some s) = Step unknown s

matched-IsDefinite :
    (outcome : String) (o : Option ActionStatus) → matches_outcome outcome o ≡ true → IsDefinite o
matched-IsDefinite outcome none h = tt
matched-IsDefinite outcome (some s) h = observable outcome s h

module _ ⦃p : Platform⦄ where
  note_reconciled-Trace :
      (b : Bool) (k : String) (s : ActionStatus) (why : String) (v : VerifiedPrincipal)
      → Keeps Trace (note_reconciled b k s why v)
  unfolding note_reconciled
  note_reconciled-Trace false k s why v = search trace_rules
  note_reconciled-Trace true k s why v = search trace_rules depth 8

  reconcile_found-Trace :
      (o : Option Run) (k : String) (s : ActionStatus) (why : String) (result : Option String)
      (v : VerifiedPrincipal)
      → Step unknown s
      → Keeps Trace (reconcile_found o k s why result v)
  unfolding reconcile_found
  reconcile_found-Trace none k s why result v st = search trace_rules
  reconcile_found-Trace (some r) k s why result v st =
      search (trace_rules, note_reconciled-Trace, reconcile) depth 12

  pub reconcile_run-Trace :
      (k : String) (s : ActionStatus) (why : String) (v : Json) (u : VerifiedPrincipal)
      → Keeps Trace (reconcile_run k s why v u)
  unfolding reconcile_run
  reconcile_run-Trace k s why v u =
      Keeps-checked Trace-IsPreorder _ _ _
        (λ h. let st = reconcilable s h in search (trace_rules, reconcile_found-Trace, st) depth 12)

  settle_observed-Trace :
      (o : Option ActionStatus) (k : String) (ob : Observation) (result : Option String)
      (v : VerifiedPrincipal)
      → IsDefinite o
      → Keeps Trace (settle_observed o k ob result v)
  unfolding settle_observed
  settle_observed-Trace none k ob result v d = search trace_rules
  settle_observed-Trace (some s) k ob result v d = search (trace_rules, reconcile) depth 12

  observe_unknown-Trace :
      (k : String) (ob : Observation) (result : Option String) (v : VerifiedPrincipal)
      → IsDefinite ob.status
      → Keeps Trace (observe_unknown k ob result v)
  unfolding observe_unknown
  observe_unknown-Trace k ob result v d =
      Keeps-bind Trace-IsPreorder _ _ (search trace_rules)
        (λ _. settle_observed-Trace ob.status k ob result v d)

  observe_found-Trace :
      (o : Option Run) (k : String) (ob : Observation) (result : Option String)
      (v : VerifiedPrincipal)
      → IsDefinite ob.status
      → Keeps Trace (observe_found o k ob result v)
  unfolding observe_found
  observe_found-Trace none k ob result v d = search trace_rules
  observe_found-Trace (some r) k ob result v d =
      Keeps-bind Trace-IsPreorder _ _ (search trace_rules) (λ _.
        Keeps-if (is_status r.status unknown) (observe_unknown k ob result v) (pure false)
          (observe_unknown-Trace k ob result v d) (search trace_rules))

  pub apply_provider_observation-Trace :
      (k : String) (ob : Observation) (v : VerifiedPrincipal)
      → Keeps Trace (apply_provider_observation k ob v)
  unfolding apply_provider_observation
  apply_provider_observation-Trace k ob v = Keeps-checked Trace-IsPreorder _ _ _ (λ h.
      let d = matched-IsDefinite ob.outcome ob.status h in
      search (trace_rules, observe_found-Trace, d) depth 16)
