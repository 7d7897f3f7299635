-- ===== src/Runtime/Review.antt =====
-- `approve`, `reject`, `reconcile` and `reconcile_from_provider` of runtime.py.
use agent_trust_ops.Prelude.{
  String, Bool, true, false, not, Option, none, some, List, ◌∷◌, [], ◌++◌, strip, is_empty, ◌==◌,
  shares, if◌then◌else◌,
}
use agent_trust_ops.Errors.{Result, ok, err, value_error, key_error, approval_denied, require}
use agent_trust_ops.Errors
use agent_trust_ops.Json.{Json, null, str, obj, object, Platform, is_null}
use agent_trust_ops.Models.{
  ActionStatus, unknown, completed, failed, approval_expired, is_status, status_value,
  VerifiedPrincipal, ActionResult,
}
use agent_trust_ops.Providers.{
  ProviderOutcome, committed, not_committed, pending, provider_outcome_value, ProviderLookup,
  ProviderObservation, ProviderProbe, validate_provider_name, provider_lookup,
}
use agent_trust_ops.Ledger.Store.{Run, M, pure, lift, ◌>>=◌, ◌>>◌, select_run}
use agent_trust_ops.Ledger.Approvals.{decide_approval}
use agent_trust_ops.Ledger.Reconcile.{Observation, reconcile_run, apply_provider_observation}
use agent_trust_ops.Runtime.Action.{TrustedAction, current_result}

-- Why a decision had no effect.
unfoldable pub undecided : Option Run → Result (Unit {0})
undecided none = err (value_error "run is not waiting for approval")
undecided (some r) =
    Errors.◌>>◌
      (require (not (is_status r.status approval_expired))
        (approval_denied "approval request has expired"))
      (err (value_error "run is not waiting for approval"))

abbrev note_error : Bool → String
note_error true = "approval note is required"
note_error false = "rejection note is required"

-- `ActionStatus(outcome)` of an outcome that `reconcile` admits.
abbrev pub reconciled_status : String → Result ActionStatus
reconciled_status outcome =
    if outcome == status_value completed
    then ok completed
    else (if outcome == status_value failed
        then ok failed
        else err (value_error "outcome must be 'completed' or 'failed'"))

-- The status that an observation settles, if any.
unfoldable pub observed_status : ProviderOutcome → Option ActionStatus
observed_status committed = some completed
observed_status not_committed = some failed
observed_status pending = none

reference_field : Option String → List (String × Json)
reference_field none = []
reference_field (some t) = ("provider_reference", str t) ∷ []

safe_field : Bool → Json → List (String × Json)
safe_field true v = []
safe_field false v = ("safe_result", v) ∷ []

-- `None if status is None else result`
unfoldable pub observed_result : String → ProviderObservation → Option ActionStatus → Json
unfolding reference_field safe_field
observed_result provider o none = null
observed_result provider o (some status) = obj (
    object (
      ("provider", str provider)
      ∷ (reference_field o.reference ++ safe_field (is_null o.safe_result) o.safe_result)))

-- The arguments of `apply_provider_observation`.
unfoldable pub observation_of : String → ProviderObservation → Observation
unfolding observed_status observed_result
observation_of provider o = record {
  provider = provider;
  outcome = provider_outcome_value o.outcome;
  summary = o.summary;
  reference = o.reference;
  status = observed_status o.outcome;
  result = observed_result provider o (observed_status o.outcome);
}

-- The checks that `reconcile` and `_load_reconcilable_run` make of the run.
unfoldable pub check_reconcilable : TrustedAction → VerifiedPrincipal → Option Run → Result Run
check_reconcilable a v none = err (key_error "run not found")
check_reconcilable a v (some r) =
    Errors.◌>>◌
      (require (r.action_name == a.name) (value_error "run belongs to a different action"))
      (Errors.◌>>◌
        (require (r.tenant_id == v.tenant_id)
          (approval_denied "reconciliation operator belongs to a different tenant"))
        (ok r))

module _ ⦃p : Platform⦄ where
  unfoldable pub settle_decision : String → Bool → M (Unit {0})
  settle_decision run_id true = pure tt
  settle_decision run_id false = do run ← select_run run_id; lift (undecided run)

  -- `approve` and `reject`
  unfoldable pub review :
      Bool → TrustedAction → String → VerifiedPrincipal → String → M ActionResult
  unfolding undecided settle_decision
  review approves a run_id v note = do
    lift (require (not (is_empty (strip note))) (value_error (note_error approves)))
    changed ← decide_approval run_id (record {
      approves = approves;
      principal = v;
      note = strip note;
      required_roles = a.approval_roles;
      allow_self_approval = a.allow_self_approval;
    })
    settle_decision run_id changed
    current_result run_id false

  unfoldable pub approve : TrustedAction → String → VerifiedPrincipal → String → M ActionResult
  unfolding review
  approve = review true

  unfoldable pub reject : TrustedAction → String → VerifiedPrincipal → String → M ActionResult
  unfolding review
  reject = review false

  unfoldable pub reconcile :
      TrustedAction → String → String → VerifiedPrincipal → String → Json → M ActionResult
  unfolding check_reconcilable
  reconcile a run_id outcome v note value = do
    status ← lift (reconciled_status outcome)
    lift (require (not (is_empty (strip note))) (value_error "reconciliation note is required"))
    lift (
        require (shares a.reconciliation_roles v.roles)
          (approval_denied "principal lacks a required reconciliation role"))
    run ← select_run run_id
    r ← lift (check_reconcilable a v run)
    changed ← reconcile_run run_id status (strip note) value v
    lift (require changed (value_error "run is not waiting for reconciliation"))
    current_result run_id false

  unfoldable pub load_reconcilable_run : TrustedAction → String → VerifiedPrincipal → M Run
  unfolding check_reconcilable
  load_reconcilable_run a run_id v = do
    lift (
        require (shares a.reconciliation_roles v.roles)
          (approval_denied "principal lacks a required reconciliation role"))
    run ← select_run run_id
    r ← lift (check_reconcilable a v run)
    lift
        (require (is_status r.status unknown) (value_error "run is not waiting for reconciliation"))
    pure r

  -- The lookup that a stored run yields.
  unfoldable pub lookup_of : TrustedAction → String → Run → ProviderLookup
  lookup_of a run_id r = record {
    run_id = run_id;
    action_name = a.name;
    tenant_id = r.tenant_id;
    idempotency_key = r.idempotency_key;
    arguments = p.loads r.arguments_json;
    created_at = some (p.isoformat r.created_at);
  }

  unfoldable pub reconcile_from_provider :
      TrustedAction → String → ProviderProbe → VerifiedPrincipal → M ActionResult
  unfolding load_reconcilable_run lookup_of observation_of
  reconcile_from_provider a run_id probe v = do
    r ← load_reconcilable_run a run_id v
    provider ← lift (validate_provider_name probe.name)
    lookup ← lift (provider_lookup (lookup_of a run_id r))
    observation ← lift (probe.lookup lookup)
    applied ← apply_provider_observation run_id (observation_of provider observation) v
    current_result run_id (not applied)
