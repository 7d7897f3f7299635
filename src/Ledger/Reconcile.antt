-- ===== src/Ledger/Reconcile.antt =====
-- `reconcile_run` and `apply_provider_observation` of ledger.py.
use agent_trust_ops.Prelude.{
  ℕ, String, Bool, true, false, not, ◌&&◌, ◌||◌, Option, none, some, [], ◌∷◌, ◌++◌, ◌==◌, ◌<>◌,
  if◌then◌else◌,
}
use agent_trust_ops.Errors.{
  Error, value_error, key_error, approval_denied, invalid_transition, require,
}
use agent_trust_ops.Json.{Json, str, is_null, Platform}
use agent_trust_ops.Models.{
  ActionStatus, unknown, completed, failed, is_status, status_value, VerifiedPrincipal,
}
use agent_trust_ops.Ledger.Store.{
  Run, M, pure, raise, lift, ◌>>=◌, ◌>>◌, transaction, select_run, update_run, now,
}
use agent_trust_ops.Ledger.Events.{Payload, append_event}
use agent_trust_ops.Ledger.Execution.{json_or_none}

-- The UPDATE of both methods.
abbrev reconciled : ActionStatus → String → Option String → ℕ → Run → Run
reconciled status reason result_json finished r = record r {
  status = status;
  reason = some reason;
  result_json = result_json;
  updated_at = finished;
}

abbrev pub tenant_error : Error
tenant_error = approval_denied "reconciliation operator belongs to a different tenant"

abbrev reconciled_payload : VerifiedPrincipal → ActionStatus → String → Payload
reconciled_payload v status note =
    ("operator_id", str v.actor_id)
    ∷ ("auth_source", str v.auth_source)
    ∷ ("outcome", str (status_value status))
    ∷ ("note", str note)
    ∷ []

-- The arguments of `apply_provider_observation`; `status` is `None` for a pending outcome.
pub record Observation : Type 0 where
  pub provider : String
  pub outcome : String
  pub summary : String
  pub reference : Option String
  pub status : Option ActionStatus
  pub result : Json

-- `status is expected_status[outcome]`, with `outcome in expected_status`.
unfoldable pub matches_outcome : String → Option ActionStatus → Bool
matches_outcome outcome (some completed) = outcome == "committed"
matches_outcome outcome (some failed) = outcome == "not_committed"
matches_outcome outcome none = outcome == "pending"
matches_outcome outcome (some s) = false

abbrev with_reference : Option String → Payload → Payload
with_reference none l = l
with_reference (some t) l = l ++ ("reference", str t) ∷ []

abbrev is_missing : Option ActionStatus → Bool
is_missing none = true
is_missing (some s) = false

module _ ⦃p : Platform⦄ where
  unfoldable pub note_reconciled :
      Bool → String → ActionStatus → String → VerifiedPrincipal → M Bool
  note_reconciled false run_id status reason v = pure false
  note_reconciled true run_id status reason v = do
    append_event run_id "run.reconciled" (reconciled_payload v status reason) none
    pure true

  unfoldable pub reconcile_found :
      Option Run → String → ActionStatus → String → Option String → VerifiedPrincipal → M Bool
  unfolding note_reconciled
  reconcile_found none run_id status reason result_json v = raise (key_error "run not found")
  reconcile_found (some r) run_id status reason result_json v = do
    lift (require (v.tenant_id == r.tenant_id) tenant_error)
    finished ← now
    changed ←
        update_run run_id (λ x. is_status x.status unknown)
          (reconciled status reason result_json finished)
    note_reconciled changed run_id status reason v

  unfoldable pub reconcile_run : String → ActionStatus → String → Json → VerifiedPrincipal → M Bool
  unfolding reconcile_found
  reconcile_run run_id status reason result v = do
    lift (
        require (is_status status completed || is_status status failed)
          (value_error "reconciliation status must be completed or failed"))
    result_json ← lift (json_or_none result)
    transaction (do r ← select_run run_id; reconcile_found r run_id status reason result_json v)

  -- The definitive transition of an observation, if it has one.
  unfoldable pub settle_observed :
      Option ActionStatus → String → Observation → Option String → VerifiedPrincipal → M Bool
  settle_observed none run_id o result_json v = pure true
  settle_observed (some status) run_id o result_json v = do
    let reason = o.provider <> (" lookup: " <> o.summary)
    finished ← now
    changed ←
        update_run run_id (λ x. is_status x.status unknown)
          (reconciled status reason result_json finished)
    lift (
        require changed
          (invalid_transition "provider observation and reconciliation became inconsistent"))
    append_event run_id "run.reconciled" (reconciled_payload v status reason) none
    pure true

  unfoldable pub observe_unknown : String → Observation → Option String → VerifiedPrincipal → M Bool
  unfolding settle_observed
  observe_unknown run_id o result_json v = do
    append_event run_id "provider.reconciliation.observed"
        (with_reference o.reference (
          ("operator_id", str v.actor_id)
          ∷ ("auth_source", str v.auth_source)
          ∷ ("provider", str o.provider)
          ∷ ("outcome", str o.outcome)
          ∷ ("summary", str o.summary)
          ∷ []))
        none
    settle_observed o.status run_id o result_json v

  unfoldable pub observe_found :
      Option Run → String → Observation → Option String → VerifiedPrincipal → M Bool
  unfolding observe_unknown
  observe_found none run_id o result_json v = raise (key_error "run not found")
  observe_found (some r) run_id o result_json v = do
    lift (require (v.tenant_id == r.tenant_id) tenant_error)
    if is_status r.status unknown then observe_unknown run_id o result_json v else pure false

  unfoldable pub apply_provider_observation : String → Observation → VerifiedPrincipal → M Bool
  unfolding observe_found
  apply_provider_observation run_id o v = do
    lift (
        require (matches_outcome o.outcome o.status)
          (value_error "provider outcome and reconciliation status do not match"))
    lift (
        require (not (is_missing o.status && not (is_null o.result)))
          (value_error "pending provider observations cannot store a result"))
    result_json ← lift (json_or_none o.result)
    transaction (do r ← select_run run_id; observe_found r run_id o result_json v)
