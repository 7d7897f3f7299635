-- ===== src/Ledger/Execution.antt =====
-- The execution lease of ledger.py: `claim_execution`, `heartbeat_execution`, `complete_execution`,
-- `fail_execution`, `mark_execution_unknown`, `recover_expired_executions`.
use agent_trust_ops.Prelude.{
  ℕ, ◌+◌, String, Bool, true, false, not, ◌&&◌, ◌||◌, Option, none, some, List, [], ◌∷◌, ◌==◌, ◌<>◌,
  ltb, leb, strip, is_empty, select, if◌then◌else◌,
}
use agent_trust_ops.Errors.{Result, ok, value_error, key_error, invalid_transition, require}
use agent_trust_ops.Errors
use agent_trust_ops.Json.{Json, nat, str, is_null, Platform}
use agent_trust_ops.Models.{
  ActionStatus, created, approved, executing, unknown, completed, failed, is_status,
}
use agent_trust_ops.Ledger.Store.{
  Run, M, pure, raise, collect, lift, gets, ◌>>=◌, ◌>>◌, when, transaction, select_run, update_run,
  now,
}
use agent_trust_ops.Ledger.Table
use agent_trust_ops.Ledger.Events.{Payload, append_event, append_events}
use agent_trust_ops.Ledger.Runs.{seconds}
use agent_trust_ops.Ledger.Approvals.{in_tenant}

-- `not owner.strip()` and the bounds of `lease_seconds` raise.
unfoldable pub check_lease : String → ℕ → Result (Unit {0})
check_lease owner lease_seconds =
    Errors.◌>>◌
      (require (not (is_empty (strip owner))) (value_error "execution owner cannot be empty"))
      (require (leb 1 lease_seconds && leb lease_seconds 86400)
        (value_error "lease_seconds must be between 1 and 86400"))

abbrev pub lease_over : Option ℕ → ℕ → Bool
lease_over none started = false
lease_over (some t) started = leb t started

-- An execution whose lease has run out.
abbrev pub is_abandoned : ℕ → Run → Bool
is_abandoned started r = is_status r.status executing && lease_over r.lease_expires_at started

abbrev pub has_policy : Option String → Bool
has_policy none = false
has_policy (some v) = true

-- The WHERE clause of the claim.
unfoldable pub is_claimable : Run → Bool
is_claimable r =
    (is_status r.status created || is_status r.status approved) && has_policy r.policy_version

abbrev pub lost_reason : String
lost_reason = "execution lease expired; provider outcome requires reconciliation"

abbrev attempt_of : Option Run → ℕ
attempt_of none = 0
attempt_of (some r) = r.attempt

abbrev pub owned_by : String → Option String → Bool
owned_by owner none = false
owned_by owner (some o) = o == owner

abbrev pub lease_after : Option ℕ → ℕ → Bool
lease_after none started = false
lease_after (some t) started = ltb started t

module _ ⦃p : Platform⦄ where
  -- `_mark_expired_execution_tx`
  unfoldable pub mark_expired_execution : String → ℕ → M Bool
  mark_expired_execution run_id started = do
    changed ←
        update_run run_id (λ r. is_status r.status executing)
          (λ r. record r {
            status = unknown;
            reason = some lost_reason;
            execution_owner = none;
            lease_expires_at = none;
            updated_at = started;
          })
    when changed
        (append_event run_id "tool.execution.lease_expired" (("reason", str lost_reason) ∷ []) none)
    pure changed

  -- What follows the claim, if that changed the row.
  unfoldable pub start_execution : Bool → String → String → Run → ℕ → M Bool
  start_execution false run_id owner r lease = pure false
  start_execution true run_id owner r lease = do
    claimed ← select_run run_id
    when (is_status r.status approved) (append_event run_id "run.resumed" [] none)
    append_event run_id "tool.execution.started"
        (("owner", str owner)
          ∷ ("attempt", nat (attempt_of claimed))
          ∷ ("lease_expires_at", str (p.isoformat lease))
          ∷ [])
        none
    pure true

  unfoldable pub claim_row : String → String → Run → ℕ → ℕ → M Bool
  unfolding start_execution
  claim_row run_id owner r started lease = do
    changed ← update_run run_id is_claimable (λ x. record x {
      status = executing;
      execution_owner = some owner;
      lease_expires_at = some lease;
      attempt = x.attempt + 1;
      updated_at = started;
    })
    start_execution changed run_id owner r lease

  -- The part of `claim_execution` after the run is read.
  unfoldable pub claim_run : Option Run → String → String → ℕ → ℕ → M Bool
  unfolding mark_expired_execution claim_row
  claim_run none run_id owner started lease = raise (key_error "run not found")
  claim_run (some r) run_id owner started lease =
      if is_abandoned started r
      then (do mark_expired_execution run_id started; pure false)
      else claim_row run_id owner r started lease

  -- The transaction of `claim_execution`.
  unfoldable pub claim_locked : String → String → ℕ → ℕ → M Bool
  unfolding claim_run
  claim_locked run_id owner lease_seconds started = do
    r ← select_run run_id
    claim_run r run_id owner started (started + seconds lease_seconds)

  unfoldable pub claim_execution : String → String → ℕ → M Bool
  unfolding claim_locked check_lease
  claim_execution run_id owner lease_seconds = do
    lift (check_lease owner lease_seconds)
    started ← now
    transaction (claim_locked run_id owner lease_seconds started)

  unfoldable pub heartbeat_execution : String → String → ℕ → M Bool
  unfolding check_lease
  heartbeat_execution run_id owner lease_seconds = do
    lift (check_lease owner lease_seconds)
    started ← now
    transaction (
        update_run run_id
          (λ r.
            is_status r.status executing
            && owned_by owner r.execution_owner
            && lease_after r.lease_expires_at started)
          (λ r. record r {
            lease_expires_at = some (started + seconds lease_seconds);
            updated_at = started;
          }))

  -- `None if result is None else _json(result)`
  unfoldable pub json_or_none : Json → Result (Option String)
  json_or_none v = if is_null v then ok none else Errors.◌>>=◌ (p.dumps v) (λ t. ok (some t))

  unfoldable pub finish_execution :
      String → String → ActionStatus → Option String → Json → List (String × Payload) → M (Unit {0})
  finish_execution run_id owner status reason result events = do
    result_json ← lift (json_or_none result)
    transaction (do
      finished ← now
      changed ←
          update_run run_id (λ r. is_status r.status executing && owned_by owner r.execution_owner)
            (λ r. record r {
              status = status;
              reason = reason;
              result_json = result_json;
              execution_owner = none;
              lease_expires_at = none;
              updated_at = finished;
            })
      lift
          (require changed (invalid_transition "execution lease is no longer owned by this worker"))
      append_events run_id events)

  unfoldable pub complete_execution : String → String → Json → M (Unit {0})
  complete_execution run_id owner result =
      finish_execution run_id owner completed none result
        (("tool.execution.succeeded", []) ∷ ("run.completed", []) ∷ [])

  unfoldable pub fail_execution : String → String → String → M (Unit {0})
  fail_execution run_id owner error_type =
      finish_execution run_id owner failed (some ("tool execution failed: " <> error_type))
        Json.null (("tool.execution.failed", ("error_type", str error_type) ∷ []) ∷ [])

  unfoldable pub mark_execution_unknown : String → String → String → M (Unit {0})
  mark_execution_unknown run_id owner error_type =
      let reason = "tool execution outcome uncertain: " <> error_type in
      finish_execution run_id owner unknown (some reason) Json.null (
        ("tool.execution.uncertain", ("error_type", str error_type) ∷ ("reason", str reason) ∷ [])
        ∷ [])

  -- One round of the loop of `recover_expired_executions`.
  unfoldable pub recover_one : Run → ℕ → M (List String)
  unfolding mark_expired_execution
  recover_one r started = do
    changed ← mark_expired_execution r.run_id started
    pure (if changed then r.run_id ∷ [] else [])

  unfoldable pub recover_expired_executions : Option String → M (List String)
  unfolding recover_one
  recover_expired_executions tenant = do
    started ← now
    transaction (do
      abandoned ←
          gets
            (λ w. select (λ r. is_abandoned started r && in_tenant tenant r) (Table.rows w.db.runs))
      collect (λ r. recover_one r started) abandoned)
