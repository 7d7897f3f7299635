-- ===== src/Providers.antt =====
-- providers.py: what a provider probe is asked and what it answers, with the checks of each.
use agent_trust_ops.Prelude.{
  String, Bool, true, not, Option, none, some, strip, is_empty, char_count, ltb, if◌then◌else◌,
}
use agent_trust_ops.Errors.{Result, ok, err, value_error, require, ◌>>=◌, ◌>>◌}
use agent_trust_ops.Json.{Json, Platform}

pub data ProviderOutcome : Type 0 where
  committed not_committed pending : ProviderOutcome

unfoldable pub provider_outcome_value : ProviderOutcome → String
provider_outcome_value committed = "committed"
provider_outcome_value not_committed = "not_committed"
provider_outcome_value pending = "pending"

pub record ProviderLookup : Type 0 where
  pub run_id : String
  pub action_name : String
  pub tenant_id : String
  pub idempotency_key : String
  pub arguments : Json
  pub created_at : Option String

pub record ProviderObservation : Type 0 where
  pub outcome : ProviderOutcome
  pub summary : String
  pub reference : Option String
  pub safe_result : Json

-- A server-owned probe: the adapter of an application.
pub record ProviderProbe : Type 0 where
  pub name : String
  pub lookup : ProviderLookup → Result ProviderObservation

-- `None if reference is None else reference.strip()`, and none if that is empty.
abbrev stripped_reference : Option String → Option String
stripped_reference none = none
stripped_reference (some t) = if is_empty (strip t) then none else some (strip t)

abbrev reference_fits : Option String → Bool
reference_fits none = true
reference_fits (some t) = not (ltb 255 (char_count t))

unfoldable pub validate_provider_name : String → Result String
validate_provider_name name = do
  require (not (is_empty (strip name))) (value_error "provider probe name cannot be empty")
  require (not (ltb 100 (char_count (strip name))))
      (value_error "provider probe name cannot exceed 100 characters")
  ok (strip name)

module _ ⦃p : Platform⦄ where
  copied : Result String → Result Json
  copied (ok t) = ok (p.loads t)
  copied (err e) = err (value_error "provider reconciliation data must be JSON serializable")

  -- `_json_copy`
  unfoldable pub json_copy : Json → Result Json
  unfolding copied
  json_copy v = copied (p.dumps v)

  abbrev check_time : Option Bool → Result (Unit {0})
  check_time none = err (value_error "created_at must be an ISO-8601 timestamp")
  check_time (some zoned) = require zoned (value_error "created_at must include a timezone")

  abbrev check_created_at : Option String → Result (Unit {0})
  check_created_at none = ok tt
  check_created_at (some t) = check_time (p.has_timezone t)

  -- `ProviderLookup.__post_init__`
  unfoldable pub provider_lookup : ProviderLookup → Result ProviderLookup
  provider_lookup l = do
    require (not (is_empty (strip l.run_id))) (value_error "run_id cannot be empty")
    require (not (is_empty (strip l.action_name))) (value_error "action_name cannot be empty")
    require (not (is_empty (strip l.tenant_id))) (value_error "tenant_id cannot be empty")
    require (not (is_empty (strip l.idempotency_key)))
        (value_error "idempotency_key cannot be empty")
    check_created_at l.created_at
    arguments ← json_copy l.arguments
    ok (record l { arguments = arguments })

  -- `ProviderObservation.__post_init__`
  unfoldable pub provider_observation : ProviderObservation → Result ProviderObservation
  provider_observation o = do
    require (not (is_empty (strip o.summary)))
        (value_error "provider observation summary cannot be empty")
    require (not (ltb 500 (char_count (strip o.summary))))
        (value_error "provider observation summary cannot exceed 500 characters")
    require (reference_fits (stripped_reference o.reference))
        (value_error "provider reference cannot exceed 255 characters")
    safe_result ← json_copy o.safe_result
    ok (record {
      outcome = o.outcome;
      summary = strip o.summary;
      reference = stripped_reference o.reference;
      safe_result = safe_result;
    })
