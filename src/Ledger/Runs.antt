-- ===== src/Ledger/Runs.antt =====
-- `request_fingerprint`, `create_or_get_run`, `record_duplicate` and `record_policy_decision` of
-- ledger.py.
use agent_trust_ops.Prelude.{
  ℕ, ◌+◌, ◌*◌, String, Bool, true, ◌&&◌, Option, none, some, List, [], ◌∷◌, ◌==◌, leb, is_empty,
  if◌then◌else◌,
}
use agent_trust_ops.Errors.{
  Result, ok, value_error, key_error, runtime_error, idempotency_conflict, invalid_transition,
  require,
}
use agent_trust_ops.Json.{Json, str, arr, obj, object, texts, Platform, digest}
use agent_trust_ops.Models.{
  ActionStatus, created, denied, pending_approval, is_status, PolicyOutcome, allow, deny,
  approval_required, outcome_value, PolicyDecision, sorted,
}
use agent_trust_ops.Ledger.Store.{
  Run, M, pure, raise, lift, ◌>>=◌, ◌>>◌, when, transaction, select_run, update_run,
  select_identity, insert_or_ignore_run, insert_approval, now,
}
use agent_trust_ops.Ledger.Events.{append_event}

-- The arguments of `create_or_get_run`.
pub record NewRun : Type 0 where
  pub run_id : String
  pub tenant_id : String
  pub actor_id : String
  pub roles : List String
  pub evidence : List String
  pub action_name : String
  pub risk : String
  pub idempotency_key : String
  pub request_fingerprint : String
  pub arguments : Json
  pub metadata : Json

-- `timedelta(seconds=n)`
abbrev pub seconds : ℕ → ℕ
seconds n = n * 1000000

-- The values of `INSERT OR IGNORE INTO action_runs`; the other columns have their defaults.
abbrev pub new_row : NewRun → String → String → String → String → ℕ → Run
new_row n arguments_json roles_json evidence_json metadata_json timestamp = record {
  run_id = n.run_id;
  tenant_id = n.tenant_id;
  actor_id = n.actor_id;
  action_name = n.action_name;
  risk = n.risk;
  idempotency_key = n.idempotency_key;
  request_fingerprint = n.request_fingerprint;
  status = created;
  arguments_json = arguments_json;
  roles_json = roles_json;
  evidence_json = evidence_json;
  metadata_json = metadata_json;
  policy_version = none;
  policy_digest = none;
  reason = none;
  result_json = none;
  execution_owner = none;
  lease_expires_at = none;
  attempt = 0;
  duplicate_count = 0;
  event_count = 0;
  event_head_hash = none;
  created_at = timestamp;
  updated_at = timestamp;
}

abbrev pub next_status : PolicyOutcome → ActionStatus
next_status deny = denied
next_status approval_required = pending_approval
next_status allow = created

module _ ⦃p : Platform⦄ where
  -- `request_fingerprint`
  unfoldable pub request_fingerprint :
      String → String → List String → List String → String → String → Json → Json → Result String
  request_fingerprint tenant_id actor_id roles evidence action_name risk arguments metadata =
      digest (
        obj (
          object (
            ("schema", str "agenttrustops-request-v1")
            ∷ ("tenant_id", str tenant_id)
            ∷ ("actor_id", str actor_id)
            ∷ ("roles", arr (texts (sorted roles)))
            ∷ ("evidence", arr (texts (sorted evidence)))
            ∷ ("action_name", str action_name)
            ∷ ("risk", str risk)
            ∷ ("arguments", arguments)
            ∷ ("metadata", metadata)
            ∷ [])))

  -- What `create_or_get_run` does with the row that has the request's identity.
  unfoldable pub settle_created : NewRun → ℕ → Bool → Option Run → M (Run × Bool)
  settle_created n timestamp is_new none =
      raise (runtime_error "action run could not be created or loaded")
  settle_created n timestamp is_new (some row) = do
    lift (
        require (row.request_fingerprint == n.request_fingerprint) (
          idempotency_conflict "idempotency key was already used for a different governed request"))
    when is_new (
        append_event n.run_id "run.created"
          (("action_name", str n.action_name)
            ∷ ("risk", str n.risk)
            ∷ ("request_fingerprint", str n.request_fingerprint)
            ∷ [])
          (some timestamp))
    pure (row, is_new)

  unfoldable pub create_or_get_run : NewRun → M (Run × Bool)
  unfolding settle_created
  create_or_get_run n = do
    timestamp ← now
    transaction (do
      arguments_json ← lift (p.dumps n.arguments)
      roles_json ← lift (p.dumps (arr (texts n.roles)))
      evidence_json ← lift (p.dumps (arr (texts n.evidence)))
      metadata_json ← lift (p.dumps n.metadata)
      is_new ←
          insert_or_ignore_run
            (new_row n arguments_json roles_json evidence_json metadata_json timestamp)
      row ← select_identity n.tenant_id n.action_name n.idempotency_key
      settle_created n timestamp is_new row)

  unfoldable pub record_duplicate : String → M (Unit {0})
  record_duplicate run_id = transaction (do
    counted ←
        update_run run_id (λ r. true) (λ r. record r { duplicate_count = r.duplicate_count + 1 })
    lift (require counted (key_error "run not found")))

  -- `decision.policy_digest or _digest(...)`
  unfoldable pub digest_of : PolicyDecision → Result String
  digest_of d = elim d.policy_digest [
    | none ↦ digest (obj (object (("policy_version", str d.policy_version) ∷ [])))
    | some t ↦
        if is_empty t
        then digest (obj (object (("policy_version", str d.policy_version) ∷ [])))
        else ok t
  ]

  -- What follows the `policy.checked` event, for each outcome.
  unfoldable pub after_decision :
      PolicyOutcome → String → Run → PolicyDecision → String → ℕ → ℕ → M (Unit {0})
  after_decision allow run_id run d policy_digest started expires_at = pure tt
  after_decision deny run_id run d policy_digest started expires_at =
      append_event run_id "run.denied" (("reason", str d.reason) ∷ []) none
  after_decision approval_required run_id run d policy_digest started expires_at = do
    insert_approval (record {
      run_id = run_id;
      status = pending_approval;
      request_fingerprint = run.request_fingerprint;
      policy_version = d.policy_version;
      policy_digest = some policy_digest;
      requested_actor_id = run.actor_id;
      approver_id = none;
      approver_auth_source = none;
      note = none;
      requested_at = started;
      expires_at = expires_at;
      decided_at = none;
    })
    append_event run_id "approval.requested"
        (("reason", str d.reason)
          ∷ ("policy_version", str d.policy_version)
          ∷ ("policy_digest", str policy_digest)
          ∷ ("request_fingerprint", str run.request_fingerprint)
          ∷ ("expires_at", str (p.isoformat expires_at))
          ∷ [])
        none

  -- The body of the transaction of `record_policy_decision`, once the run is read.
  unfoldable pub decide_run : Option Run → String → PolicyDecision → String → ℕ → ℕ → M (Unit {0})
  unfolding after_decision
  decide_run none run_id d policy_digest started expires_at = raise (key_error "run not found")
  decide_run (some run) run_id d policy_digest started expires_at = do
    lift (
        require (is_status run.status created)
          (invalid_transition "policy can only decide a newly created run"))
    update_run run_id (λ r. is_status r.status created)
        (λ r. record r {
          status = next_status d.outcome;
          policy_version = some d.policy_version;
          policy_digest = some policy_digest;
          reason = some d.reason;
          updated_at = started;
        })
    append_event run_id "policy.checked"
        (("outcome", str (outcome_value d.outcome))
          ∷ ("policy_version", str d.policy_version)
          ∷ ("policy_digest", str policy_digest)
          ∷ ("reason", str d.reason)
          ∷ ("facts", d.facts)
          ∷ [])
        none
    after_decision d.outcome run_id run d policy_digest started expires_at

  unfoldable pub record_policy_decision : String → PolicyDecision → ℕ → M (Unit {0})
  unfolding decide_run digest_of
  record_policy_decision run_id d approval_ttl_seconds = do
    lift (
        require (leb 1 approval_ttl_seconds && leb approval_ttl_seconds 604800)
          (value_error "approval_ttl_seconds must be between 1 and 604800"))
    policy_digest ← lift (digest_of d)
    started ← now
    transaction (do
      run ← select_run run_id
      decide_run run run_id d policy_digest started (started + seconds approval_ttl_seconds))
