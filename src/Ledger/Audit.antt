-- ===== src/Ledger/Audit.antt =====
-- Audit trails of ledger.py: `get_run` with `_decode_run`, `events`, the redactions, `audit_trail`.
pub mod Redaction
use agent_trust_ops.Prelude.{
  ℕ, zero, suc, ◌+◌, String, Bool, true, false, ◌&&◌, Option, none, some, List, [], ◌∷◌, map, ◌==◌,
  contains, length, if◌then◌else◌,
}
use agent_trust_ops.Errors.{Error, Result, ok, err}
use agent_trust_ops.Errors
use agent_trust_ops.Json.{
  Json, null, boolean, nat, str, arr, obj, object, Items, nil, cons, Fields, end, field, opt_str,
  Platform, digest, is_null,
}
use agent_trust_ops.Models.{ActionStatus, VerifiedPrincipal}
use agent_trust_ops.Ledger.Store.{
  Run, Event, World, M, pure, lift, gets, ◌>>=◌, ◌>>◌, select_run, events_of,
}
use agent_trust_ops.Ledger.Events.{verify_event_chain}

-- A decoded row, as `_decode_run` and `_redacted_run` answer it. A redaction puts an object, or a
-- digest, in the place of a value.
pub record RunView : Type 0 where
  pub run_id : String
  pub tenant_id : String
  pub actor_id : String
  pub action_name : String
  pub risk : String
  pub idempotency_key : String
  pub request_fingerprint : String
  pub status : ActionStatus
  pub arguments : Json
  pub roles : Json
  pub evidence : Json
  pub metadata : Json
  pub policy_version : Option String
  pub policy_digest : Option String
  pub reason : Json
  pub result : Json
  pub execution_owner : Option String
  pub lease_expires_at : Option ℕ
  pub attempt : ℕ
  pub duplicate_count : ℕ
  pub event_count : ℕ
  pub event_head_hash : Option String
  pub created_at : ℕ
  pub updated_at : ℕ

pub record EventView : Type 0 where
  pub sequence : ℕ
  pub event_id : String
  pub event_type : String
  pub payload : Json
  pub previous_hash : Option String
  pub event_hash : Option String
  pub created_at : ℕ

pub record AuditTrail : Type 0 where
  pub run : RunView
  pub events : List EventView
  pub chain_verified : Bool
  pub sensitive_fields_included : Bool

-- `len` of a decoded list of texts.
unfoldable pub item_count : Items → ℕ
item_count nil = 0
item_count (cons v l) = item_count l + 1

abbrev pub count_of : Json → ℕ
count_of (arr items) = item_count items
count_of _ = 0

abbrev pub sensitive_keys : List String
sensitive_keys =
    "note" ∷ "facts" ∷ "arguments" ∷ "result" ∷ "evidence" ∷ "approver_id" ∷ "operator_id"
    ∷ "auth_source" ∷ "owner" ∷ "reason" ∷ "reference" ∷ "summary" ∷ []

module _ ⦃p : Platform⦄ where
  abbrev loads_or_null : Option String → Json
  loads_or_null none = null
  loads_or_null (some t) = p.loads t

  -- `_decode_run`: the columns of roles and evidence hold arrays.
  unfoldable pub decode_run : Run → RunView
  decode_run r = record {
    run_id = r.run_id;
    tenant_id = r.tenant_id;
    actor_id = r.actor_id;
    action_name = r.action_name;
    risk = r.risk;
    idempotency_key = r.idempotency_key;
    request_fingerprint = r.request_fingerprint;
    status = r.status;
    arguments = p.loads r.arguments_json;
    roles = p.loads r.roles_json;
    evidence = p.loads r.evidence_json;
    metadata = p.loads r.metadata_json;
    policy_version = r.policy_version;
    policy_digest = r.policy_digest;
    reason = opt_str r.reason;
    result = loads_or_null r.result_json;
    execution_owner = r.execution_owner;
    lease_expires_at = r.lease_expires_at;
    attempt = r.attempt;
    duplicate_count = r.duplicate_count;
    event_count = r.event_count;
    event_head_hash = r.event_head_hash;
    created_at = r.created_at;
    updated_at = r.updated_at;
  }

  unfoldable pub decode_event : Event → EventView
  decode_event e = record {
    sequence = e.sequence;
    event_id = e.event_id;
    event_type = e.event_type;
    payload = p.loads e.payload_json;
    previous_hash = e.previous_hash;
    event_hash = e.event_hash;
    created_at = e.created_at;
  }

  -- `{"redacted": True, "digest": _digest(value)}`
  unfoldable pub redacted : Json → Result Json
  redacted v =
      Errors.◌>>=◌ (digest v)
        (λ t. ok (obj (object (("redacted", boolean true) ∷ ("digest", str t) ∷ []))))

  unfoldable pub redacted_unless_null : Json → Result Json
  unfolding redacted
  redacted_unless_null v = if is_null v then ok null else redacted v

  -- The redaction of the evidence, which keeps its length.
  unfoldable pub redacted_evidence : Json → Result Json
  redacted_evidence v = Errors.◌>>=◌ (digest v) (λ t. ok (
      obj (
        object
          (("redacted", boolean true) ∷ ("count", nat (count_of v)) ∷ ("digest", str t) ∷ []))))

  -- `_redacted_run`
  unfoldable pub redacted_run : RunView → Result RunView
  unfolding redacted redacted_unless_null redacted_evidence
  redacted_run r = Errors.◌>>=◌ (digest (str r.actor_id)) (λ actor_id.
      Errors.◌>>=◌ (digest (str r.idempotency_key)) (λ idempotency_key.
        Errors.◌>>=◌ (redacted_unless_null r.reason) (λ reason.
          Errors.◌>>=◌ (redacted r.arguments) (λ arguments.
            Errors.◌>>=◌ (redacted_evidence r.evidence) (λ evidence.
              Errors.◌>>=◌ (redacted r.metadata) (λ metadata.
                Errors.◌>>=◌ (redacted_unless_null r.result) (λ result. ok (record r {
                  actor_id = actor_id;
                  idempotency_key = idempotency_key;
                  reason = reason;
                  arguments = arguments;
                  roles = arr nil;
                  evidence = evidence;
                  metadata = metadata;
                  result = result;
                }))))))))

  -- The comprehension over the payload.
  unfoldable pub redacted_fields : Fields → Result Fields
  unfolding redacted
  redacted_fields end = ok end
  redacted_fields (field k v l) =
      let rest = redacted_fields l in
      Errors.◌>>=◌ (if contains k sensitive_keys then redacted v else ok v)
        (λ v'. Errors.◌>>=◌ rest (λ l'. ok (field k v' l')))

  -- A payload is an object.
  abbrev pub redacted_payload : Json → Result Json
  redacted_payload (obj fields) = Errors.◌>>=◌ (redacted_fields fields) (λ l. ok (obj l))
  redacted_payload _ = err (Error.runtime_error "'items' of a payload that is no object")

  unfoldable pub redacted_events : List EventView → Result (List EventView)
  unfolding redacted_fields
  redacted_events [] = ok []
  redacted_events (e ∷ l) =
      let rest = redacted_events l in
      Errors.◌>>=◌ (redacted_payload e.payload)
        (λ payload. Errors.◌>>=◌ rest (λ es. ok (record e { payload = payload } ∷ es)))

  -- Whether a principal may see the sensitive fields of a run.
  unfoldable pub is_auditor : Option VerifiedPrincipal → String → Bool
  is_auditor none tenant = false
  is_auditor (some v) tenant = v.tenant_id == tenant && contains "agenttrustops_auditor" v.roles

  unfoldable pub shown : Bool → RunView → List EventView → Result (RunView × List EventView)
  unfolding redacted_run redacted_events
  shown true run events = ok (run, events)
  shown false run events =
      Errors.◌>>=◌ (redacted_run run)
        (λ run'. Errors.◌>>=◌ (redacted_events events) (λ events'. ok (run', events')))

  -- The answer of `audit_trail`, once it is known what is shown.
  unfoldable pub finished_trail :
      Option VerifiedPrincipal → Run → RunView × List EventView → M (Option AuditTrail)
  finished_trail principal r seen = do
    verified ← verify_event_chain r.run_id
    pure (
        some (record {
          run = seen.0;
          events = seen.1;
          chain_verified = verified;
          sensitive_fields_included = is_auditor principal r.tenant_id;
        }))

  -- The part of `audit_trail` after the events are read.
  unfoldable pub shown_trail :
      Option VerifiedPrincipal → Run → List EventView → M (Option AuditTrail)
  unfolding finished_trail
  shown_trail principal r es = do
    seen ← lift (shown (is_auditor principal r.tenant_id) (decode_run r) es)
    finished_trail principal r seen

  unfoldable pub trail_of : Option VerifiedPrincipal → Option Run → M (Option AuditTrail)
  unfolding shown_trail
  trail_of principal none = pure none
  trail_of principal (some r) = do
    es ← gets (λ w. map decode_event (events_of r.run_id w.db.events))
    shown_trail principal r es

  unfoldable pub audit_trail : String → Option VerifiedPrincipal → M (Option AuditTrail)
  unfolding trail_of
  audit_trail run_id principal = do run ← select_run run_id; trail_of principal run
