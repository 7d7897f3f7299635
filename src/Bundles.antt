-- ===== src/Bundles.antt =====
-- audit.py: the JSON of an exported audit bundle. Files are read and written elsewhere; a key stands
-- for its raw bytes, and bytes for a text.
pub mod Check
pub mod Export
pub mod RoundTrip
use agent_trust_ops.Prelude.{
  ℕ, String, Bool, true, false, not, Option, none, some, List, [], ◌∷◌, ◌<>◌, if◌then◌else◌,
}
use agent_trust_ops.Errors.{Error, Result, ok, err, value_error, runtime_error, require}
use agent_trust_ops.Errors
use agent_trust_ops.Json.{
  Json, null, boolean, nat, str, arr, obj, object, Items, nil, cons, opt_str, Platform,
}
use agent_trust_ops.Models.{status_value}
use agent_trust_ops.Ledger.Store.{Run, M, pure, lift, ◌>>=◌, ◌>>◌, now}
use agent_trust_ops.Ledger.Queries.{list_runs}
use agent_trust_ops.Ledger.Audit.{RunView, EventView, AuditTrail, item_count, audit_trail}

-- What the code takes of `json.dumps` with `ensure_ascii=False`, of base64 and of Ed25519.
-- `public_of` is the public key of a private one, `public_bytes` what `from_public_bytes` accepts.
pub record Crypto : Type 0 where
  pub canonical : Json → Result String
  pub encode64 : String → String
  pub decode64 : String → Result String
  pub public_of : String → String
  pub public_bytes : String → Result String
  pub sign : String → String → String
  pub is_signed : String → String → String → Bool

abbrev pub bundle_schema : String
bundle_schema = "agenttrustops-audit-bundle-v1"

-- What a trail must be to be exported.
abbrev pub portable : String → Option AuditTrail → Result AuditTrail
portable run_id none = err (runtime_error "a listed run disappeared during audit export")
portable run_id (some t) =
    Errors.◌>>◌
      (require (not t.sensitive_fields_included)
        (runtime_error "portable audit bundles must be redacted"))
      (Errors.◌>>◌
        (require t.chain_verified (value_error ("source event chain failed for run " <> run_id)))
        (ok t))

module _ ⦃p : Platform⦄ where
  abbrev time_or_null : Option ℕ → Json
  time_or_null none = null
  time_or_null (some n) = str (p.isoformat n)

  unfoldable pub run_json : RunView → Json
  run_json r = obj (
      object (
        ("run_id", str r.run_id)
        ∷ ("tenant_id", str r.tenant_id)
        ∷ ("actor_id", str r.actor_id)
        ∷ ("action_name", str r.action_name)
        ∷ ("risk", str r.risk)
        ∷ ("idempotency_key", str r.idempotency_key)
        ∷ ("request_fingerprint", str r.request_fingerprint)
        ∷ ("status", str (status_value r.status))
        ∷ ("arguments", r.arguments)
        ∷ ("roles", r.roles)
        ∷ ("evidence", r.evidence)
        ∷ ("metadata", r.metadata)
        ∷ ("policy_version", opt_str r.policy_version)
        ∷ ("policy_digest", opt_str r.policy_digest)
        ∷ ("reason", r.reason)
        ∷ ("result", r.result)
        ∷ ("execution_owner", opt_str r.execution_owner)
        ∷ ("lease_expires_at", time_or_null r.lease_expires_at)
        ∷ ("attempt", nat r.attempt)
        ∷ ("duplicate_count", nat r.duplicate_count)
        ∷ ("event_count", nat r.event_count)
        ∷ ("event_head_hash", opt_str r.event_head_hash)
        ∷ ("created_at", str (p.isoformat r.created_at))
        ∷ ("updated_at", str (p.isoformat r.updated_at))
        ∷ []))

  unfoldable pub event_items : List EventView → Items
  event_items [] = nil
  event_items (e ∷ l) =
      cons
        (obj (
          object (
            ("sequence", nat e.sequence)
            ∷ ("event_id", str e.event_id)
            ∷ ("event_type", str e.event_type)
            ∷ ("payload", e.payload)
            ∷ ("previous_hash", opt_str e.previous_hash)
            ∷ ("event_hash", opt_str e.event_hash)
            ∷ ("created_at", str (p.isoformat e.created_at))
            ∷ [])))
        (event_items l)

  -- The dictionary of `audit_trail`.
  unfoldable pub trail_json : String → AuditTrail → Json
  unfolding run_json event_items
  trail_json backend t = obj (
      object (
        ("run", run_json t.run)
        ∷ ("events", arr (event_items t.events))
        ∷ (
          "integrity",
          obj (
              object (
                ("chain_verified", boolean t.chain_verified)
                ∷ ("mode", str ("sha256_event_chain_" <> backend))
                ∷ ("immutable", boolean false)
                ∷ [])),
        )
        ∷ ("sensitive_fields_included", boolean t.sensitive_fields_included)
        ∷ []))

  -- One round of the loop of `export_audit_bundle`.
  unfoldable pub export_run : String → Run → M Json
  unfolding trail_json
  export_run backend r = do
    found ← audit_trail r.run_id none
    t ← lift (portable r.run_id found)
    pure (trail_json backend t)

  unfoldable pub export_each : String → List Run → M Items
  unfolding export_run
  export_each backend [] = pure nil
  export_each backend (r ∷ l) = do
    t ← export_run backend r
    rest ← export_each backend l
    pure (cons t rest)

  unfoldable pub bundle_payload : String → Option String → Items → ℕ → Json
  bundle_payload backend tenant trails time = obj (
      object (
        ("schema", str bundle_schema)
        ∷ ("exported_at", str (p.isoformat time))
        ∷ (
          "source",
          obj (object (("backend", str backend) ∷ ("tenant_scope", opt_str tenant) ∷ [])),
        )
        ∷ ("run_count", nat (item_count trails))
        ∷ ("runs", arr trails)
        ∷ []))

  -- `_sha256`
  unfoldable pub sha256_of : String → String
  sha256_of t = "sha256:" <> p.sha256 t

  -- `proof["signature"]`, by the private key if there is one.
  unfoldable pub signature_json : Crypto → Option String → String → Json
  unfolding sha256_of
  signature_json c none text = null
  signature_json c (some key) text = obj (
      object (
        ("algorithm", str "Ed25519")
        ∷ ("value", str (c.encode64 (c.sign key text)))
        ∷ ("public_key", str (c.encode64 (c.public_of key)))
        ∷ ("public_key_fingerprint", str (sha256_of (c.public_of key)))
        ∷ []))

  unfoldable pub bundle_json : Crypto → Option String → Json → String → Json
  unfolding signature_json
  bundle_json c key payload text = obj (
      object (
        ("payload", payload)
        ∷ (
          "proof",
          obj (
              object
                (("digest", str (sha256_of text)) ∷ ("signature", signature_json c key text) ∷ [])),
        )
        ∷ []))

  -- The part of `export_audit_bundle` after the loop.
  unfoldable pub sealed_bundle : Crypto → Option String → Json → M Json
  unfolding bundle_json
  sealed_bundle c key payload = do
    text ← lift (c.canonical payload)
    pure (bundle_json c key payload text)

  -- `export_audit_bundle`
  unfoldable pub export_audit_bundle : Crypto → String → Option String → ℕ → Option String → M Json
  unfolding export_each bundle_payload sealed_bundle
  export_audit_bundle c backend tenant limit key = do
    runs ← list_runs tenant none limit
    trails ← export_each backend runs
    time ← now
    sealed_bundle c key (bundle_payload backend tenant trails time)
