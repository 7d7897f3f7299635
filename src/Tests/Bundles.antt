-- ===== src/Tests/Bundles.antt =====
-- A bundle of the refund, signed. On this platform `loads` puts a text into an object, and `dumps`
-- takes it out again.
use agent_trust_ops.Prelude.{
  ℕ, ◌*◌, String, ◌≡◌, refl, true, none, some, [], ◌∷◌, ◌==◌, ◌<>◌, eq_iff, select, strip, contains,
  take,
}
use agent_trust_ops.Errors.{Result, ok, err}
use agent_trust_ops.Json.{Json, null, str, obj, end, field, Platform, digest, is_null}
use agent_trust_ops.Ledger.Table
use agent_trust_ops.Ledger.Store.{
  World, for_each, transaction, ◌>>=◌, when, select_run, update_run, run_of_identity,
  select_identity, insert_or_ignore_run, events_of, insert_event, now, uuid4,
}
use agent_trust_ops.Ledger.Events.{
  commit_event, event_hash, timestamp_or_now, append_event, verify_event_chain, verify_from,
  verify_run,
}
use agent_trust_ops.Ledger.Runs.{settle_created, create_or_get_run}
use agent_trust_ops.Ledger.Method.{creates, start, serve, perform}
use agent_trust_ops.Ledger.Audit.{
  decode_event, redacted, redacted_unless_null, redacted_evidence, redacted_run, redacted_fields,
  redacted_events, is_auditor, shown, finished_trail, shown_trail, trail_of, item_count, decode_run,
  audit_trail,
}
use agent_trust_ops.Tests.Platform.{dump, unary}
use agent_trust_ops.Ledger.Queries.{list_runs, recent_first, insert_recent, runs_of}
use agent_trust_ops.Bundles.{Crypto, export_run, export_each, sealed_bundle, export_audit_bundle}
use agent_trust_ops.Bundles.Check.{verify_audit_bundle}
use agent_trust_ops.Bundles.RoundTrip.{IsSigning, verified_as, export_verifies}
use agent_trust_ops.Tests.Ledger.{refund}
use agent_trust_ops.Tests.Refunds.{builtins}

unfoldable boxed_dump : Json → Result String
boxed_dump (obj (field k (str s) end)) = ok s
boxed_dump v = dump v

instance abbrev boxing : Platform
boxing = record {
  dumps = boxed_dump;
  loads = λ t. obj (field "text" (str t) end);
  sha256 = λ t. t;
  isoformat = λ n. "2026-01-01T00:00:00+00:00";
  has_timezone = λ t. some true;
  clock = λ n. n * 2;
  uuid = unary;
}

abbrev fresh : World
fresh = serve (creates refund ∷ []) start

abbrev crypto : Crypto
crypto = record {
  canonical = λ v. ok "canonical";
  encode64 = λ t. t;
  decode64 = λ t. ok t;
  public_of = λ key. key;
  public_bytes = λ t. ok t;
  sign = λ key t. key <> t;
  is_signed = λ key signed t. signed == (key <> t);
}

crypto-IsSigning : IsSigning crypto
crypto-IsSigning = record {
  decodes = λ t. refl;
  public = λ key. refl;
  verifies = λ key t. (eq_iff (key <> t) (key <> t)).1 refl;
}

abbrev json_in : Result Json → Json
json_in (ok v) = v
json_in (err e) = null

abbrev bundle : Json
bundle = json_in (export_audit_bundle crypto "sqlite" none 1000 (some "key") fresh).0

exported : (export_audit_bundle crypto "sqlite" none 1000 (some "key") fresh).0 ≡ ok bundle
unfolding audit_trail decode_run decode_event redacted redacted_unless_null redacted_evidence
    redacted_run redacted_fields redacted_events is_auditor shown finished_trail shown_trail
    trail_of verify_event_chain item_count verify_from verify_run contains start Table.get Table.put
    Table.rows Table.empty strip select is_null digest dump unary transaction ◌>>=◌ when select_run
    update_run run_of_identity select_identity insert_or_ignore_run events_of insert_event now uuid4
    commit_event event_hash timestamp_or_now append_event settle_created create_or_get_run for_each
    serve perform export_audit_bundle export_each export_run sealed_bundle list_runs recent_first
    insert_recent runs_of take boxed_dump
exported = refl

export_verifies_example :
    (n : ℕ) × (t : String) × (verify_audit_bundle builtins crypto (some "key") bundle
      ≡ ok (verified_as crypto (some "key") (some "key") n t))
export_verifies_example =
    export_verifies builtins crypto "sqlite" none (some "key") (some "key") 1000 fresh bundle
      crypto-IsSigning refl exported
