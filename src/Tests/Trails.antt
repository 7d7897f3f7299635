-- ===== src/Tests/Trails.antt =====
-- The trail of the refund, as it is shown to nobody in particular. `loads` puts every text under a
-- sensitive key.
use agent_trust_ops.Prelude.{
  ◌≡◌, refl, false, true, none, some, Option, [], ◌∷◌, select, strip, contains,
}
use agent_trust_ops.Errors.{Result, ok}
use agent_trust_ops.Json.{str, obj, end, field, Platform, digest, is_null}
use agent_trust_ops.Ledger.Table
use agent_trust_ops.Ledger.Store.{
  World, for_each, transaction, ◌>>=◌, when, select_run, update_run, run_of_identity,
  select_identity, insert_or_ignore_run, events_of, insert_event, now, uuid4,
}
use agent_trust_ops.Ledger.Events.{
  commit_event, event_hash, timestamp_or_now, append_event, verify_event_chain, verify_from,
  verify_run,
}
use agent_trust_ops.Ledger.Runs.{settle_created, create_or_get_run}
use agent_trust_ops.Ledger.Method.{creates, start, serve, perform}
use agent_trust_ops.Ledger.Audit.{
  AuditTrail, decode_event, redacted, redacted_unless_null, redacted_evidence, redacted_run,
  redacted_fields, redacted_events, is_auditor, shown, finished_trail, shown_trail, trail_of,
  item_count, decode_run, audit_trail,
}
use agent_trust_ops.Ledger.Audit.Redaction.{IsHidden, audit_trail-IsHidden}
use agent_trust_ops.Tests.Platform.{dump, unary, test_platform}
use agent_trust_ops.Tests.Ledger.{refund, stored}

abbrev fresh : World
fresh = serve (creates refund ∷ []) start

fresh_stored : Table.get "run_1" fresh.db.runs ≡ some (stored "run_1" fresh)
unfolding stored start Table.get Table.put Table.rows Table.empty strip select is_null digest dump
    unary transaction ◌>>=◌ when select_run update_run run_of_identity select_identity
    insert_or_ignore_run events_of insert_event now uuid4 commit_event event_hash timestamp_or_now
    append_event settle_created create_or_get_run for_each serve perform
fresh_stored = refl

abbrev noting_platform : Platform
noting_platform = record test_platform { loads = λ t. obj (field "note" (str t) end) }

abbrev trail_in : Result (Option AuditTrail) → AuditTrail → AuditTrail
trail_in (ok (some t)) other = t
trail_in _ other = other

abbrev no_trail : AuditTrail
no_trail = record {
  run = decode_run ⦃p = noting_platform⦄ (stored "run_1" fresh);
  events = [];
  chain_verified = false;
  sensitive_fields_included = true;
}

abbrev public_trail : AuditTrail
public_trail = trail_in (audit_trail ⦃p = noting_platform⦄ "run_1" none fresh).0 no_trail

trail_shown : (audit_trail ⦃p = noting_platform⦄ "run_1" none fresh).0 ≡ ok (some public_trail)
unfolding audit_trail stored decode_run decode_event redacted redacted_unless_null redacted_evidence
    redacted_run redacted_fields redacted_events is_auditor shown finished_trail shown_trail
    trail_of verify_event_chain item_count verify_from verify_run contains start Table.get Table.put
    Table.rows Table.empty strip select is_null digest dump unary transaction ◌>>=◌ when select_run
    update_run run_of_identity select_identity insert_or_ignore_run events_of insert_event now uuid4
    commit_event event_hash timestamp_or_now append_event settle_created create_or_get_run for_each
    serve perform
trail_shown = refl

audit_trail-IsHidden_example :
    IsHidden ⦃p = noting_platform⦄
      (decode_run ⦃p = noting_platform⦄ (stored "run_1" fresh))
      public_trail
unfolding is_auditor
audit_trail-IsHidden_example =
    audit_trail-IsHidden ⦃p = noting_platform⦄ "run_1" none fresh (stored "run_1" fresh)
      public_trail fresh_stored refl trail_shown
