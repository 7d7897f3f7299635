-- ===== src/Tests/Ledger.antt =====
-- Scenarios on the ledger.
use agent_trust_ops.Prelude.{
  String, ◌≡◌, refl, true, none, some, List, [], ◌∷◌, strip, select, ◌≢◌, ◌++◌, ◌+◌, ◌==◌,
  if◌then◌else◌, false,
}
use agent_trust_ops.Errors.{ok, Error, err, idempotency_conflict}
use agent_trust_ops.Json.{str, obj, end, is_null, digest}
use agent_trust_ops.Models.{PolicyDecision, allow, outcome_value}
use agent_trust_ops.Ledger.Table
use agent_trust_ops.Ledger.Store.{
  Run, World, for_each, transaction, ◌>>=◌, when, select_run, update_run, run_of_identity,
  select_identity, insert_or_ignore_run, events_of, insert_event, now, uuid4, Event,
}
use agent_trust_ops.Ledger.Runs.{
  NewRun, new_row, settle_created, create_or_get_run, digest_of, after_decision, decide_run,
  record_policy_decision,
}
use agent_trust_ops.Ledger.Method.{
  Method, creates, records_policy, claims, completes, start, serve, perform, counts_duplicate,
  recovers,
}
use agent_trust_ops.Ledger.Events.{
  commit_event, event_hash, timestamp_or_now, append_event, append_events, verify_event_chain,
}
use agent_trust_ops.Ledger.Execution.{
  check_lease, is_claimable, start_execution, claim_row, claim_run, claim_locked, claim_execution,
  json_or_none, finish_execution, complete_execution,
}
use agent_trust_ops.Tests.Platform.{dump, unary, test_platform, test_platform-IsCanonical}
use agent_trust_ops.Ledger.Machine.{is_terminal}
use agent_trust_ops.Ledger.Chain.{serve_verifies}
use agent_trust_ops.Ledger.Lifecycle.{IsSound, serve-IsSound}
use agent_trust_ops.Ledger.History.{Follows, serve-Follows, serve_appends, serve_terminal}
use agent_trust_ops.Ledger.Claims.{claim_once}
use agent_trust_ops.Ledger.Uniqueness.{serve_unique}
use agent_trust_ops.Ledger.Atomicity.{perform_atomic}
use agent_trust_ops.Ledger.Idempotency.{IsSerializable, conflict, create_or_get_run_again}

abbrev pub refund : NewRun
refund = record {
  run_id = "run_1";
  tenant_id = "acme";
  actor_id = "agent";
  roles = "refund_agent" ∷ [];
  evidence = [];
  action_name = "execute_refund";
  risk = "financial";
  idempotency_key = "refund:acme:1";
  request_fingerprint = "f1";
  arguments = obj end;
  metadata = obj end;
}

abbrev pub allowing : PolicyDecision
allowing = record {
  outcome = allow;
  reason = "small";
  policy_version = "v1";
  facts = obj end;
  policy_digest = some "d1";
}

-- A refund that the policy allows, executed.
abbrev pub happy : List Method
happy =
    creates refund
    ∷ records_policy "run_1" allowing 60
    ∷ claims "run_1" "w1" 60
    ∷ completes "run_1" "w1" (str "paid")
    ∷ []

-- The row of a run that is there.
unfoldable pub stored : String → World → Run
stored k w = elim (Table.get k w.db.runs) [ none ↦ new_row refund "" "" "" "" 0 | some r ↦ r ]

abbrev pub after_happy : World
after_happy = serve happy start

pub after_happy_stored : Table.get "run_1" after_happy.db.runs ≡ some (stored "run_1" after_happy)
unfolding stored serve perform start Table.get Table.put Table.rows Table.empty strip select is_null
    digest outcome_value dump unary transaction ◌>>=◌ when select_run update_run run_of_identity
    select_identity insert_or_ignore_run events_of insert_event now uuid4 commit_event event_hash
    timestamp_or_now append_event append_events settle_created create_or_get_run digest_of
    after_decision decide_run record_policy_decision check_lease is_claimable start_execution
    claim_row claim_run claim_locked claim_execution json_or_none finish_execution
    complete_execution for_each
after_happy_stored = refl

-- Calls that come too late.
abbrev pub late : List Method
late = claims "run_1" "w2" 60 ∷ counts_duplicate "run_1" ∷ recovers none ∷ []

serve_verifies_example : verify_event_chain "run_1" after_happy ≡ (ok true, after_happy)
serve_verifies_example =
    serve_verifies test_platform-IsCanonical happy "run_1" (stored "run_1" after_happy)
      after_happy_stored

serve-IsSound_example : IsSound "run_1" (stored "run_1" after_happy)
serve-IsSound_example = serve-IsSound happy "run_1" (stored "run_1" after_happy) after_happy_stored

serve-Follows_example :
    (r : Run) × (Table.get "run_1" (serve late after_happy).db.runs ≡ some r)
    × Follows (stored "run_1" after_happy) r
serve-Follows_example =
    serve-Follows late after_happy "run_1" (stored "run_1" after_happy) after_happy_stored

serve_appends_example :
    (new : List Event) × ((serve late after_happy).db.events ≡ after_happy.db.events ++ new)
serve_appends_example = serve_appends late after_happy

after_happy_terminal : is_terminal (stored "run_1" after_happy).status ≡ true
unfolding stored is_terminal serve perform start Table.get Table.put Table.rows Table.empty strip
    select is_null digest outcome_value dump unary transaction ◌>>=◌ when select_run update_run
    run_of_identity select_identity insert_or_ignore_run events_of insert_event now uuid4
    commit_event event_hash timestamp_or_now append_event append_events settle_created
    create_or_get_run digest_of after_decision decide_run record_policy_decision check_lease
    is_claimable start_execution claim_row claim_run claim_locked claim_execution json_or_none
    finish_execution complete_execution for_each
after_happy_terminal = refl

serve_terminal_example :
    (r : Run) × (Table.get "run_1" (serve late after_happy).db.runs ≡ some r)
    × (r.status ≡ (stored "run_1" after_happy).status)
serve_terminal_example =
    serve_terminal late after_happy "run_1" (stored "run_1" after_happy) after_happy_stored
      after_happy_terminal

-- The ledger when the policy has allowed the refund.
abbrev after_policy : World
after_policy = serve (creates refund ∷ records_policy "run_1" allowing 60 ∷ []) start

first_claim : (claim_execution "run_1" "w1" 60 after_policy).0 ≡ ok true
unfolding serve perform start Table.get Table.put Table.rows Table.empty strip select is_null digest
    outcome_value dump unary transaction ◌>>=◌ when select_run update_run run_of_identity
    select_identity insert_or_ignore_run events_of insert_event now uuid4 commit_event event_hash
    timestamp_or_now append_event append_events settle_created create_or_get_run digest_of
    after_decision decide_run record_policy_decision check_lease is_claimable start_execution
    claim_row claim_run claim_locked claim_execution json_or_none finish_execution
    complete_execution for_each
first_claim = refl

claim_once_example :
    (claim_execution "run_1" "w2" 60
      (serve late (claim_execution "run_1" "w1" 60 after_policy).1)).0
    ≢ ok true
claim_once_example = claim_once "run_1" "w1" "w2" 60 60 late after_policy first_claim

-- The key of the refund, for another request.
abbrev other_refund : NewRun
other_refund = record refund { run_id = "run_2"; request_fingerprint = "f2" }

abbrev conflict_error : Error
conflict_error =
    idempotency_conflict "idempotency key was already used for a different governed request"

other_refund_conflicts : (perform (creates other_refund) after_happy).0 ≡ err conflict_error
unfolding serve perform start Table.get Table.put Table.rows Table.empty strip select is_null digest
    outcome_value dump unary transaction ◌>>=◌ when select_run update_run run_of_identity
    select_identity insert_or_ignore_run events_of insert_event now uuid4 commit_event event_hash
    timestamp_or_now append_event append_events settle_created create_or_get_run digest_of
    after_decision decide_run record_policy_decision check_lease is_claimable start_execution
    claim_row claim_run claim_locked claim_execution json_or_none finish_execution
    complete_execution for_each
other_refund_conflicts = refl

perform_atomic_example : (perform (creates other_refund) after_happy).1.db ≡ after_happy.db
perform_atomic_example =
    perform_atomic (creates other_refund) after_happy conflict_error other_refund_conflicts

other_refund-IsSerializable : IsSerializable other_refund
unfolding dump
other_refund-IsSerializable = record {
  arguments_json = "{}";
  roles_json = "[refund_agent,]";
  evidence_json = "[]";
  metadata_json = "{}";
  arguments = refl;
  roles = refl;
  evidence = refl;
  metadata = refl;
}

refund_taken :
    run_of_identity "acme" "execute_refund" "refund:acme:1" after_happy.db
    ≡ some (stored "run_1" after_happy)
unfolding stored serve perform start Table.get Table.put Table.rows Table.empty strip select is_null
    digest outcome_value dump unary transaction ◌>>=◌ when select_run update_run run_of_identity
    select_identity insert_or_ignore_run events_of insert_event now uuid4 commit_event event_hash
    timestamp_or_now append_event append_events settle_created create_or_get_run digest_of
    after_decision decide_run record_policy_decision check_lease is_claimable start_execution
    claim_row claim_run claim_locked claim_execution json_or_none finish_execution
    complete_execution for_each
refund_taken = refl

create_or_get_run_again_example : create_or_get_run other_refund after_happy ≡ (
  if (stored "run_1" after_happy).request_fingerprint == "f2"
      then ok (stored "run_1" after_happy, false)
      else conflict,
  record after_happy { ticks = after_happy.ticks + 1 },
)
create_or_get_run_again_example =
    create_or_get_run_again other_refund (stored "run_1" after_happy) after_happy
      other_refund-IsSerializable refund_taken

serve_unique_example : ◌≡◌ {A = String} "run_1" "run_1"
serve_unique_example =
    serve_unique happy "run_1" "run_1" (stored "run_1" after_happy) (stored "run_1" after_happy)
      after_happy_stored after_happy_stored refl
