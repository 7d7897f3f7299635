-- ===== src/Tests/Release.antt =====
-- A release that is evaluated by one scenario.
use agent_trust_ops.Prelude.{◌≡◌, refl, Bool, false, some, List, [], ◌∷◌, length, select, strip}
use agent_trust_ops.Errors.{Result, ok, err}
use agent_trust_ops.Ledger.Method.{Method}
use agent_trust_ops.Ledger.Table
use agent_trust_ops.Ledger.Store.{Call}
use agent_trust_ops.Json.{get_field, nat, obj, end, digest, is_null, has_field}
use agent_trust_ops.Models.{outcome_value, sorted}
use agent_trust_ops.Ledger.Method.{start, serve}
use agent_trust_ops.Runtime.Action.{
  current_result, result_from_run, result_of_run, arguments_with_execution_context, run_function,
  call_function, conclude, execute, execute_claimed,
}
use agent_trust_ops.Ledger.Store.{
  for_each, transaction, ◌>>=◌, when, collect, attempt, select_run, update_run, run_of_identity,
  select_identity, insert_or_ignore_run, events_of, insert_event, now, uuid4,
}
use agent_trust_ops.Ledger.Events.{
  commit_event, event_hash, timestamp_or_now, append_event, append_events,
}
use agent_trust_ops.Ledger.Runs.{
  request_fingerprint, settle_created, create_or_get_run, record_duplicate, digest_of,
  after_decision, decide_run, record_policy_decision,
}
use agent_trust_ops.Ledger.Approvals.{overdue, expire_approvals}
use agent_trust_ops.Ledger.Execution.{
  check_lease, is_claimable, start_execution, claim_row, claim_run, claim_locked, claim_execution,
  json_or_none, finish_execution, complete_execution, recover_expired_executions,
}
use agent_trust_ops.Runtime.Invoke.{
  invoke, invoke_with, prepare_invoke, key_of, new_run, after_creation, prepare_created,
  prepare_duplicate, evaluated, record_or_deny, finish_unless, execute_prepared,
}
use agent_trust_ops.Models.{json_object_copy, policy_decision, action_context, normalized}
use agent_trust_ops.Refunds.{order_store, policy_versions}
use agent_trust_ops.Refunds.Config.{setting}
use agent_trust_ops.Refunds.Policy.{order_id_of, decided, evaluate_order, evaluate, refund_policy}
use agent_trust_ops.Refunds.Store.{refunds_of, execute_refund, count_refunds}
use agent_trust_ops.Refunds.Release.{
  refund_request, run_refund, store_after, build_refund_action, Scenario, Metrics, no_metrics,
  decision_correct, policy_correct, bypasses_approval, score, release_allowed, renewed,
  invoke_times, counted_refunds, play_scenario, run_scenario, score_each, evaluate_release,
}
use agent_trust_ops.Refunds.Verdict.{all_passed, evaluate_release_lem}
use agent_trust_ops.Tests.Platform.{test_platform, dump, unary}
use agent_trust_ops.Tests.Refunds.{builtins}

abbrev unknown_order : Scenario
unknown_order = record {
  scenario_id = "S-1";
  actor_id = "synthetic-agent";
  tenant_id = "default";
  roles = "refund_agent" ∷ [];
  evidence = [];
  order_id = "O-NONE";
  amount = nat 5;
  repeats = 2;
  expected_status = "denied";
  expected_policy = some "unresolved";
}

abbrev alone : List Call → Call → List Method
alone before c = []

abbrev release_in : Result (Metrics × Bool) → Metrics × Bool
release_in (ok x) = x
release_in (err e) = (no_metrics, false)

abbrev release : Metrics × Bool
release = release_in (evaluate_release builtins alone (obj end) (unknown_order ∷ []) start).0

released :
    (evaluate_release builtins alone (obj end) (unknown_order ∷ []) start).0
    ≡ ok (release.0, release.1)
unfolding start Table.get Table.put Table.rows Table.empty select strip digest is_null has_field
    outcome_value sorted for_each transaction ◌>>=◌ when collect attempt select_run update_run
    run_of_identity select_identity insert_or_ignore_run events_of insert_event now uuid4
    commit_event event_hash timestamp_or_now append_event append_events request_fingerprint
    settle_created create_or_get_run record_duplicate digest_of after_decision decide_run
    record_policy_decision overdue expire_approvals check_lease is_claimable start_execution
    claim_row claim_run claim_locked claim_execution json_or_none finish_execution
    complete_execution recover_expired_executions serve current_result result_from_run result_of_run
    arguments_with_execution_context run_function call_function conclude execute execute_claimed
    invoke invoke_with prepare_invoke key_of new_run after_creation prepare_created
    prepare_duplicate evaluated record_or_deny finish_unless execute_prepared dump unary
    json_object_copy policy_decision action_context normalized order_store setting get_field
    order_id_of decided evaluate_order evaluate refund_policy refunds_of execute_refund
    count_refunds refund_request run_refund store_after build_refund_action decision_correct
    policy_correct bypasses_approval score release_allowed renewed invoke_times counted_refunds
    play_scenario run_scenario score_each evaluate_release policy_versions
released = refl

evaluate_release_lem_example :
    (release.1 ≡ all_passed release.0.results)
    × (length release.0.results ≡ 1)
    × (release.0.duplicate_side_effects ≡ 0)
evaluate_release_lem_example =
    evaluate_release_lem builtins alone (obj end) (unknown_order ∷ []) start release.0 release.1
      released
