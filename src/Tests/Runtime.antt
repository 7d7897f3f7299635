-- ===== src/Tests/Runtime.antt =====
-- A refund action, asked twice with one key.
use agent_trust_ops.Prelude.{
  ◌≡◌, ◌≤◌, refl, false, none, List, [], ◌∷◌, ◌==◌, length, select, strip,
}
use agent_trust_ops.Errors.{ok}
use agent_trust_ops.Json.{str, obj, object, end, digest, is_null, has_field}
use agent_trust_ops.Models.{ActionContext, outcome_value, sorted}
use agent_trust_ops.Ledger.Method.{start, serve}
use agent_trust_ops.Runtime.Action.{
  TrustedAction, returns, decides, current_result, result_from_run, result_of_run,
  arguments_with_execution_context, run_function, call_function, conclude, execute, execute_claimed,
}
use agent_trust_ops.Runtime.Operation.{Operation, invokes, operate, operation}
use agent_trust_ops.Runtime.Calls.{call_once}
use agent_trust_ops.Tests.Platform.{test_platform, dump, unary}
use agent_trust_ops.Tests.Ledger.{allowing}
use agent_trust_ops.Ledger.Table
use agent_trust_ops.Ledger.Store.{
  for_each, transaction, ◌>>=◌, when, collect, attempt, select_run, update_run, run_of_identity,
  select_identity, insert_or_ignore_run, events_of, insert_event, now, uuid4,
}
use agent_trust_ops.Ledger.Events.{
  commit_event, event_hash, timestamp_or_now, append_event, append_events,
}
use agent_trust_ops.Ledger.Runs.{
  request_fingerprint, settle_created, create_or_get_run, record_duplicate, digest_of,
  after_decision, decide_run, record_policy_decision,
}
use agent_trust_ops.Ledger.Approvals.{overdue, expire_approvals}
use agent_trust_ops.Ledger.Execution.{
  check_lease, is_claimable, start_execution, claim_row, claim_run, claim_locked, claim_execution,
  json_or_none, finish_execution, complete_execution, recover_expired_executions,
}
use agent_trust_ops.Runtime.Invoke.{
  invoke, invoke_with, prepare_invoke, key_of, new_run, after_creation, prepare_created,
  prepare_duplicate, evaluated, record_or_deny, finish_unless, execute_prepared,
}

abbrev pub refund_action : TrustedAction
refund_action = record {
  ledger = 0;
  name = "execute_refund";
  risk = "financial";
  execution_lease_seconds = 60;
  approval_ttl_seconds = 3600;
  approval_roles = "approver" ∷ [];
  reconciliation_roles = "reconciler" ∷ [];
  allow_self_approval = false;
  execution_context_parameter = none;
  is_async = false;
  function = λ before c. returns (str "paid");
  meanwhile = λ before c. [];
  evaluate = λ name arguments c. decides allowing;
  idempotency_key_factory = λ arguments c. ok "refund:acme:1";
}

abbrev pub agent : ActionContext
agent = record {
  actor_id = "agent";
  tenant_id = "acme";
  roles = "refund_agent" ∷ [];
  evidence = [];
  metadata = obj end;
}

abbrev twice : List Operation
twice =
    invokes refund_action agent (obj (object (("amount", str "5") ∷ [])))
    ∷ invokes refund_action agent (obj (object (("amount", str "5") ∷ [])))
    ∷ []

twice_calls : length (operate twice start).calls ≡ 1
unfolding operate start Table.get Table.put Table.rows Table.empty select strip digest is_null
    has_field outcome_value sorted for_each transaction ◌>>=◌ when collect attempt select_run
    update_run run_of_identity select_identity insert_or_ignore_run events_of insert_event now uuid4
    commit_event event_hash timestamp_or_now append_event append_events request_fingerprint
    settle_created create_or_get_run record_duplicate digest_of after_decision decide_run
    record_policy_decision overdue expire_approvals check_lease is_claimable start_execution
    claim_row claim_run claim_locked claim_execution json_or_none finish_execution
    complete_execution recover_expired_executions serve current_result result_from_run result_of_run
    arguments_with_execution_context run_function call_function conclude execute execute_claimed
    invoke invoke_with prepare_invoke key_of new_run after_creation prepare_created
    prepare_duplicate evaluated record_or_deny finish_unless execute_prepared operation dump unary
twice_calls = refl

call_once_example : length (select (λ c. c.run_id == "run_") (operate twice start).calls) ≤ 1
call_once_example = call_once twice "run_"
