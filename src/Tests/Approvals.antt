-- ===== src/Tests/Approvals.antt =====
-- The refund, where the policy asks for an approval.
use agent_trust_ops.Prelude.{◌*◌, ◌≡◌, refl, true, false, [], ◌∷◌, strip, select, contains, shares}
use agent_trust_ops.Errors.{ok}
use agent_trust_ops.Json.{is_null, digest}
use agent_trust_ops.Models.{approval_required, PolicyDecision, outcome_value}
use agent_trust_ops.Ledger.Table
use agent_trust_ops.Ledger.Store.{
  World, for_each, transaction, ◌>>=◌, when, select_run, select_approval, update_run,
  update_approval, run_of_identity, select_identity, insert_or_ignore_run, insert_approval,
  events_of, insert_event, now, uuid4,
}
use agent_trust_ops.Ledger.Events.{commit_event, event_hash, timestamp_or_now, append_event}
use agent_trust_ops.Ledger.Runs.{
  settle_created, create_or_get_run, digest_of, after_decision, decide_run, record_policy_decision,
}
use agent_trust_ops.Ledger.Approvals.{
  Decision, is_bound, decide_run_status, record_decision, decide_waiting, decide_joined,
  decide_approval, expire_decided,
}
use agent_trust_ops.Ledger.Method.{creates, records_policy, start, serve, perform}
use agent_trust_ops.Ledger.Authorization.{Authorized, decide_approval-IsAuthorized}
use agent_trust_ops.Tests.Platform.{dump, unary, test_platform}
use agent_trust_ops.Tests.Ledger.{refund, allowing}

abbrev asking : PolicyDecision
asking = record allowing { outcome = approval_required }

abbrev waiting : World
waiting = serve (creates refund ∷ records_policy "run_1" asking 60 ∷ []) start

abbrev approval : Decision
approval = record {
  approves = true;
  principal = record {
    actor_id = "manager";
    tenant_id = "acme";
    roles = "approver" ∷ [];
    auth_source = "oidc";
  };
  note = "fine";
  required_roles = "approver" ∷ [];
  allow_self_approval = false;
}

approval_succeeds : (decide_approval "run_1" approval waiting).0 ≡ ok true
unfolding serve perform start Table.get Table.put Table.rows Table.empty strip select contains
    shares is_null digest outcome_value dump unary for_each transaction ◌>>=◌ when select_run
    select_approval update_run update_approval run_of_identity select_identity insert_or_ignore_run
    insert_approval events_of insert_event now uuid4 commit_event event_hash timestamp_or_now
    append_event settle_created create_or_get_run digest_of after_decision decide_run
    record_policy_decision is_bound decide_run_status record_decision decide_waiting decide_joined
    decide_approval expire_decided
approval_succeeds = refl

decide_approval-IsAuthorized_example :
    Authorized approval
      (Table.get "run_1" waiting.db.runs)
      (Table.get "run_1" waiting.db.approvals)
      (waiting.ticks * 2)
decide_approval-IsAuthorized_example =
    decide_approval-IsAuthorized "run_1" approval waiting approval_succeeds
