-- ===== src/Ledger/Silence/Methods.antt =====
-- The methods of ledger.py, by the rules of silence.
use agent_trust_ops.Prelude.{ℕ, String, Bool, true, false, Option, none, some, List}
use agent_trust_ops.Json.{Json, Platform}
use agent_trust_ops.Models.{
  ActionStatus, PolicyOutcome, allow, deny, approval_required, PolicyDecision, VerifiedPrincipal,
}
use agent_trust_ops.Ledger.Store.{Run, Approval, M}
use agent_trust_ops.Ledger.Events.{Payload}
use agent_trust_ops.Ledger.Runs.{
  NewRun, settle_created, create_or_get_run, record_duplicate, after_decision, decide_run,
  record_policy_decision,
}
use agent_trust_ops.Ledger.Approvals.{
  Decision, expire_decided, decide_run_status, record_decision, decide_waiting, decide_joined,
  decide_approval, note_expired, expire_one, expire_approvals,
}
use agent_trust_ops.Ledger.Execution.{
  mark_expired_execution, start_execution, claim_row, claim_run, claim_locked, claim_execution,
  heartbeat_execution, finish_execution, complete_execution, fail_execution, mark_execution_unknown,
  recover_one, recover_expired_executions,
}
use agent_trust_ops.Ledger.Reconcile.{
  Observation, note_reconciled, reconcile_found, reconcile_run, settle_observed, observe_unknown,
  observe_found, apply_provider_observation,
}
use agent_trust_ops.Ledger.Method.{
  Method, creates, counts_duplicate, records_policy, decides, expires_approvals, claims, beats,
  completes, fails, marks_unknown, recovers, reconciles, observes, perform, quietly,
}
use agent_trust_ops.Ledger.Silence.{IsSilent, silence_rules}

module _ ⦃p : Platform⦄ where
  settle_created-IsSilent :
      (n : NewRun) (t : ℕ) (b : Bool) (o : Option Run) → IsSilent (settle_created n t b o)
  unfolding settle_created
  settle_created-IsSilent n t b none = search silence_rules depth 12
  settle_created-IsSilent n t b (some r) = search silence_rules depth 12

  pub create_or_get_run-IsSilent : (n : NewRun) → IsSilent (create_or_get_run n)
  unfolding create_or_get_run
  create_or_get_run-IsSilent n = search (silence_rules, settle_created-IsSilent) depth 20

  pub record_duplicate-IsSilent : (k : String) → IsSilent (record_duplicate k)
  unfolding record_duplicate
  record_duplicate-IsSilent k = search silence_rules depth 12

  after_decision-IsSilent :
      (o : PolicyOutcome) (k : String) (r : Run) (d : PolicyDecision) (g : String) (s e : ℕ)
      → IsSilent (after_decision o k r d g s e)
  unfolding after_decision
  after_decision-IsSilent allow k r d g s e = search silence_rules depth 12
  after_decision-IsSilent deny k r d g s e = search silence_rules depth 12
  after_decision-IsSilent approval_required k r d g s e = search silence_rules depth 12

  decide_run-IsSilent :
      (o : Option Run) (k : String) (d : PolicyDecision) (g : String) (s e : ℕ)
      → IsSilent (decide_run o k d g s e)
  unfolding decide_run
  decide_run-IsSilent none k d g s e = search silence_rules depth 12
  decide_run-IsSilent (some r) k d g s e = search (silence_rules, after_decision-IsSilent) depth 12

  pub record_policy_decision-IsSilent :
      (k : String) (d : PolicyDecision) (ttl : ℕ) → IsSilent (record_policy_decision k d ttl)
  unfolding record_policy_decision
  record_policy_decision-IsSilent k d ttl = search (silence_rules, decide_run-IsSilent) depth 16

  decide_run_status-IsSilent :
      (b : Bool) (k : String) (d : Decision) (r : Run) (t : ℕ)
      → IsSilent (decide_run_status b k d r t)
  unfolding decide_run_status
  decide_run_status-IsSilent false k d r t = search silence_rules depth 12
  decide_run_status-IsSilent true k d r t = search silence_rules depth 12

  record_decision-IsSilent :
      (k : String) (d : Decision) (r : Run) (a : Approval) (t : ℕ)
      → IsSilent (record_decision k d r a t)
  unfolding record_decision
  record_decision-IsSilent k d r a t = search (silence_rules, decide_run_status-IsSilent) depth 12

  expire_decided-IsSilent : (k : String) (a : Approval) (t : ℕ) → IsSilent (expire_decided k a t)
  unfolding expire_decided
  expire_decided-IsSilent k a t = search silence_rules depth 12

  decide_waiting-IsSilent :
      (k : String) (d : Decision) (r : Run) (a : Approval) (t : ℕ)
      → IsSilent (decide_waiting k d r a t)
  unfolding decide_waiting
  decide_waiting-IsSilent k d r a t =
      search (silence_rules, record_decision-IsSilent, expire_decided-IsSilent) depth 12

  decide_joined-IsSilent :
      (k : String) (d : Decision) (o : Option Run) (a : Option Approval) (t : ℕ)
      → IsSilent (decide_joined k d o a t)
  unfolding decide_joined
  decide_joined-IsSilent k d none a t = search silence_rules depth 12
  decide_joined-IsSilent k d (some r) none t = search silence_rules depth 12
  decide_joined-IsSilent k d (some r) (some a) t =
      search (silence_rules, decide_waiting-IsSilent) depth 12

  pub decide_approval-IsSilent : (k : String) (d : Decision) → IsSilent (decide_approval k d)
  unfolding decide_approval
  decide_approval-IsSilent k d = search (silence_rules, decide_joined-IsSilent) depth 12

  note_expired-IsSilent : (b c : Bool) (a : Approval) → IsSilent (note_expired b c a)
  unfolding note_expired
  note_expired-IsSilent true true a = search silence_rules depth 12
  note_expired-IsSilent false false a = search silence_rules depth 12
  note_expired-IsSilent _ _ a = search silence_rules depth 12

  pub expire_approvals-IsSilent : (tenant : Option String) → IsSilent (expire_approvals tenant)
  unfolding expire_approvals expire_one
  expire_approvals-IsSilent tenant = search (silence_rules, note_expired-IsSilent) depth 16

  mark_expired_execution-IsSilent : (k : String) (t : ℕ) → IsSilent (mark_expired_execution k t)
  unfolding mark_expired_execution
  mark_expired_execution-IsSilent k t = search silence_rules depth 12

  start_execution-IsSilent :
      (b : Bool) (k owner : String) (r : Run) (lease : ℕ)
      → IsSilent (start_execution b k owner r lease)
  unfolding start_execution
  start_execution-IsSilent false k owner r lease = search silence_rules depth 12
  start_execution-IsSilent true k owner r lease = search silence_rules depth 12

  claim_run-IsSilent :
      (o : Option Run) (k owner : String) (t lease : ℕ) → IsSilent (claim_run o k owner t lease)
  unfolding claim_run claim_row
  claim_run-IsSilent none k owner t lease = search silence_rules depth 12
  claim_run-IsSilent (some r) k owner t lease =
      search (silence_rules, mark_expired_execution-IsSilent, start_execution-IsSilent) depth 12

  pub claim_execution-IsSilent : (k owner : String) (n : ℕ) → IsSilent (claim_execution k owner n)
  unfolding claim_execution claim_locked
  claim_execution-IsSilent k owner n = search (silence_rules, claim_run-IsSilent) depth 12

  pub heartbeat_execution-IsSilent :
      (k owner : String) (n : ℕ) → IsSilent (heartbeat_execution k owner n)
  unfolding heartbeat_execution
  heartbeat_execution-IsSilent k owner n = search silence_rules depth 12

  finish_execution-IsSilent :
      (k owner : String) (s : ActionStatus) (why : Option String) (v : Json)
      (l : List (String × Payload))
      → IsSilent (finish_execution k owner s why v l)
  unfolding finish_execution
  finish_execution-IsSilent k owner s why v l = search silence_rules depth 16

  pub complete_execution-IsSilent :
      (k owner : String) (v : Json) → IsSilent (complete_execution k owner v)
  unfolding complete_execution
  complete_execution-IsSilent k owner v = search (silence_rules, finish_execution-IsSilent) depth 12

  pub fail_execution-IsSilent : (k owner e : String) → IsSilent (fail_execution k owner e)
  unfolding fail_execution
  fail_execution-IsSilent k owner e = search (silence_rules, finish_execution-IsSilent) depth 12

  pub mark_execution_unknown-IsSilent :
      (k owner e : String) → IsSilent (mark_execution_unknown k owner e)
  unfolding mark_execution_unknown
  mark_execution_unknown-IsSilent k owner e =
      search (silence_rules, finish_execution-IsSilent) depth 12

  pub recover_expired_executions-IsSilent :
      (tenant : Option String) → IsSilent (recover_expired_executions tenant)
  unfolding recover_expired_executions recover_one
  recover_expired_executions-IsSilent tenant =
      search (silence_rules, mark_expired_execution-IsSilent) depth 12

  note_reconciled-IsSilent :
      (b : Bool) (k : String) (s : ActionStatus) (why : String) (v : VerifiedPrincipal)
      → IsSilent (note_reconciled b k s why v)
  unfolding note_reconciled
  note_reconciled-IsSilent false k s why v = search silence_rules depth 12
  note_reconciled-IsSilent true k s why v = search silence_rules depth 12

  reconcile_found-IsSilent :
      (o : Option Run) (k : String) (s : ActionStatus) (why : String) (result : Option String)
      (v : VerifiedPrincipal)
      → IsSilent (reconcile_found o k s why result v)
  unfolding reconcile_found
  reconcile_found-IsSilent none k s why result v = search silence_rules depth 12
  reconcile_found-IsSilent (some r) k s why result v =
      search (silence_rules, note_reconciled-IsSilent) depth 12

  pub reconcile_run-IsSilent :
      (k : String) (s : ActionStatus) (why : String) (v : Json) (u : VerifiedPrincipal)
      → IsSilent (reconcile_run k s why v u)
  unfolding reconcile_run
  reconcile_run-IsSilent k s why v u = search (silence_rules, reconcile_found-IsSilent) depth 12

  settle_observed-IsSilent :
      (o : Option ActionStatus) (k : String) (ob : Observation) (result : Option String)
      (v : VerifiedPrincipal)
      → IsSilent (settle_observed o k ob result v)
  unfolding settle_observed
  settle_observed-IsSilent none k ob result v = search silence_rules depth 12
  settle_observed-IsSilent (some s) k ob result v = search silence_rules depth 12

  observe_found-IsSilent :
      (o : Option Run) (k : String) (ob : Observation) (result : Option String)
      (v : VerifiedPrincipal)
      → IsSilent (observe_found o k ob result v)
  unfolding observe_found observe_unknown
  observe_found-IsSilent none k ob result v = search silence_rules depth 12
  observe_found-IsSilent (some r) k ob result v =
      search (silence_rules, settle_observed-IsSilent) depth 12

  pub apply_provider_observation-IsSilent :
      (k : String) (ob : Observation) (v : VerifiedPrincipal)
      → IsSilent (apply_provider_observation k ob v)
  unfolding apply_provider_observation
  apply_provider_observation-IsSilent k ob v =
      search (silence_rules, observe_found-IsSilent) depth 16

  quietly-IsSilent : {A : Type 0} (m : M A) → IsSilent m → IsSilent (quietly m)
  quietly-IsSilent m k = search silence_rules depth 4

  pub perform-IsSilent : (m : Method) → IsSilent (perform m)
  unfolding perform
  perform-IsSilent (creates n) = quietly-IsSilent _ (create_or_get_run-IsSilent n)
  perform-IsSilent (counts_duplicate k) = record_duplicate-IsSilent k
  perform-IsSilent (records_policy k d ttl) = record_policy_decision-IsSilent k d ttl
  perform-IsSilent (decides k d) = quietly-IsSilent _ (decide_approval-IsSilent k d)
  perform-IsSilent (expires_approvals tenant) =
      quietly-IsSilent _ (expire_approvals-IsSilent tenant)
  perform-IsSilent (claims k owner n) = quietly-IsSilent _ (claim_execution-IsSilent k owner n)
  perform-IsSilent (beats k owner n) = quietly-IsSilent _ (heartbeat_execution-IsSilent k owner n)
  perform-IsSilent (completes k owner v) = complete_execution-IsSilent k owner v
  perform-IsSilent (fails k owner e) = fail_execution-IsSilent k owner e
  perform-IsSilent (marks_unknown k owner e) = mark_execution_unknown-IsSilent k owner e
  perform-IsSilent (recovers tenant) =
      quietly-IsSilent _ (recover_expired_executions-IsSilent tenant)
  perform-IsSilent (reconciles k s why v u) =
      quietly-IsSilent _ (reconcile_run-IsSilent k s why v u)
  perform-IsSilent (observes k o v) = quietly-IsSilent _ (apply_provider_observation-IsSilent k o v)
