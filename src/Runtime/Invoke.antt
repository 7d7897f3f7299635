-- ===== src/Runtime/Invoke.antt =====
-- `_prepare_invoke`, the four ways to invoke a trusted action, and `resume`, of runtime.py.
use agent_trust_ops.Prelude.{
  String, Bool, true, false, not, Option, none, some, ◌∷◌, [], ◌<>◌, strip, is_empty, ◌==◌,
  if◌then◌else◌, ◌⊎◌, inl, inr,
}
use agent_trust_ops.Errors.{
  Result, ok, err, value_error, type_error, key_error, require, error_name, is_type_or_value_error,
}
use agent_trust_ops.Json.{Json, str, obj, object, Platform, has_field}
use agent_trust_ops.Models.{
  approved, completed, is_status, allow, deny, PolicyOutcome, PolicyDecision, policy_decision,
  ActionContext, ActionResult,
}
use agent_trust_ops.Ledger.Store.{
  Run, M, pure, raise, lift, ◌>>=◌, ◌>>◌, attempt, select_run, uuid4,
}
use agent_trust_ops.Ledger.Runs.{
  NewRun, request_fingerprint, create_or_get_run, record_duplicate, record_policy_decision,
}
use agent_trust_ops.Ledger.Approvals.{expire_approvals}
use agent_trust_ops.Ledger.Execution.{recover_expired_executions}
use agent_trust_ops.Runtime.Action.{
  TrustedAction, PolicyReply, decides, result_of_run, current_result, execute,
}

-- What a preparation ends in: a result, or the run that may now be executed.
pub data Prepared : Type 0 where
  finished : ActionResult → Prepared
  ready : String → Prepared

-- `idempotency_key_override`, or else what the factory answers.
unfoldable pub key_of : TrustedAction → Option String → Json → ActionContext → Result String
key_of a none arguments c = a.idempotency_key_factory arguments c
key_of a (some key) arguments c = ok key

-- Whether the caller passes an argument under the parameter of the execution context.
abbrev pub injects : Option String → Json → Bool
injects none arguments = false
injects (some parameter) arguments = has_field parameter arguments

abbrev pub is_allow : PolicyOutcome → Bool
is_allow allow = true
is_allow _ = false

module _ ⦃p : Platform⦄ where
  -- The decision that denies when a policy fails, or its decision cannot be stored.
  unfoldable pub denial : String → String → Result PolicyDecision
  denial what name = policy_decision (record {
    outcome = deny;
    reason = what <> name;
    policy_version = "policy-error";
    facts = obj (object (("error_type", str name) ∷ []));
    policy_digest = none;
  })

  unfoldable pub evaluated : PolicyReply → Result PolicyDecision
  unfolding denial
  evaluated (decides d) = ok d
  evaluated (PolicyReply.raises name) = denial "policy evaluation failed: " name

  -- What follows the first attempt to record a decision.
  unfoldable pub record_or_deny :
      TrustedAction → String → PolicyDecision → Result (Unit {0}) → M PolicyDecision
  unfolding denial
  record_or_deny a run_id d (ok u) = pure d
  record_or_deny a run_id d (err e) =
      if is_type_or_value_error e
      then (do
        d' ← lift (denial "policy decision could not be serialized: " (error_name e))
        record_policy_decision run_id d' a.approval_ttl_seconds
        pure d')
      else raise e

  unfoldable pub finish_unless : Bool → String → M Prepared
  finish_unless true run_id = pure (ready run_id)
  finish_unless false run_id = do result ← current_result run_id false; pure (finished result)

  -- The part of `_prepare_invoke` for a run that was created by this call.
  unfoldable pub prepare_created : TrustedAction → String → Json → ActionContext → M Prepared
  unfolding evaluated record_or_deny finish_unless
  prepare_created a run_id arguments c = do
    d ← lift (evaluated (a.evaluate a.name arguments c))
    recorded ← attempt (record_policy_decision run_id d a.approval_ttl_seconds)
    d' ← record_or_deny a run_id d recorded
    finish_unless (is_allow d'.outcome) run_id

  -- The part for a run that was there.
  unfoldable pub prepare_duplicate : String → ActionContext → M Prepared
  prepare_duplicate run_id c = do
    expire_approvals (some c.tenant_id)
    recover_expired_executions (some c.tenant_id)
    record_duplicate run_id
    result ← current_result run_id true
    pure (finished result)

  unfoldable pub after_creation :
      TrustedAction → String → Json → ActionContext → Run × Bool → M Prepared
  unfolding prepare_created prepare_duplicate
  after_creation a run_id arguments c (r, true) = prepare_created a run_id arguments c
  after_creation a run_id arguments c (r, false) = prepare_duplicate r.run_id c

  -- The arguments of `create_or_get_run`.
  unfoldable pub new_run : TrustedAction → String → String → String → Json → ActionContext → NewRun
  new_run a run_id key fingerprint arguments c = record {
    run_id = run_id;
    tenant_id = c.tenant_id;
    actor_id = c.actor_id;
    roles = c.roles;
    evidence = c.evidence;
    action_name = a.name;
    risk = a.risk;
    idempotency_key = key;
    request_fingerprint = fingerprint;
    arguments = arguments;
    metadata = c.metadata;
  }

  -- `_prepare_invoke`
  unfoldable pub prepare_invoke : TrustedAction → ActionContext → Json → Option String → M Prepared
  unfolding key_of new_run after_creation
  prepare_invoke a c arguments override = do
    lift (
        require (not (injects a.execution_context_parameter arguments))
          (value_error "execution context is supplied only by AgentTrustOps"))
    key ← lift (key_of a override arguments c)
    lift (require (not (is_empty (strip key))) (value_error "idempotency key cannot be empty"))
    fingerprint ← lift (
        request_fingerprint c.tenant_id c.actor_id c.roles c.evidence a.name a.risk arguments
          c.metadata)
    suffix ← uuid4
    let run_id = "run_" <> suffix
    found ← create_or_get_run (new_run a run_id (strip key) fingerprint arguments c)
    after_creation a run_id arguments c found

  -- `if isinstance(prepared, ActionResult): return prepared`, and else the execution.
  unfoldable pub execute_prepared : TrustedAction → Json → Prepared → M ActionResult
  execute_prepared a arguments (finished result) = pure result
  execute_prepared a arguments (ready run_id) = execute a run_id arguments

  unfoldable pub invoke_with : TrustedAction → ActionContext → Json → Option String → M ActionResult
  unfolding prepare_invoke execute_prepared
  invoke_with a c arguments override = do
    prepared ← prepare_invoke a c arguments override
    execute_prepared a arguments prepared

  unfoldable pub invoke : TrustedAction → ActionContext → Json → M ActionResult
  unfolding invoke_with
  invoke a c arguments = do
    lift (
        require (not a.is_async)
          (type_error "async trusted actions require 'await .invoke_async(...)'"))
    invoke_with a c arguments none

  unfoldable pub invoke_request : TrustedAction → ActionContext → Json → String → M ActionResult
  unfolding invoke_with
  invoke_request a c arguments key = do
    lift (
        require (not a.is_async)
          (type_error "async trusted actions require 'await .invoke_request_async(...)'"))
    invoke_with a c arguments (some key)

  unfoldable pub invoke_async : TrustedAction → ActionContext → Json → M ActionResult
  unfolding invoke_with
  invoke_async a c arguments = do
    lift (require a.is_async (type_error "sync trusted actions require '.invoke(...)'"))
    invoke_with a c arguments none

  unfoldable pub invoke_request_async :
      TrustedAction → ActionContext → Json → String → M ActionResult
  unfolding invoke_with
  invoke_request_async a c arguments key = do
    lift (require a.is_async (type_error "sync trusted actions require '.invoke_request(...)'"))
    invoke_with a c arguments (some key)

  -- What `_prepare_resume` answers: a result, or the run to execute.
  unfoldable pub check_resume : TrustedAction → Option Run → Result (ActionResult ⊎ Run)
  check_resume a none = err (key_error "run not found")
  check_resume a (some r) =
      if not (r.action_name == a.name)
      then err (value_error "run belongs to a different action")
      else (if is_status r.status completed
          then ok (inl (result_of_run true r))
          else (if is_status r.status approved
              then ok (inr r)
              else err (value_error "run must be approved before it can resume")))

  unfoldable pub prepare_resume : TrustedAction → String → M (ActionResult ⊎ Run)
  unfolding check_resume
  prepare_resume a run_id = do run ← select_run run_id; lift (check_resume a run)

  unfoldable pub resume_run : TrustedAction → ActionResult ⊎ Run → M ActionResult
  resume_run a (inl result) = pure result
  resume_run a (inr r) = execute a r.run_id (p.loads r.arguments_json)

  unfoldable pub resume : TrustedAction → String → M ActionResult
  unfolding prepare_resume resume_run
  resume a run_id = do
    lift (
        require (not a.is_async)
          (type_error "async trusted actions require 'await .resume_async(...)'"))
    prepared ← prepare_resume a run_id
    resume_run a prepared

  unfoldable pub resume_async : TrustedAction → String → M ActionResult
  unfolding prepare_resume resume_run
  resume_async a run_id = do
    lift (require a.is_async (type_error "sync trusted actions require '.resume(...)'"))
    prepared ← prepare_resume a run_id
    resume_run a prepared
