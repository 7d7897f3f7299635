-- ===== src/Runtime/Action.antt =====
-- A trusted action, its results, and the execution of its protected function under a claim.
use agent_trust_ops.Prelude.{
  ℕ, String, Bool, true, false, not, ◌&&◌, Option, none, some, List, [], ◌∷◌, ◌++◌, ◌<>◌, strip,
  is_empty, leb, if◌then◌else◌,
}
use agent_trust_ops.Errors.{
  Error, Result, ok, err, value_error, key_error, cancelled_error, require, error_name,
  is_type_or_value_error,
}
use agent_trust_ops.Errors
use agent_trust_ops.Json.{Json, null, Platform}
use agent_trust_ops.Models.{
  ActionContext, PolicyDecision, ActionExecutionContext, ActionResult, action_execution_context,
  normalized, no_roles,
}
use agent_trust_ops.Ledger.Store.{
  Run, Call, M, pure, raise, lift, ◌>>=◌, ◌>>◌, attempt, select_run, uuid4,
}
use agent_trust_ops.Ledger.Execution.{
  claim_execution, complete_execution, fail_execution, mark_execution_unknown,
}
use agent_trust_ops.Ledger.Method.{Method, serve}

-- How a call of the protected function ends: with a value, with `IndeterminateOutcome`, with
-- another exception (each by the name of its type), or cancelled.
pub data ToolOutcome : Type 0 where
  returns : Json → ToolOutcome
  indeterminate raises : String → ToolOutcome
  cancelled : ToolOutcome

pub data PolicyReply : Type 0 where
  decides : PolicyDecision → PolicyReply
  raises : String → PolicyReply

-- The attributes of `TrustedAction`. The callables are the application's: `function` answers a call
-- in view of all calls before it, and while it runs other workers, and the heartbeat of the lease,
-- make the calls `meanwhile` of the ledger. `ledger` numbers the objects of `SQLiteActionLedger`.
pub record TrustedAction : Type 0 where
  pub ledger : ℕ
  pub name : String
  pub risk : String
  pub execution_lease_seconds : ℕ
  pub approval_ttl_seconds : ℕ
  pub approval_roles : List String
  pub reconciliation_roles : List String
  pub allow_self_approval : Bool
  pub execution_context_parameter : Option String
  pub is_async : Bool
  pub function : List Call → Call → ToolOutcome
  pub meanwhile : List Call → Call → List Method
  pub evaluate : String → Json → ActionContext → PolicyReply
  pub idempotency_key_factory : Json → ActionContext → Result String

abbrev check_parameter : (String → Bool) → Option String → Result (Option String)
check_parameter accepts none = ok none
check_parameter accepts (some name) =
    Errors.◌>>◌
      (require (not (is_empty (strip name)))
        (value_error "execution_context_parameter cannot be empty"))
      (Errors.◌>>◌
        (require (accepts (strip name))
          (value_error "protected function has no such execution context parameter"))
        (ok (some (strip name))))

-- `TrustedAction.__init__`. `accepts` says which names are keyword parameters of the function.
unfoldable pub trusted_action : (String → Bool) → TrustedAction → Result TrustedAction
trusted_action accepts a =
    Errors.◌>>◌ (require (not (is_empty (strip a.risk))) (value_error "risk cannot be empty")) (
      Errors.◌>>◌
        (require (not (is_empty (strip a.name))) (value_error "action name cannot be empty"))
        (Errors.◌>>◌
          (require (leb 1 a.execution_lease_seconds && leb a.execution_lease_seconds 86400)
            (value_error "execution_lease_seconds must be between 1 and 86400"))
          (Errors.◌>>◌
            (require (leb 1 a.approval_ttl_seconds && leb a.approval_ttl_seconds 604800)
              (value_error "approval_ttl_seconds must be between 1 and 604800"))
            (Errors.◌>>◌
              (require
                (not (no_roles (normalized a.approval_roles))
                  && not (no_roles (normalized a.reconciliation_roles)))
                (value_error "approval and reconciliation roles cannot be empty"))
              (Errors.◌>>=◌ (check_parameter accepts a.execution_context_parameter) (λ parameter.
                ok (record a {
                  name = strip a.name;
                  risk = strip a.risk;
                  approval_roles = normalized a.approval_roles;
                  reconciliation_roles = normalized a.reconciliation_roles;
                  execution_context_parameter = parameter;
                })))))))

module _ ⦃p : Platform⦄ where
  value_of : Option String → Json
  value_of none = null
  value_of (some t) = p.loads t

  -- `_result_from_run`, of a run that was read.
  unfoldable pub result_of_run : Bool → Run → ActionResult
  unfolding value_of
  result_of_run duplicate r = record {
    run_id = r.run_id;
    action_name = r.action_name;
    status = r.status;
    idempotency_key = r.idempotency_key;
    policy_version = r.policy_version;
    reason = r.reason;
    value = value_of r.result_json;
    duplicate = duplicate;
    attempt = r.attempt;
  }

  unfoldable pub result_from_run : Bool → Option Run → Result ActionResult
  unfolding result_of_run
  result_from_run duplicate none = err (key_error "run not found")
  result_from_run duplicate (some r) = ok (result_of_run duplicate r)

  -- `self._result_from_run(self.ledger.get_run(run_id), duplicate=...)`
  unfoldable pub current_result : String → Bool → M ActionResult
  unfolding result_from_run
  current_result run_id duplicate = do run ← select_run run_id; lift (result_from_run duplicate run)

  unfoldable pub context_of :
      String → Option Run → Result (Option (String × ActionExecutionContext))
  context_of parameter none = err (key_error "run not found")
  context_of parameter (some r) =
      Errors.◌>>=◌
        (action_execution_context (record {
          run_id = r.run_id;
          action_name = r.action_name;
          tenant_id = r.tenant_id;
          idempotency_key = r.idempotency_key;
          attempt = r.attempt;
        }))
        (λ context. ok (some (parameter, context)))

  -- `_arguments_with_execution_context`
  unfoldable pub arguments_with_execution_context : Option String → String → Json → M Call
  unfolding context_of
  arguments_with_execution_context none run_id arguments =
      pure (record { run_id = run_id; arguments = arguments; context = none })
  arguments_with_execution_context (some parameter) run_id arguments = do
    run ← select_run run_id
    context ← lift (context_of parameter run)
    pure (record { run_id = run_id; arguments = arguments; context = context })

  -- The call itself, with what happens in the ledger while it runs.
  unfoldable pub call_function : TrustedAction → Call → M ToolOutcome
  call_function a c w =
      let w' = serve (a.meanwhile w.calls c) w in
      (ok (a.function w.calls c), record w' { calls = w.calls ++ c ∷ [] })

  -- The body of the `with _LeaseHeartbeat(...)` block.
  unfoldable pub run_function : TrustedAction → Result Call → M ToolOutcome
  unfolding call_function
  run_function a (err e) = pure (ToolOutcome.raises (error_name e))
  run_function a (ok c) = call_function a c

  unfoldable pub mark_unknown : String → String → String → M ActionResult
  unfolding current_result
  mark_unknown run_id owner error_type = do
    mark_execution_unknown run_id owner error_type
    current_result run_id false

  abbrev pub completed_or : String → String → Result (Unit {0}) → M ActionResult
  completed_or run_id owner (ok u) = current_result run_id false
  completed_or run_id owner (err e) =
      if is_type_or_value_error e
      then mark_unknown run_id owner "ResultSerializationError"
      else raise e

  -- The handlers of `_execute`, and of `_execute_async`, which alone catches a cancellation.
  unfoldable pub conclude : TrustedAction → String → String → ToolOutcome → M ActionResult
  unfolding mark_unknown
  conclude a run_id owner (indeterminate name) = mark_unknown run_id owner name
  conclude a run_id owner (ToolOutcome.raises name) = do
    fail_execution run_id owner name
    current_result run_id false
  conclude a run_id owner cancelled =
      if a.is_async
      then (do mark_unknown run_id owner "CancelledError"; raise cancelled_error)
      else raise cancelled_error
  conclude a run_id owner (returns v) = do
    r ← attempt (complete_execution run_id owner v)
    completed_or run_id owner r

  unfoldable pub execute_claimed : Bool → TrustedAction → String → String → Json → M ActionResult
  unfolding arguments_with_execution_context run_function conclude
  execute_claimed false a run_id owner arguments = current_result run_id true
  execute_claimed true a run_id owner arguments = do
    c ← attempt (arguments_with_execution_context a.execution_context_parameter run_id arguments)
    outcome ← run_function a c
    conclude a run_id owner outcome

  -- `_execute` and `_execute_async`
  unfoldable pub execute : TrustedAction → String → Json → M ActionResult
  unfolding execute_claimed
  execute a run_id arguments = do
    suffix ← uuid4
    let owner = "worker_" <> suffix
    claimed ← claim_execution run_id owner a.execution_lease_seconds
    execute_claimed claimed a run_id owner arguments
