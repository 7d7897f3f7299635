-- ===== src/Refunds/Release.antt =====
-- The refund action of refund_ops.py, and `evaluate_release`.
use agent_trust_ops.Prelude.{
  ℕ, zero, suc, ◌+◌, ◌-◌, String, Bool, true, false, not, ◌&&◌, Option, none, some, List, [], ◌∷◌,
  ◌++◌, ◌==◌, ◌<>◌, leb, ltb, nat_eq, opt_eq, if◌then◌else◌,
}
use agent_trust_ops.Errors.{Error, Result, ok, err, type_error, key_error, error_name}
use agent_trust_ops.Errors
use agent_trust_ops.Json.{Json, str, nat, obj, object, end, get_field, Platform}
use agent_trust_ops.Models.{
  pending_approval, completed, is_status, status_value, PolicyDecision, ActionContext,
  action_context, ActionResult,
}
use agent_trust_ops.Ledger.Store.{Call, M, pure, lift, gets, ◌>>=◌, ◌>>◌}
use agent_trust_ops.Ledger.Method.{Method, start}
use agent_trust_ops.Runtime.Action.{TrustedAction, ToolOutcome, PolicyReply, returns, decides}
use agent_trust_ops.Runtime.Invoke.{invoke}
use agent_trust_ops.Refunds.{Builtins, order_store}
use agent_trust_ops.Refunds.Config.{RefundPolicy}
use agent_trust_ops.Refunds.Policy.{refund_policy, evaluate, shown_text}
use agent_trust_ops.Refunds.Store.{
  Amount, real, text, Refund, RefundStore, empty_store, execute_refund, count_refunds,
}

-- The value that is bound to the column `amount`.
abbrev pub bound_amount : Builtins → Json → Result Amount
bound_amount b (str s) = ok (text s)
bound_amount b v = Errors.◌>>=◌ (b.float_of v) (λ x. ok (real x))

abbrev argument : String → Json → Result Json
argument name v = elim (get_field name v) [
  | none ↦ err (type_error "missing a required argument")
  | some x ↦ ok x
]

-- The order and the amount of a call of `execute_refund`.
unfoldable pub refund_request : Builtins → Json → Result (String × Json)
refund_request b arguments =
    Errors.◌>>=◌ (argument "order_id" arguments)
      (λ k. Errors.◌>>=◌ (argument "amount" arguments) (λ v. ok (shown_text b k, v)))

abbrev made_refund : Json → Result Refund → Result Json
made_refund amount (err e) = err e
made_refund amount (ok r) = ok (
    obj (
      object
        (("refund_id", nat r.refund_id) ∷ ("order_id", str r.order_id) ∷ ("amount", amount) ∷ [])))

abbrev pub insert_refund : String → Json → Result Amount → RefundStore → Result Json × RefundStore
insert_refund k v (err e) s = (err e, s)
insert_refund k v (ok amount) s = let (r, s') = execute_refund k amount s in (made_refund v r, s')

abbrev pub serve_refund :
    Builtins → Result (String × Json) → RefundStore → Result Json × RefundStore
serve_refund b (err e) s = (err e, s)
serve_refund b (ok (k, v)) s = insert_refund k v (bound_amount b v) s

-- One call, on the store that the calls before it have left.
unfoldable pub run_refund : Builtins → Json → RefundStore → Result Json × RefundStore
unfolding refund_request
run_refund b arguments s = serve_refund b (refund_request b arguments) s

unfoldable pub store_after : Builtins → List Call → RefundStore → RefundStore
unfolding run_refund
store_after b [] s = s
store_after b (c ∷ l) s = store_after b l (run_refund b c.arguments s).1

abbrev outcome_of : Result Json → ToolOutcome
outcome_of (ok v) = returns v
outcome_of (err e) = ToolOutcome.raises (error_name e)

abbrev reply_of : Result PolicyDecision → PolicyReply
reply_of (ok d) = decides d
reply_of (err e) = PolicyReply.raises (error_name e)

-- `f"refund:{context.tenant_id}:{arguments['order_id']}"`
abbrev refund_key : Builtins → ActionContext → Option Json → Result String
refund_key b c none = err (key_error "order_id")
refund_key b c (some k) = ok ("refund:" <> (c.tenant_id <> (":" <> shown_text b k)))

module _ ⦃p : Platform⦄ where
  -- `build_refund_action_on_ledger`, with the defaults of `trusted_action`. While the function runs,
  -- others call the ledger as `meanwhile` says. There is one ledger, number 0.
  unfoldable pub build_refund_action :
      Builtins → (List Call → Call → List Method) → RefundPolicy → TrustedAction
  unfolding store_after
  build_refund_action b meanwhile policy = record {
    ledger = 0;
    name = "execute_refund";
    risk = "financial";
    execution_lease_seconds = 60;
    approval_ttl_seconds = 3600;
    approval_roles = "agenttrustops_approver" ∷ [];
    reconciliation_roles = "agenttrustops_reconciler" ∷ [];
    allow_self_approval = false;
    execution_context_parameter = none;
    is_async = false;
    function =
        λ before c. outcome_of (run_refund b c.arguments (store_after b before empty_store)).0;
    meanwhile = meanwhile;
    evaluate = λ name arguments c. reply_of (evaluate b policy name arguments c);
    idempotency_key_factory = λ arguments c. refund_key b c (get_field "order_id" arguments);
  }

-- A scenario of the document, with the defaults of its `get` calls filled in.
pub record Scenario : Type 0 where
  pub scenario_id : String
  pub actor_id : String
  pub tenant_id : String
  pub roles : List String
  pub evidence : List String
  pub order_id : String
  pub amount : Json
  pub repeats : ℕ
  pub expected_status : String
  pub expected_policy : Option String

pub record ScenarioResult : Type 0 where
  pub scenario_id : String
  pub expected_status : String
  pub actual_status : String
  pub expected_policy : Option String
  pub actual_policy : Option String
  pub refund_count : ℕ
  pub passed : Bool

pub record Metrics : Type 0 where
  pub scenarios : ℕ
  pub wrong_decisions : ℕ
  pub wrong_policy_decisions : ℕ
  pub approval_bypasses : ℕ
  pub duplicate_side_effects : ℕ
  pub results : List ScenarioResult

abbrev pub no_metrics : Metrics
no_metrics = record {
  scenarios = 0;
  wrong_decisions = 0;
  wrong_policy_decisions = 0;
  approval_bypasses = 0;
  duplicate_side_effects = 0;
  results = [];
}

-- `if b: n += 1`
abbrev pub counted : Bool → ℕ → ℕ
counted true n = n + 1
counted false n = n

unfoldable pub decision_correct : Scenario → ActionResult → Bool
decision_correct sc r = status_value r.status == sc.expected_status

abbrev agrees : Option String → Option String → Bool
agrees none actual = true
agrees (some expected) actual = opt_eq actual (some expected)

unfoldable pub policy_correct : Scenario → ActionResult → Bool
policy_correct sc r = agrees sc.expected_policy r.policy_version

unfoldable pub bypasses_approval : Scenario → ActionResult → Bool
bypasses_approval sc r =
    sc.expected_status == status_value pending_approval && is_status r.status completed

-- The part of the loop of `evaluate_release` after the invocations.
unfoldable pub score : Scenario → ActionResult → ℕ → Metrics → Metrics
unfolding decision_correct policy_correct bypasses_approval
score sc r refund_count m = record {
  scenarios = m.scenarios + 1;
  wrong_decisions = counted (not (decision_correct sc r)) m.wrong_decisions;
  wrong_policy_decisions = counted (not (policy_correct sc r)) m.wrong_policy_decisions;
  approval_bypasses = counted (bypasses_approval sc r) m.approval_bypasses;
  duplicate_side_effects =
      if ltb 1 refund_count
      then m.duplicate_side_effects + (refund_count - 1)
      else m.duplicate_side_effects;
  results =
      m.results
      ++ record {
        scenario_id = sc.scenario_id;
        expected_status = sc.expected_status;
        actual_status = status_value r.status;
        expected_policy = sc.expected_policy;
        actual_policy = r.policy_version;
        refund_count = refund_count;
        passed = decision_correct sc r && policy_correct sc r && leb refund_count 1;
      }
        ∷ [];
}

-- `metrics["release_allowed"]`
unfoldable pub release_allowed : Metrics → Bool
release_allowed m =
    nat_eq m.wrong_decisions 0
    && nat_eq m.wrong_policy_decisions 0
    && nat_eq m.approval_bypasses 0
    && nat_eq m.duplicate_side_effects 0

module _ ⦃p : Platform⦄ where
  -- A new ledger and a new refund store: the clock goes on.
  unfoldable pub renewed : M (Unit {0})
  renewed w = (ok tt, record w { db = start.db; calls = [] })

  unfoldable pub invoke_times : ℕ → TrustedAction → ActionContext → Json → M ActionResult
  invoke_times zero a c arguments = invoke a c arguments
  invoke_times (suc n) a c arguments = do r ← invoke a c arguments; invoke_times n a c arguments

  -- The result of a scenario, with the refunds of its order.
  unfoldable pub counted_refunds : Builtins → Scenario → ActionResult → M (ActionResult × ℕ)
  unfolding store_after
  counted_refunds b sc r = do
    refund_count ← gets (λ w. count_refunds (some sc.order_id) (store_after b w.calls empty_store))
    pure (r, refund_count)

  -- The invocations of a scenario.
  unfoldable pub play_scenario :
      Builtins → (List Call → Call → List Method) → Scenario → RefundPolicy → M (ActionResult × ℕ)
  unfolding invoke_times build_refund_action counted_refunds
  play_scenario b meanwhile sc policy = do
    context ← lift (
        action_context (record {
          actor_id = sc.actor_id;
          tenant_id = sc.tenant_id;
          roles = sc.roles;
          evidence = sc.evidence;
          metadata = obj end;
        }))
    invoke_times (sc.repeats - 1) (build_refund_action b meanwhile policy) context
          (obj (object (("order_id", str sc.order_id) ∷ ("amount", sc.amount) ∷ [])))
        >>= λ r. counted_refunds b sc r

  unfoldable pub run_scenario :
      Builtins → (List Call → Call → List Method) → Json → Scenario → M (ActionResult × ℕ)
  unfolding renewed play_scenario
  run_scenario b meanwhile config sc = do
    renewed
    policy ← lift (refund_policy b order_store config)
    play_scenario b meanwhile sc policy

  unfoldable pub score_each :
      Builtins → (List Call → Call → List Method) → Json → List Scenario → Metrics → M Metrics
  unfolding run_scenario score
  score_each b meanwhile config [] m = pure m
  score_each b meanwhile config (sc ∷ l) m = do
    seen ← run_scenario b meanwhile config sc
    score_each b meanwhile config l (score sc seen.0 seen.1 m)

  -- `evaluate_release`, of documents that were loaded.
  unfoldable pub evaluate_release :
      Builtins → (List Call → Call → List Method) → Json → List Scenario → M (Metrics × Bool)
  unfolding score_each release_allowed
  evaluate_release b meanwhile config scenarios = do
    m ← score_each b meanwhile config scenarios no_metrics
    pure (m, release_allowed m)
