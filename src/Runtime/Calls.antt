-- ===== src/Runtime/Calls.antt =====
-- The methods of `TrustedAction` in runtime.py, by the rules of Runtime/Cover, and the calls of
-- protected functions.
use agent_trust_ops.Prelude.{
  ℕ, ◌≤◌, String, Bool, true, false, Option, List, [], ◌∷◌, arith, ◌==◌, ◌⊎◌, inl, inr, length,
  select, Option-cases,
}
use agent_trust_ops.Errors.{Result, ok, err, is_type_or_value_error}
use agent_trust_ops.Json.{Json, Platform}
use agent_trust_ops.Models.{
  ActionStatus, PolicyDecision, ActionContext, ActionResult, VerifiedPrincipal,
}
use agent_trust_ops.Providers.{ProviderProbe}
use agent_trust_ops.Ledger.Table
use agent_trust_ops.Ledger.Table.{get-empty}
use agent_trust_ops.Ledger.Store.{Run, World}
use agent_trust_ops.Ledger.Runs.{
  NewRun, create_or_get_run, record_duplicate, record_policy_decision,
}
use agent_trust_ops.Ledger.Approvals.{Decision, decide_approval, expire_approvals}
use agent_trust_ops.Ledger.Execution.{recover_expired_executions}
use agent_trust_ops.Ledger.Reconcile.{Observation, reconcile_run, apply_provider_observation}
use agent_trust_ops.Ledger.Trace.Methods.{
  create_or_get_run-Trace, record_duplicate-Trace, record_policy_decision-Trace,
}
use agent_trust_ops.Ledger.Trace.Leases.{recover_expired_executions-Trace}
use agent_trust_ops.Ledger.Trace.Reconciliation.{
  reconcile_run-Trace, apply_provider_observation-Trace,
}
use agent_trust_ops.Ledger.Trace.Decisions.{decide_approval-Trace, expire_approvals-Trace}
use agent_trust_ops.Ledger.Method.{perform-Trace, start}
use agent_trust_ops.Ledger.Lifecycle.{claims_of, AllSound, start-AllSound}
use agent_trust_ops.Ledger.Silence.Methods.{
  create_or_get_run-IsSilent, record_duplicate-IsSilent, record_policy_decision-IsSilent,
  decide_approval-IsSilent, expire_approvals-IsSilent, recover_expired_executions-IsSilent,
  reconcile_run-IsSilent, apply_provider_observation-IsSilent, perform-IsSilent,
}
use agent_trust_ops.Runtime.Cover.{
  IsCovered, Covers, Covers-Trace, Covers-pure, Covers-if, Covers-raise, calls_of, attempts,
}
use agent_trust_ops.Runtime.Action.{TrustedAction}
use agent_trust_ops.Runtime.Execution.{
  cover_rules, Covers-select_run, Covers-uuid4, current_result-Covers, execute-Covers,
}
use agent_trust_ops.Runtime.Invoke.{
  Prepared, finished, ready, record_or_deny, finish_unless, prepare_created, prepare_duplicate,
  after_creation, prepare_invoke, execute_prepared, invoke_with, invoke, invoke_request,
  invoke_async, invoke_request_async, prepare_resume, resume_run, resume, resume_async,
}
use agent_trust_ops.Runtime.Review.{
  settle_decision, review, approve, reject, reconcile, load_reconcilable_run,
  reconcile_from_provider,
}
use agent_trust_ops.Runtime.Operation.{
  Operation, invokes, invokes_request, invokes_async, invokes_request_async, resumes, resumes_async,
  approves, rejects, reconciles, asks_provider, calls_ledger, operation, operate,
}

module _ ⦃p : Platform⦄ where
  create_or_get_run-Covers : (n : NewRun) → Covers (create_or_get_run n)
  create_or_get_run-Covers n =
      Covers-Trace _ (create_or_get_run-Trace n) (create_or_get_run-IsSilent n)

  record_duplicate-Covers : (k : String) → Covers (record_duplicate k)
  record_duplicate-Covers k =
      Covers-Trace _ (record_duplicate-Trace k) (record_duplicate-IsSilent k)

  record_policy_decision-Covers :
      (k : String) (d : PolicyDecision) (n : ℕ) → Covers (record_policy_decision k d n)
  record_policy_decision-Covers k d n =
      Covers-Trace _ (record_policy_decision-Trace k d n) (record_policy_decision-IsSilent k d n)

  decide_approval-Covers : (k : String) (d : Decision) → Covers (decide_approval k d)
  decide_approval-Covers k d =
      Covers-Trace _ (decide_approval-Trace k d) (decide_approval-IsSilent k d)

  pub expire_approvals-Covers : (tenant : Option String) → Covers (expire_approvals tenant)
  expire_approvals-Covers tenant =
      Covers-Trace _ (expire_approvals-Trace tenant) (expire_approvals-IsSilent tenant)

  pub recover_expired_executions-Covers :
      (tenant : Option String) → Covers (recover_expired_executions tenant)
  recover_expired_executions-Covers tenant =
      Covers-Trace _ (recover_expired_executions-Trace tenant)
        (recover_expired_executions-IsSilent tenant)

  reconcile_run-Covers :
      (k : String) (s : ActionStatus) (why : String) (v : Json) (u : VerifiedPrincipal)
      → Covers (reconcile_run k s why v u)
  reconcile_run-Covers k s why v u =
      Covers-Trace _ (reconcile_run-Trace k s why v u) (reconcile_run-IsSilent k s why v u)

  apply_provider_observation-Covers :
      (k : String) (o : Observation) (v : VerifiedPrincipal)
      → Covers (apply_provider_observation k o v)
  apply_provider_observation-Covers k o v =
      Covers-Trace _ (apply_provider_observation-Trace k o v)
        (apply_provider_observation-IsSilent k o v)

  record_or_deny-Covers :
      (a : TrustedAction) (k : String) (d : PolicyDecision) (r : Result (Unit {0}))
      → Covers (record_or_deny a k d r)
  unfolding record_or_deny
  record_or_deny-Covers a k d (ok u) = Covers-pure d
  record_or_deny-Covers a k d (err e) =
      Covers-if (is_type_or_value_error e) _ _
        (search (cover_rules, record_policy_decision-Covers) depth 8) (Covers-raise e)

  finish_unless-Covers : (b : Bool) (k : String) → Covers (finish_unless b k)
  unfolding finish_unless
  finish_unless-Covers true k = Covers-pure (ready k)
  finish_unless-Covers false k = search (cover_rules, current_result-Covers) depth 8

  after_creation-Covers :
      (a : TrustedAction) (k : String) (v : Json) (c : ActionContext) (r : Run × Bool)
      → Covers (after_creation a k v c r)
  unfolding after_creation prepare_created prepare_duplicate
  after_creation-Covers a k v c (r, true) =
      search
        (cover_rules, record_policy_decision-Covers, record_or_deny-Covers, finish_unless-Covers)
        depth 12
  after_creation-Covers a k v c (r, false) =
      search
        (
          cover_rules, expire_approvals-Covers, recover_expired_executions-Covers,
          record_duplicate-Covers, current_result-Covers,
        )
        depth 12

  prepare_invoke-Covers :
      (a : TrustedAction) (c : ActionContext) (v : Json) (o : Option String)
      → Covers (prepare_invoke a c v o)
  unfolding prepare_invoke
  prepare_invoke-Covers a c v o =
      search (cover_rules, Covers-uuid4, create_or_get_run-Covers, after_creation-Covers) depth 20

  execute_prepared-Covers :
      (a : TrustedAction) (v : Json) (r : Prepared) → Covers (execute_prepared a v r)
  unfolding execute_prepared
  execute_prepared-Covers a v (finished r) = Covers-pure r
  execute_prepared-Covers a v (ready k) = execute-Covers a k v

  invoke_with-Covers :
      (a : TrustedAction) (c : ActionContext) (v : Json) (o : Option String)
      → Covers (invoke_with a c v o)
  unfolding invoke_with
  invoke_with-Covers a c v o =
      search (cover_rules, prepare_invoke-Covers, execute_prepared-Covers) depth 8

  resume_run-Covers : (a : TrustedAction) (r : ActionResult ⊎ Run) → Covers (resume_run a r)
  unfolding resume_run
  resume_run-Covers a (inl r) = Covers-pure r
  resume_run-Covers a (inr r) = execute-Covers a r.run_id _

  settle_decision-Covers : (k : String) (b : Bool) → Covers (settle_decision k b)
  unfolding settle_decision
  settle_decision-Covers k true = Covers-pure tt
  settle_decision-Covers k false = search (cover_rules, Covers-select_run) depth 8

  review-Covers :
      (b : Bool) (a : TrustedAction) (k : String) (v : VerifiedPrincipal) (note : String)
      → Covers (review b a k v note)
  unfolding review
  review-Covers b a k v note =
      search (cover_rules, decide_approval-Covers, settle_decision-Covers, current_result-Covers)
        depth 12

  invoke-Covers : (a : TrustedAction) (c : ActionContext) (v : Json) → Covers (invoke a c v)
  unfolding invoke
  invoke-Covers a c v = search (cover_rules, invoke_with-Covers) depth 8

  pub invoke_request-Covers :
      (a : TrustedAction) (c : ActionContext) (v : Json) (key : String)
      → Covers (invoke_request a c v key)
  unfolding invoke_request
  invoke_request-Covers a c v key = search (cover_rules, invoke_with-Covers) depth 8

  invoke_async-Covers :
      (a : TrustedAction) (c : ActionContext) (v : Json) → Covers (invoke_async a c v)
  unfolding invoke_async
  invoke_async-Covers a c v = search (cover_rules, invoke_with-Covers) depth 8

  pub invoke_request_async-Covers :
      (a : TrustedAction) (c : ActionContext) (v : Json) (key : String)
      → Covers (invoke_request_async a c v key)
  unfolding invoke_request_async
  invoke_request_async-Covers a c v key = search (cover_rules, invoke_with-Covers) depth 8

  pub resume-Covers : (a : TrustedAction) (k : String) → Covers (resume a k)
  unfolding resume prepare_resume
  resume-Covers a k = search (cover_rules, Covers-select_run, resume_run-Covers) depth 12

  pub resume_async-Covers : (a : TrustedAction) (k : String) → Covers (resume_async a k)
  unfolding resume_async prepare_resume
  resume_async-Covers a k = search (cover_rules, Covers-select_run, resume_run-Covers) depth 12

  pub approve-Covers :
      (a : TrustedAction) (k : String) (v : VerifiedPrincipal) (note : String)
      → Covers (approve a k v note)
  unfolding approve
  approve-Covers a k v note = search (cover_rules, review-Covers) depth 8

  pub reject-Covers :
      (a : TrustedAction) (k : String) (v : VerifiedPrincipal) (note : String)
      → Covers (reject a k v note)
  unfolding reject
  reject-Covers a k v note = search (cover_rules, review-Covers) depth 8

  pub reconcile-Covers :
      (a : TrustedAction) (k outcome : String) (v : VerifiedPrincipal) (note : String)
      (result : Json)
      → Covers (reconcile a k outcome v note result)
  unfolding reconcile
  reconcile-Covers a k outcome v note result =
      search (cover_rules, Covers-select_run, reconcile_run-Covers, current_result-Covers) depth 20

  pub reconcile_from_provider-Covers :
      (a : TrustedAction) (k : String) (probe : ProviderProbe) (v : VerifiedPrincipal)
      → Covers (reconcile_from_provider a k probe v)
  unfolding reconcile_from_provider load_reconcilable_run
  reconcile_from_provider-Covers a k probe v =
      search
        (cover_rules, Covers-select_run, apply_provider_observation-Covers, current_result-Covers)
        depth 20

  pub operation-Covers : (o : Operation) → Covers (operation o)
  unfolding operation
  operation-Covers (invokes a c v) = search (cover_rules, invoke-Covers) depth 8
  operation-Covers (invokes_request a c v key) = search (cover_rules, invoke_request-Covers) depth 8
  operation-Covers (invokes_async a c v) = search (cover_rules, invoke_async-Covers) depth 8
  operation-Covers (invokes_request_async a c v key) =
      search (cover_rules, invoke_request_async-Covers) depth 8
  operation-Covers (resumes a k) = search (cover_rules, resume-Covers) depth 8
  operation-Covers (resumes_async a k) = search (cover_rules, resume_async-Covers) depth 8
  operation-Covers (approves a k v note) = search (cover_rules, approve-Covers) depth 8
  operation-Covers (rejects a k v note) = search (cover_rules, reject-Covers) depth 8
  operation-Covers (reconciles a k outcome v note result) =
      search (cover_rules, reconcile-Covers) depth 8
  operation-Covers (asks_provider a k probe v) =
      search (cover_rules, reconcile_from_provider-Covers) depth 8
  operation-Covers (calls_ledger m) = Covers-Trace _ (perform-Trace m) (perform-IsSilent m)

  operate-IsCovered : (l : List Operation) (w : World) → IsCovered w → IsCovered (operate l w)
  unfolding operate
  operate-IsCovered [] w c = c
  operate-IsCovered (o ∷ l) w c =
      operate-IsCovered l (operation o w).1 ((operation-Covers o).at w c)

  pub start-IsCovered : IsCovered start
  unfolding start calls_of select
  start-IsCovered = record { sound = start-AllSound; calls = λ k. omega arith }

  claims_of_bound : (s : ActionStatus) → claims_of s ≤ 1
  claims_of_bound s = ground arith

  attempts_bound : (k : String) (w : World) → AllSound w.db → attempts k w.db ≤ 1
  attempts_bound k w all = elim (Option-cases (Table.get k w.db.runs)) [
    | inl lacking ↦ rw lacking (omega arith)
    | inr (r, h) ↦
        let s = all k r h in
        let n = s.claims in let b = claims_of_bound r.status in rw h (omega arith)
  ]

  pub IsCovered-once :
      (k : String) (w : World) → IsCovered w → length (select (λ c. c.run_id == k) w.calls) ≤ 1
  unfolding calls_of
  IsCovered-once k w c =
      let a = attempts_bound k w c.sound in
      let b : length (select (λ c. c.run_id == k) w.calls) ≤ attempts k w.db = c.calls k in
      omega arith

  -- From an empty ledger, whatever is asked of trusted actions and of the ledger, in whatever order
  -- and with whatever outcome, and whatever other clients call while protected functions run: for
  -- each run the protected function is called at most once.
  pub call_once :
      (l : List Operation) (k : String)
      → length (select (λ c. c.run_id == k) (operate l start).calls) ≤ 1
  call_once l k = IsCovered-once k (operate l start) (operate-IsCovered l start start-IsCovered)
