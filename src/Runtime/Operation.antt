-- ===== src/Runtime/Operation.antt =====
-- What is asked of trusted actions: any sequence of their methods, and of calls that other clients
-- make of the ledger. A request that raises ends only itself.
use agent_trust_ops.Prelude.{String, List, [], ◌∷◌}
use agent_trust_ops.Json.{Json, Platform}
use agent_trust_ops.Models.{ActionContext, ActionResult, VerifiedPrincipal}
use agent_trust_ops.Providers.{ProviderProbe}
use agent_trust_ops.Ledger.Store.{World, M, pure, ◌>>◌}
use agent_trust_ops.Ledger.Method.{Method, perform}
use agent_trust_ops.Runtime.Action.{TrustedAction}
use agent_trust_ops.Runtime.Invoke.{
  invoke, invoke_request, invoke_async, invoke_request_async, resume, resume_async,
}
use agent_trust_ops.Runtime.Review.{approve, reject, reconcile, reconcile_from_provider}

pub data Operation : Type 0 where
  invokes : TrustedAction → ActionContext → Json → Operation
  invokes_request : TrustedAction → ActionContext → Json → String → Operation
  invokes_async : TrustedAction → ActionContext → Json → Operation
  invokes_request_async : TrustedAction → ActionContext → Json → String → Operation
  resumes resumes_async : TrustedAction → String → Operation
  approves rejects : TrustedAction → String → VerifiedPrincipal → String → Operation
  reconciles : TrustedAction → String → String → VerifiedPrincipal → String → Json → Operation
  asks_provider : TrustedAction → String → ProviderProbe → VerifiedPrincipal → Operation
  calls_ledger : Method → Operation

abbrev pub ignoring_result : M ActionResult → M (Unit {0})
ignoring_result m = m >> pure tt

module _ ⦃p : Platform⦄ where
  unfoldable pub operation : Operation → M (Unit {0})
  operation (invokes a c v) = ignoring_result (invoke a c v)
  operation (invokes_request a c v key) = ignoring_result (invoke_request a c v key)
  operation (invokes_async a c v) = ignoring_result (invoke_async a c v)
  operation (invokes_request_async a c v key) = ignoring_result (invoke_request_async a c v key)
  operation (resumes a k) = ignoring_result (resume a k)
  operation (resumes_async a k) = ignoring_result (resume_async a k)
  operation (approves a k v note) = ignoring_result (approve a k v note)
  operation (rejects a k v note) = ignoring_result (reject a k v note)
  operation (reconciles a k outcome v note result) =
      ignoring_result (reconcile a k outcome v note result)
  operation (asks_provider a k probe v) = ignoring_result (reconcile_from_provider a k probe v)
  operation (calls_ledger m) = perform m

  unfoldable pub operate : List Operation → World → World
  operate [] w = w
  operate (o ∷ l) w = operate l (operation o w).1
