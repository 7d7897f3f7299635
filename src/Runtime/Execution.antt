-- ===== src/Runtime/Execution.antt =====
-- `_execute` and `_execute_async` of runtime.py, by the rules of Runtime/Cover.
use agent_trust_ops.Prelude.{
  ℕ, ◌+◌, ◌≤◌, String, ◌≡◌, refl, Bool, true, false, Option, none, some, ◌<>◌, arith, ◌∙◌, inl, inr,
}
use agent_trust_ops.Errors.{Result, ok, err, cancelled_error, is_type_or_value_error, Result-cases}
use agent_trust_ops.Json.{Json, Platform}
use agent_trust_ops.Ledger.Table
use agent_trust_ops.Ledger.Store.{Call, World, M, raise, ◌>>=◌, attempt, select_run, uuid4}
use agent_trust_ops.Ledger.Keeps.{Keeps-select_run, Keeps-uuid4}
use agent_trust_ops.Ledger.Trace.{Trace-IsPreorder}
use agent_trust_ops.Ledger.Trace.Leases.{
  claim_execution-Trace, complete_execution-Trace, fail_execution-Trace,
  mark_execution_unknown-Trace,
}
use agent_trust_ops.Ledger.Execution.{
  claim_execution, complete_execution, fail_execution, mark_execution_unknown,
}
use agent_trust_ops.Ledger.Silence.{IsSilent-select_run, IsSilent-uuid4}
use agent_trust_ops.Ledger.Silence.Methods.{
  claim_execution-IsSilent, complete_execution-IsSilent, fail_execution-IsSilent,
  mark_execution_unknown-IsSilent,
}
use agent_trust_ops.Ledger.Method.{serve}
use agent_trust_ops.Ledger.History.{serve-Evolves}
use agent_trust_ops.Ledger.Lifecycle.{serve-AllSound}
use agent_trust_ops.Ledger.Claims.{claim_execution_lem}
use agent_trust_ops.Runtime.Cover.{
  IsCovered, Covers, Covers-Trace, Covers-pure, Covers-raise, Covers-lift, Covers-if,
  Covers-attempt, Covers-bind, IsCovered-bind, IsCovered-call, calls_of, attempts,
}
use agent_trust_ops.Runtime.Action.{
  ToolOutcome, returns, indeterminate, cancelled, TrustedAction, current_result, context_of,
  arguments_with_execution_context, call_function, run_function, mark_unknown, completed_or,
  conclude, execute_claimed, execute,
}

pub ruleset cover_rules =
    (Covers-pure, Covers-raise, Covers-lift, Covers-if, Covers-attempt, Covers-bind)

module _ ⦃p : Platform⦄ where
  pub Covers-select_run : (k : String) → Covers (select_run k)
  Covers-select_run k =
      Covers-Trace (select_run k) (Keeps-select_run Trace-IsPreorder k) (IsSilent-select_run k)

  pub Covers-uuid4 : Covers uuid4
  Covers-uuid4 = Covers-Trace uuid4 (Keeps-uuid4 Trace-IsPreorder) IsSilent-uuid4

  claim_execution-Covers : (k owner : String) (n : ℕ) → Covers (claim_execution k owner n)
  claim_execution-Covers k owner n =
      Covers-Trace _ (claim_execution-Trace k owner n) (claim_execution-IsSilent k owner n)

  complete_execution-Covers : (k owner : String) (v : Json) → Covers (complete_execution k owner v)
  complete_execution-Covers k owner v =
      Covers-Trace _ (complete_execution-Trace k owner v) (complete_execution-IsSilent k owner v)

  fail_execution-Covers : (k owner e : String) → Covers (fail_execution k owner e)
  fail_execution-Covers k owner e =
      Covers-Trace _ (fail_execution-Trace k owner e) (fail_execution-IsSilent k owner e)

  mark_execution_unknown-Covers : (k owner e : String) → Covers (mark_execution_unknown k owner e)
  mark_execution_unknown-Covers k owner e =
      Covers-Trace _ (mark_execution_unknown-Trace k owner e)
        (mark_execution_unknown-IsSilent k owner e)

  pub current_result-Covers : (k : String) (b : Bool) → Covers (current_result k b)
  unfolding current_result
  current_result-Covers k b = search (cover_rules, Covers-select_run) depth 8

  mark_unknown-Covers : (k owner e : String) → Covers (mark_unknown k owner e)
  unfolding mark_unknown
  mark_unknown-Covers k owner e =
      search (cover_rules, mark_execution_unknown-Covers, current_result-Covers) depth 8

  completed_or-Covers : (k owner : String) (r : Result (Unit {0})) → Covers (completed_or k owner r)
  completed_or-Covers k owner (ok u) = current_result-Covers k false
  completed_or-Covers k owner (err e) =
      Covers-if (is_type_or_value_error e) _ _ (mark_unknown-Covers k owner _) (Covers-raise e)

  conclude-Covers :
      (a : TrustedAction) (k owner : String) (o : ToolOutcome) → Covers (conclude a k owner o)
  unfolding conclude
  conclude-Covers a k owner (indeterminate name) = mark_unknown-Covers k owner name
  conclude-Covers a k owner (ToolOutcome.raises name) =
      search (cover_rules, fail_execution-Covers, current_result-Covers) depth 8
  conclude-Covers a k owner cancelled =
      Covers-if a.is_async _ (raise cancelled_error)
        (Covers-bind _ _ (mark_unknown-Covers k owner _) (λ _. Covers-raise cancelled_error))
        (Covers-raise cancelled_error)
  conclude-Covers a k owner (returns v) =
      Covers-bind _ _ (Covers-attempt _ (complete_execution-Covers k owner v))
        (λ r. completed_or-Covers k owner r)

  -- What the arguments are read from stays, and the call is for the run.
  arguments_world :
      (o : Option String) (k : String) (v : Json) (w : World)
      → (arguments_with_execution_context o k v w).1 ≡ w
  unfolding arguments_with_execution_context ◌>>=◌ select_run
  arguments_world none k v w = refl
  arguments_world (some t) k v w = elim (Result-cases (context_of t (Table.get k w.db.runs))) [
    | inl (c, h) ↦ rw h refl
    | inr (e, h) ↦ rw h refl
  ]

  arguments_call :
      (o : Option String) (k : String) (v : Json) (w : World) (c : Call)
      → (arguments_with_execution_context o k v w).0 ≡ ok c
      → c.run_id ≡ k
  unfolding arguments_with_execution_context ◌>>=◌ select_run
  arguments_call none k v w c h = cc
  arguments_call (some t) k v w c h = elim (Result-cases (context_of t (Table.get k w.db.runs))) [
    | inl (x, e) ↦ let g = (rw e at h) in cc
    | inr (x, e) ↦ let g = (rw e at h) in cc
  ]

  run_function-IsCovered :
      (a : TrustedAction) (k : String) (r : Result Call) (w : World)
      → ((c : Call) → r ≡ ok c → c.run_id ≡ k)
      → IsCovered w
      → calls_of k w.calls + 1 ≤ attempts k w.db
      → IsCovered (run_function a r w).1
  unfolding run_function call_function ◌>>=◌
  run_function-IsCovered a k (err e) w i v s = v
  run_function-IsCovered a k (ok c) w i v s =
      let own = i c refl in
      let spare : calls_of c.run_id w.calls + 1 ≤ attempts c.run_id w.db = rw own s in
      IsCovered-call w (serve (a.meanwhile w.calls c) w) c v
        (serve-AllSound (a.meanwhile w.calls c) w v.sound) (serve-Evolves (a.meanwhile w.calls c) w)
        spare

  attempt_world : {A : Type 0} (m : M A) (w : World) → (attempt m w).1 ≡ (m w).1
  unfolding attempt
  attempt_world m w = refl

  attempt_result :
      {A : Type 0} (m : M A) (w : World) (r : Result A) → (attempt m w).0 ≡ ok r → (m w).0 ≡ r
  unfolding attempt
  attempt_result m w r h = cc

  run_and_conclude-IsCovered :
      (a : TrustedAction) (k owner : String) (r : Result Call) (w : World)
      → ((c : Call) → r ≡ ok c → c.run_id ≡ k)
      → IsCovered w
      → calls_of k w.calls + 1 ≤ attempts k w.db
      → IsCovered ((run_function a r >>= λ o. conclude a k owner o) w).1
  run_and_conclude-IsCovered a k owner r w i c s =
      let c' = run_function-IsCovered a k r w i c s in
      IsCovered-bind (run_function a r) (λ o. conclude a k owner o) w c'
        (λ o _. (conclude-Covers a k owner o).at _ c')

  -- The execution of a run whose claim has left an attempt to spare.
  claimed-IsCovered :
      (a : TrustedAction) (k owner : String) (v : Json) (w : World)
      → IsCovered w
      → calls_of k w.calls + 1 ≤ attempts k w.db
      → IsCovered (execute_claimed true a k owner v w).1
  unfolding execute_claimed
  claimed-IsCovered a k owner v w c s =
      let read = arguments_with_execution_context a.execution_context_parameter k v in
      let same : (attempt read w).1 ≡ w =
        attempt_world read w ∙ arguments_world a.execution_context_parameter k v w in
      IsCovered-bind (attempt read) (λ r. run_function a r >>= λ o. conclude a k owner o) w
        (rw same c)
        (λ r e. rw same (
          run_and_conclude-IsCovered a k owner r w
            (λ x h.
              arguments_call a.execution_context_parameter k v w x (attempt_result read w r e ∙ h))
            c s))

  execute_claimed-IsCovered :
      (b : Bool) (a : TrustedAction) (k owner : String) (v : Json) (w : World)
      → IsCovered w
      → (b ≡ true → calls_of k w.calls + 1 ≤ attempts k w.db)
      → IsCovered (execute_claimed b a k owner v w).1
  unfolding execute_claimed
  execute_claimed-IsCovered false a k owner v w c s = (current_result-Covers k true).at w c
  execute_claimed-IsCovered true a k owner v w c s = claimed-IsCovered a k owner v w c (s refl)

  -- A claim that returns true leaves an attempt to spare.
  claim_spares :
      (k owner : String) (n : ℕ) (w : World)
      → IsCovered w
      → (claim_execution k owner n w).0 ≡ ok true
      → calls_of k (claim_execution k owner n w).1.calls + 1
        ≤ attempts k (claim_execution k owner n w).1.db
  claim_spares k owner n w c h =
      let d = claim_execution_lem k owner n w true h refl in
      let more = d.attempts in
      let before : calls_of k w.calls ≤ d.row.attempt = (rw d.found at (c.calls k)) in
      rw ((claim_execution-IsSilent k owner n).at w, d.written) (omega arith)

  pub execute-Covers : (a : TrustedAction) (k : String) (v : Json) → Covers (execute a k v)
  unfolding execute
  execute-Covers a k v = Covers-bind _ _ Covers-uuid4 (λ suffix. claims ("worker_" <> suffix))
    where
      claims :
          (owner : String)
          → Covers (
              claim_execution k owner a.execution_lease_seconds >>= λ b.
              execute_claimed b a k owner v)
      claims owner = record {
        at = λ w c.
            let c' = (claim_execution-Covers k owner a.execution_lease_seconds).at w c in
            IsCovered-bind (claim_execution k owner a.execution_lease_seconds)
              (λ b. execute_claimed b a k owner v) w c'
              (λ b e.
                execute_claimed-IsCovered b a k owner v _ c'
                  (λ t. claim_spares k owner a.execution_lease_seconds w c (rw t at e)));
      }
