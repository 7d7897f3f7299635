-- ===== src/Ledger/Trace/Leases.antt =====
-- The methods of the execution lease of ledger.py, as traces.
use agent_trust_ops.Prelude.{
  ℕ, ◌+◌, String, ◌≡◌, refl, Bool, true, false, ◌&&◌, Option, none, some, List,
}
use agent_trust_ops.Json.{Json, Platform}
use agent_trust_ops.Models.{ActionStatus, executing, unknown, is_status}
use agent_trust_ops.Ledger.Store.{Run}
use agent_trust_ops.Ledger.Events.{Payload}
use agent_trust_ops.Ledger.Keeps.{Keeps}
use agent_trust_ops.Ledger.Execution.{
  is_claimable, owned_by, lease_after, mark_expired_execution, start_execution, claim_row,
  claim_run, claim_locked, claim_execution, heartbeat_execution, finish_execution,
  complete_execution, fail_execution, mark_execution_unknown, recover_one,
  recover_expired_executions,
}
use agent_trust_ops.Ledger.Machine.{Step, completes, fails, loses}
use agent_trust_ops.Ledger.Trace.{Change, claimed, renewed, lost, finished, Trace}
use agent_trust_ops.Ledger.Trace.Rules.{trace_rules}

lose :
    (why : String) (t : ℕ) (r : Run)
    → is_status r.status executing ≡ true
    → Change r (record r {
      status = unknown;
      reason = some why;
      execution_owner = none;
      lease_expires_at = none;
      updated_at = t;
    })
lose why t r h = lost why t h refl

claim :
    (owner : String) (lease t : ℕ) (r : Run)
    → is_claimable r ≡ true
    → Change r (record r {
      status = executing;
      execution_owner = some owner;
      lease_expires_at = some lease;
      attempt = r.attempt + 1;
      updated_at = t;
    })
claim owner lease t r h = claimed owner lease t h refl

renew :
    (owner : String) (lease t : ℕ) (r : Run)
    → (is_status r.status executing
        && owned_by owner r.execution_owner
        && lease_after r.lease_expires_at t)
      ≡ true
    → Change r (record r { lease_expires_at = some lease; updated_at = t })
renew owner lease t r h = renewed owner lease t h refl

finish :
    (s : ActionStatus) (owner : String) (why result : Option String) (t : ℕ) (r : Run)
    → Step executing s
    → (is_status r.status executing && owned_by owner r.execution_owner) ≡ true
    → Change r (record r {
      status = s;
      reason = why;
      result_json = result;
      execution_owner = none;
      lease_expires_at = none;
      updated_at = t;
    })
finish s owner why result t r st h = finished s owner why result t st h refl

module _ ⦃p : Platform⦄ where
  pub mark_expired_execution-Trace : (k : String) (t : ℕ) → Keeps Trace (mark_expired_execution k t)
  unfolding mark_expired_execution
  mark_expired_execution-Trace k t = search (trace_rules, lose) depth 12

  start_execution-Trace :
      (b : Bool) (k owner : String) (r : Run) (lease : ℕ)
      → Keeps Trace (start_execution b k owner r lease)
  unfolding start_execution
  start_execution-Trace false k owner r lease = search trace_rules
  start_execution-Trace true k owner r lease = search trace_rules depth 12

  claim_row-Trace :
      (k owner : String) (r : Run) (t lease : ℕ) → Keeps Trace (claim_row k owner r t lease)
  unfolding claim_row
  claim_row-Trace k owner r t lease = search (trace_rules, start_execution-Trace, claim) depth 8

  claim_run-Trace :
      (o : Option Run) (k owner : String) (t lease : ℕ) → Keeps Trace (claim_run o k owner t lease)
  unfolding claim_run
  claim_run-Trace none k owner t lease = search trace_rules
  claim_run-Trace (some r) k owner t lease =
      search (trace_rules, mark_expired_execution-Trace, claim_row-Trace) depth 8

  pub claim_execution-Trace : (k owner : String) (n : ℕ) → Keeps Trace (claim_execution k owner n)
  unfolding claim_execution claim_locked
  claim_execution-Trace k owner n = search (trace_rules, claim_run-Trace) depth 12

  pub heartbeat_execution-Trace :
      (k owner : String) (n : ℕ) → Keeps Trace (heartbeat_execution k owner n)
  unfolding heartbeat_execution
  heartbeat_execution-Trace k owner n = search (trace_rules, renew) depth 12

  finish_execution-Trace :
      (k owner : String) (s : ActionStatus) (why : Option String) (v : Json)
      (l : List (String × Payload))
      → Step executing s
      → Keeps Trace (finish_execution k owner s why v l)
  unfolding finish_execution
  finish_execution-Trace k owner s why v l st = search (trace_rules, finish) depth 16

  pub complete_execution-Trace :
      (k owner : String) (v : Json) → Keeps Trace (complete_execution k owner v)
  unfolding complete_execution
  complete_execution-Trace k owner v = finish_execution-Trace k owner _ _ v _ completes

  pub fail_execution-Trace : (k owner e : String) → Keeps Trace (fail_execution k owner e)
  unfolding fail_execution
  fail_execution-Trace k owner e = finish_execution-Trace k owner _ _ _ _ fails

  pub mark_execution_unknown-Trace :
      (k owner e : String) → Keeps Trace (mark_execution_unknown k owner e)
  unfolding mark_execution_unknown
  mark_execution_unknown-Trace k owner e = finish_execution-Trace k owner _ _ _ _ loses

  recover_one-Trace : (r : Run) (t : ℕ) → Keeps Trace (recover_one r t)
  unfolding recover_one
  recover_one-Trace r t = search (trace_rules, mark_expired_execution-Trace)

  pub recover_expired_executions-Trace :
      (tenant : Option String) → Keeps Trace (recover_expired_executions tenant)
  unfolding recover_expired_executions
  recover_expired_executions-Trace tenant = search (trace_rules, recover_one-Trace) depth 12
