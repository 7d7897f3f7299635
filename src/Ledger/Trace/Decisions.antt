-- ===== src/Ledger/Trace/Decisions.antt =====
-- `decide_approval` and `expire_approvals` of ledger.py, as traces.
use agent_trust_ops.Prelude.{
  ℕ, String, ◌≡◌, refl, Bool, true, false, not, Option, none, some, arith, leb, if◌then◌else◌,
}
use agent_trust_ops.Errors.{Error, invalid_transition}
use agent_trust_ops.Json.{Platform}
use agent_trust_ops.Models.{pending_approval, approval_expired, is_status}
use agent_trust_ops.Ledger.Table
use agent_trust_ops.Ledger.Store.{
  Run, Approval, World, M, pure, raise, update_run, update_approval, ◌>>=◌, select_run,
  select_approval, now,
}
use agent_trust_ops.Ledger.Keeps.{
  Keeps, Keeps-pure, Keeps-raise, Keeps-bind, bind_from, if_from, checked_from, transaction_from,
}
use agent_trust_ops.Ledger.Approvals.{
  Decision, decided_status, expire_decided, decide_run_status, record_decision, decide_waiting,
  decide_joined, decide_approval, note_expired, expire_one, expire_approvals,
}
use agent_trust_ops.Ledger.Trace.{Change, answered, expired, Trace, Trace-IsPreorder}
use agent_trust_ops.Ledger.Trace.Rules.{
  trace_rules, update_row-Trace, update_approval-Trace, append_event-Trace,
}

answer :
    (b : Bool) (why : String) (t : ℕ) (r : Run)
    → is_status r.status pending_approval ≡ true
    → Change r (record r { status = decided_status b; reason = some why; updated_at = t })
answer b why t r h = answered b why t h refl

expire :
    (t : ℕ) (r : Run)
    → is_status r.status pending_approval ≡ true
    → Change r (record r { status = approval_expired; updated_at = t })
expire t r h = expired t h refl

runs-update_approval :
    (k : String) (guard : Approval → Bool) (change : Approval → Approval) (w : World)
    → (update_approval k guard change w).1.db.runs ≡ w.db.runs
unfolding update_approval
runs-update_approval k guard change w = ground arith

module _ ⦃p : Platform⦄ where
  decide_run_status-Trace :
      (b : Bool) (k : String) (d : Decision) (r : Run) (t : ℕ)
      → Keeps Trace (decide_run_status b k d r t)
  unfolding decide_run_status
  decide_run_status-Trace false k d r t = search trace_rules
  decide_run_status-Trace true k d r t = search (trace_rules, answer) depth 8

  record_decision-Trace :
      (k : String) (d : Decision) (r : Run) (a : Approval) (t : ℕ)
      → Keeps Trace (record_decision k d r a t)
  unfolding record_decision
  record_decision-Trace k d r a t = search (trace_rules, decide_run_status-Trace) depth 8

  -- The update of the run has no guard: it relies on the row that was read.
  expire_row-Trace :
      (k : String) (t : ℕ) (r : Run) (w : World)
      → Table.get k w.db.runs ≡ some r
      → is_status r.status pending_approval ≡ true
      → Trace w.db
          (update_run k
            (λ x. true)
            (λ x. record x { status = approval_expired; updated_at = t })
            w).1.db
  expire_row-Trace k t r w h e = update_row-Trace k _ r w h (expire t r e)

  expire_decided-Trace :
      (k : String) (a : Approval) (t : ℕ) (r : Run) (w : World)
      → Table.get k w.db.runs ≡ some r
      → is_status r.status pending_approval ≡ true
      → Trace w.db (expire_decided k a t w).1.db
  unfolding expire_decided
  expire_decided-Trace k a t r w h e =
      bind_from Trace-IsPreorder _ _ w ((update_approval-Trace k _ _).at w) (λ _ _.
        bind_from Trace-IsPreorder _ _ _ (expire_row-Trace k t r _ (rw runs-update_approval h) e)
          (λ _ _.
            (Keeps-bind Trace-IsPreorder _ _ (append_event-Trace k _ _ none)
                (λ _. Keeps-pure Trace-IsPreorder false)).at
              _))

  decide_waiting-Trace :
      (k : String) (d : Decision) (r : Run) (a : Approval) (t : ℕ) (w : World)
      → Table.get k w.db.runs ≡ some r
      → Trace w.db (decide_waiting k d r a t w).1.db
  unfolding decide_waiting
  decide_waiting-Trace k d r a t w h =
      if_from Trace-IsPreorder (not (is_status a.status pending_approval)) (pure false)
        (if not (is_status r.status pending_approval) then raise mismatch else timely) w
        (λ _. (Keeps-pure Trace-IsPreorder false).at w)
        (λ _.
          if_from Trace-IsPreorder (not (is_status r.status pending_approval)) (raise mismatch)
            timely w (λ _. (Keeps-raise Trace-IsPreorder mismatch).at w)
            (λ e.
              if_from Trace-IsPreorder (leb a.expires_at t) (expire_decided k a t)
                (record_decision k d r a t) w (λ _. expire_decided-Trace k a t r w h (ground arith))
                (λ _. (record_decision-Trace k d r a t).at w)))
    where
      mismatch : Error
      mismatch = invalid_transition "run and approval states are inconsistent"

      timely : M Bool
      timely = if leb a.expires_at t then expire_decided k a t else record_decision k d r a t

  decide_joined-Trace :
      (k : String) (d : Decision) (o : Option Run) (a : Option Approval) (t : ℕ) (w : World)
      → Table.get k w.db.runs ≡ o
      → Trace w.db (decide_joined k d o a t w).1.db
  unfolding decide_joined
  decide_joined-Trace k d none a t w h = (Keeps-raise Trace-IsPreorder _).at w
  decide_joined-Trace k d (some r) none t w h = (Keeps-raise Trace-IsPreorder _).at w
  decide_joined-Trace k d (some r) (some a) t w h = checked_from Trace-IsPreorder _ _ _ w (λ _.
      checked_from Trace-IsPreorder _ _ _ w
        (λ _. checked_from Trace-IsPreorder _ _ _ w (λ _. decide_waiting-Trace k d r a t w h)))

  pub decide_approval-Trace : (k : String) (d : Decision) → Keeps Trace (decide_approval k d)
  unfolding decide_approval ◌>>=◌ now select_run select_approval
  decide_approval-Trace k d = record {
    at = λ w.
        transaction_from Trace-IsPreorder _ (now w).1
          (decide_joined-Trace k d _ _ _ (now w).1 refl);
  }

  note_expired-Trace : (b c : Bool) (a : Approval) → Keeps Trace (note_expired b c a)
  unfolding note_expired
  note_expired-Trace true true a = search trace_rules
  note_expired-Trace false false a = search trace_rules
  note_expired-Trace _ _ a = search trace_rules

  pub expire_approvals-Trace : (tenant : Option String) → Keeps Trace (expire_approvals tenant)
  unfolding expire_approvals expire_one
  expire_approvals-Trace tenant = search (trace_rules, note_expired-Trace, expire) depth 16
