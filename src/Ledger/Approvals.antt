-- ===== src/Ledger/Approvals.antt =====
-- `decide_approval` and `expire_approvals` of ledger.py.
use agent_trust_ops.Prelude.{
  ℕ, String, Bool, true, false, not, ◌&&◌, Option, none, some, List, [], ◌∷◌, ◌==◌, leb, opt_eq,
  shares, if◌then◌else◌,
}
use agent_trust_ops.Errors.{key_error, approval_denied, invalid_transition, require}
use agent_trust_ops.Json.{str, opt_str, Platform}
use agent_trust_ops.Models.{
  ActionStatus, pending_approval, approved, rejected, approval_expired, is_status,
  VerifiedPrincipal,
}
use agent_trust_ops.Ledger.Store.{
  Run, Approval, M, pure, raise, collect, lift, gets, ◌>>=◌, ◌>>◌, transaction, select_run,
  select_approval, update_run, update_approval, now,
}
use agent_trust_ops.Ledger.Table
use agent_trust_ops.Ledger.Events.{append_event}

-- The arguments of `decide_approval` but for the run.
pub record Decision : Type 0 where
  pub approves : Bool
  pub principal : VerifiedPrincipal
  pub note : String
  pub required_roles : List String
  pub allow_self_approval : Bool

abbrev pub decided_status : Bool → ActionStatus
decided_status true = approved
decided_status false = rejected

abbrev pub decision_event : Bool → String
decision_event true = "approval.approved"
decision_event false = "approval.rejected"

-- The approval is for the request, and under the policy, that the run now has.
unfoldable pub is_bound : Run → Approval → Bool
is_bound r a =
    r.request_fingerprint == a.request_fingerprint
    && opt_eq r.policy_version (some a.policy_version)
    && opt_eq r.policy_digest a.policy_digest

abbrev pub in_tenant : Option String → Run → Bool
in_tenant none r = true
in_tenant (some tenant) r = r.tenant_id == tenant

abbrev is_overdue : Option String → ℕ → Approval → Option Run → Bool
is_overdue tenant started a none = false
is_overdue tenant started a (some r) =
    is_status a.status pending_approval
    && is_status r.status pending_approval
    && leb a.expires_at started
    && in_tenant tenant r

-- The SELECT of `expire_approvals`.
unfoldable pub overdue : Option String → ℕ → List Approval → Table.Table Run → List Approval
overdue tenant started [] runs = []
overdue tenant started (a ∷ l) runs =
    if is_overdue tenant started a (Table.get a.run_id runs)
    then a ∷ overdue tenant started l runs
    else overdue tenant started l runs

module _ ⦃p : Platform⦄ where
  -- The branch of `decide_approval` for an overdue request.
  unfoldable pub expire_decided : String → Approval → ℕ → M Bool
  expire_decided run_id a started = do
    update_approval run_id (λ x. true)
        (λ x. record x { status = approval_expired; decided_at = some started })
    update_run run_id (λ x. true)
        (λ x. record x { status = approval_expired; updated_at = started })
    append_event run_id "approval.expired" (("expires_at", str (p.isoformat a.expires_at)) ∷ [])
        none
    pure false

  -- What follows the update of the approval, if that changed a row.
  unfoldable pub decide_run_status : Bool → String → Decision → Run → ℕ → M Bool
  decide_run_status false run_id d r started = pure false
  decide_run_status true run_id d r started = do
    update_run run_id (λ x. is_status x.status pending_approval)
        (λ x. record x {
          status = decided_status d.approves;
          reason = some d.note;
          updated_at = started;
        })
    append_event run_id (decision_event d.approves)
        (("approver_id", str d.principal.actor_id)
          ∷ ("auth_source", str d.principal.auth_source)
          ∷ ("note", str d.note)
          ∷ ("request_fingerprint", str r.request_fingerprint)
          ∷ ("policy_version", opt_str r.policy_version)
          ∷ ("policy_digest", opt_str r.policy_digest)
          ∷ [])
        none
    pure true

  -- The rest of `decide_approval` for a request that waits and is not overdue.
  unfoldable pub record_decision : String → Decision → Run → Approval → ℕ → M Bool
  unfolding decide_run_status
  record_decision run_id d r a started = do
    lift (
        require (is_bound r a)
          (approval_denied "approval binding no longer matches the governed run"))
    changed ←
        update_approval run_id (λ x. is_status x.status pending_approval)
          (λ x. record x {
            status = decided_status d.approves;
            approver_id = some d.principal.actor_id;
            approver_auth_source = some d.principal.auth_source;
            note = some d.note;
            decided_at = some started;
          })
    decide_run_status changed run_id d r started

  -- The part of `decide_approval` after the checks of the principal.
  unfoldable pub decide_waiting : String → Decision → Run → Approval → ℕ → M Bool
  unfolding expire_decided record_decision
  decide_waiting run_id d r a started =
      if not (is_status a.status pending_approval)
      then pure false
      else if not (is_status r.status pending_approval)
      then raise (invalid_transition "run and approval states are inconsistent")
      else if leb a.expires_at started
      then expire_decided run_id a started
      else record_decision run_id d r a started

  unfoldable pub decide_joined : String → Decision → Option Run → Option Approval → ℕ → M Bool
  unfolding decide_waiting
  decide_joined run_id d none a started = raise (key_error "run or approval not found")
  decide_joined run_id d (some r) none started = raise (key_error "run or approval not found")
  decide_joined run_id d (some r) (some a) started = do
    lift (
        require (d.principal.tenant_id == r.tenant_id)
          (approval_denied "approver belongs to a different tenant"))
    lift (
        require (shares d.required_roles d.principal.roles)
          (approval_denied "approver lacks a required approval role"))
    lift (
        require (not (not d.allow_self_approval && d.principal.actor_id == a.requested_actor_id))
          (approval_denied "self-approval is not permitted"))
    decide_waiting run_id d r a started

  unfoldable pub decide_approval : String → Decision → M Bool
  unfolding decide_joined
  decide_approval run_id d = do
    started ← now
    transaction
        (do r ← select_run run_id; a ← select_approval run_id; decide_joined run_id d r a started)

  -- What the loop of `expire_approvals` does by the two row counts.
  unfoldable pub note_expired : Bool → Bool → Approval → M (List String)
  note_expired true true a = do
    append_event a.run_id "approval.expired" (("expires_at", str (p.isoformat a.expires_at)) ∷ [])
        none
    pure (a.run_id ∷ [])
  note_expired false false a = pure []
  note_expired _ _ a =
      raise (invalid_transition "run and approval expiration states are inconsistent")

  -- One round of the loop.
  unfoldable pub expire_one : Approval → ℕ → M (List String)
  unfolding note_expired
  expire_one a started = do
    approval ←
        update_approval a.run_id (λ x. is_status x.status pending_approval)
          (λ x. record x { status = approval_expired; decided_at = some started })
    run ←
        update_run a.run_id (λ x. is_status x.status pending_approval)
          (λ x. record x { status = approval_expired; updated_at = started })
    note_expired approval run a

  unfoldable pub expire_approvals : Option String → M (List String)
  unfolding expire_one
  expire_approvals tenant = do
    started ← now
    transaction (do
      pending ← gets (λ w. overdue tenant started (Table.rows w.db.approvals) w.db.runs)
      collect (λ a. expire_one a started) pending)
