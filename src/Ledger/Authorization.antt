-- ===== src/Ledger/Authorization.antt =====
-- Who may decide an approval: the checks of `decide_approval` of ledger.py.
use agent_trust_ops.Prelude.{
  ℕ, ◌<◌, String, ◌≡◌, refl, Bool, true, false, not, ◌&&◌, Option, none, some, ◌==◌, eq_iff, arith,
  leb, shares, if◌then◌else◌,
}
use agent_trust_ops.Errors.{ok, Error, invalid_transition, key_error}
use agent_trust_ops.Json.{Platform}
use agent_trust_ops.Models.{pending_approval, is_status, is_status→eq}
use agent_trust_ops.Ledger.Table
use agent_trust_ops.Ledger.Store.{
  Run, Approval, World, M, pure, raise, ◌>>=◌, now, select_run, select_approval, update_run,
  update_approval,
}
use agent_trust_ops.Ledger.Approvals.{
  Decision, is_bound, expire_decided, record_decision, decide_waiting, decide_joined,
  decide_approval,
}
use agent_trust_ops.Ledger.Events.{append_event}
use agent_trust_ops.Ledger.Returns.{
  Returns, Returns-pure, Returns-raise, Returns-if, Returns-checked, Returns-transaction,
  Returns-bind,
}

-- The decision is one that the principal may make of the run, at the time.
pub record IsAuthorized (d : Decision) (r : Run) (a : Approval) (t : ℕ) : Type 0 where
  pub tenant : d.principal.tenant_id ≡ r.tenant_id
  pub role : shares d.required_roles d.principal.roles ≡ true
  pub not_own : (not d.allow_self_approval && d.principal.actor_id == a.requested_actor_id) ≡ false
  pub waiting : a.status ≡ pending_approval
  pub run_waiting : r.status ≡ pending_approval
  pub timely : t < a.expires_at
  pub bound : is_bound r a ≡ true

abbrev pub Authorized : Decision → Option Run → Option Approval → ℕ → Type 0
Authorized d o q t = (r : Run) × (a : Approval) × (o ≡ some r) × (q ≡ some a) × IsAuthorized d r a t

not-false : (b : Bool) → not b ≡ false → b ≡ true
not-false b h = ground arith

not-true : (b : Bool) → not b ≡ true → b ≡ false
not-true b h = ground arith

not_leb : (m n : ℕ) → leb m n ≡ false → n < m
not_leb m n h = ground arith

module _ ⦃p : Platform⦄ where
  abbrev Grants : Type 0 → Bool → World → Type 0
  Grants P b w = b ≡ true → P

  expire_decided_denies :
      (P : Type 0) (k : String) (a : Approval) (t : ℕ) (w : World)
      → Returns (Grants P) (expire_decided k a t) w
  unfolding expire_decided
  expire_decided_denies P k a t w = Returns-bind (Grants P) (update_approval k _ _) _ w (λ _ _.
      Returns-bind (Grants P) (update_run k _ _) _ _ (λ _ _.
        Returns-bind (Grants P) (append_event k _ _ none) _ _
          (λ _ _. Returns-pure (Grants P) false _ (λ e. cc e))))

  record_decision-Grants :
      (P : Type 0) (k : String) (d : Decision) (r : Run) (a : Approval) (t : ℕ) (w : World)
      → (is_bound r a ≡ true → P)
      → Returns (Grants P) (record_decision k d r a t) w
  unfolding record_decision
  record_decision-Grants P k d r a t w f =
      Returns-checked (Grants P) (is_bound r a) _ _ w (λ h b e g. f h)

  decide_waiting-Grants :
      (P : Type 0) (k : String) (d : Decision) (r : Run) (a : Approval) (t : ℕ) (w : World)
      → (a.status ≡ pending_approval
          → r.status ≡ pending_approval
          → t < a.expires_at
          → is_bound r a ≡ true
          → P)
      → Returns (Grants P) (decide_waiting k d r a t) w
  unfolding decide_waiting
  decide_waiting-Grants P k d r a t w f =
      Returns-if (Grants P) (not (is_status a.status pending_approval)) (pure false)
        (if not (is_status r.status pending_approval) then raise mismatch else rest) w
        (λ _. Returns-pure (Grants P) false w (λ e. cc e))
        (λ ha.
          Returns-if (Grants P) (not (is_status r.status pending_approval)) (raise mismatch) rest w
            (λ _. Returns-raise (Grants P) mismatch w)
            (λ hr.
              Returns-if (Grants P) (leb a.expires_at t) (expire_decided k a t)
                (record_decision k d r a t) w (λ _. expire_decided_denies P k a t w)
                (λ ht. record_decision-Grants P k d r a t w (
                  f (is_status→eq a.status pending_approval (not-false _ ha))
                    (is_status→eq r.status pending_approval (not-false _ hr))
                    (not_leb a.expires_at t ht)))))
    where
      mismatch : Error
      mismatch = invalid_transition "run and approval states are inconsistent"

      rest : M Bool
      rest = if leb a.expires_at t then expire_decided k a t else record_decision k d r a t

  decide_joined-Grants :
      (k : String) (d : Decision) (o : Option Run) (q : Option Approval) (t : ℕ) (w : World)
      → Returns (Grants (Authorized d o q t)) (decide_joined k d o q t) w
  unfolding decide_joined
  decide_joined-Grants k d none q t w b h =
      Returns-raise (Grants (Authorized d none q t)) (key_error "run or approval not found") w b h
  decide_joined-Grants k d (some r) none t w b h =
      Returns-raise (Grants (Authorized d (some r) none t)) (key_error "run or approval not found")
        w b h
  decide_joined-Grants k d (some r) (some a) t w b h =
      let G = Grants (Authorized d (some r) (some a) t) in
      Returns-checked G (d.principal.tenant_id == r.tenant_id) _ _ w
        (λ tenant. Returns-checked G (shares d.required_roles d.principal.roles) _ _ w (λ role.
          Returns-checked G
            (not (not d.allow_self_approval && d.principal.actor_id == a.requested_actor_id)) _ _ w
            (λ other.
              decide_waiting-Grants (Authorized d (some r) (some a) t) k d r a t w (λ ha hr ht hb. (
                r,
                a,
                refl,
                refl,
                record {
                  tenant = (eq_iff _ _).0 tenant;
                  role = role;
                  not_own = not-true _ other;
                  waiting = ha;
                  run_waiting = hr;
                  timely = ht;
                  bound = hb;
                },
              )))))
        b h

  -- `decide_approval` returns true only where both the run and its approval are stored and wait,
  -- the approval has not expired at the time that the method reads, it is bound to the fingerprint
  -- and the policy of the run, and the principal is of the run's tenant, has a required role, and
  -- is not who requested it unless that is allowed.
  pub decide_approval-IsAuthorized :
      (k : String) (d : Decision) (w : World)
      → (decide_approval k d w).0 ≡ ok true
      → Authorized d (Table.get k w.db.runs) (Table.get k w.db.approvals) (p.clock w.ticks)
  unfolding decide_approval ◌>>=◌ now select_run select_approval
  decide_approval-IsAuthorized k d w h =
      let o = Table.get k w.db.runs in
      let q = Table.get k w.db.approvals in
      let t = p.clock w.ticks in
      Returns-transaction (Grants (Authorized d o q t)) _ (now w).1
        (decide_joined-Grants k d o q t (now w).1) true h refl
