-- ===== src/Bundles/Export.antt =====
-- The trails that `export_audit_bundle` of audit.py collects, as `verify_audit_bundle` sees them.
use agent_trust_ops.Prelude.{
  String, ◌≡◌, refl, true, false, Option, none, some, List, [], ◌∷◌, inl, inr, Bool-cases,
}
use agent_trust_ops.Errors.{ok}
use agent_trust_ops.Json.{Json, Items, nil, cons, Platform, get_field}
use agent_trust_ops.Ledger.Store.{Run, World, pure, lift}
use agent_trust_ops.Ledger.Audit.{AuditTrail, audit_trail}
use agent_trust_ops.Ledger.Returns.{Returns, Returns-bind, Returns-pure, lifted}
use agent_trust_ops.Refunds.{Builtins, is_true}
use agent_trust_ops.Bundles.{portable, trail_json, export_run, export_each}
use agent_trust_ops.Bundles.Check.{item, any_item, is_sensitive, is_broken}

-- Runs that verification lets pass.
pub record IsClean (b : Builtins) (l : Items) : Type 0 where
  pub public_only : any_item (is_sensitive b) l ≡ ok false
  pub unbroken : any_item (is_broken b) l ≡ ok false

portable_lem :
    (k : String) (o : Option AuditTrail) (t : AuditTrail)
    → portable k o ≡ ok t
    → (t.sensitive_fields_included ≡ false) × (t.chain_verified ≡ true)
portable_lem k none t h = cc h
portable_lem k (some x) t h = elim (Bool-cases x.sensitive_fields_included) [
  | inl visible ↦ let e = (rw visible at h) in cc e
  | inr closed ↦ elim (Bool-cases x.chain_verified) [
    | inr broken ↦ let e = (rw (closed, broken) at h) in cc e
    | inl sound ↦
        let e = (rw (closed, sound) at h) in let same : x ≡ t = cc e in rw (← same) (closed, sound)
  ]
]

module _ ⦃p : Platform⦄ where
  IsClean-cons :
      (b : Builtins) (backend : String) (t : AuditTrail) (l : Items)
      → t.sensitive_fields_included ≡ false
      → t.chain_verified ≡ true
      → IsClean b l
      → IsClean b (cons (trail_json backend t) l)
  unfolding any_item is_sensitive is_broken trail_json item get_field is_true
  IsClean-cons b backend t l closed sound i = record {
    public_only = rw closed i.public_only;
    unbroken = rw sound i.unbroken;
  }

  -- A trail that may stand in front of clean runs.
  abbrev Extends : Builtins → Json → World → Type 0
  Extends b v w = (l : Items) → IsClean b l → IsClean b (cons v l)

  export_run-Extends :
      (b : Builtins) (backend : String) (r : Run) (w : World)
      → Returns (Extends b) (export_run backend r) w
  unfolding export_run
  export_run-Extends b backend r w =
      Returns-bind (Extends b) (audit_trail r.run_id none) _ w (λ found _.
        Returns-bind (Extends b) (lift (portable r.run_id found)) (λ t. pure (trail_json backend t))
          _
          (λ t e.
            let x = portable_lem r.run_id found t (lifted _ t _ e) in
            Returns-pure (Extends b) (trail_json backend t) _
              (λ l i. IsClean-cons b backend t l x.0 x.1 i)))

  pub export_each-IsClean :
      (b : Builtins) (backend : String) (l : List Run) (w : World)
      → Returns (λ items _. IsClean b items) (export_each backend l) w
  unfolding export_each any_item
  export_each-IsClean b backend [] w =
      Returns-pure (λ items _. IsClean b items) nil w
        (record { public_only = refl; unbroken = refl })
  export_each-IsClean b backend (r ∷ l) w =
      Returns-bind (λ items _. IsClean b items) (export_run backend r) _ w
        (λ v e.
          Returns-bind (λ items _. IsClean b items) (export_each backend l)
            (λ rest. pure (cons v rest)) _
            (λ rest e'.
              Returns-pure (λ items _. IsClean b items) (cons v rest) _
                (export_run-Extends b backend r w v e rest
                  (export_each-IsClean b backend l _ rest e'))))
