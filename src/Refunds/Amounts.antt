-- ===== src/Refunds/Amounts.antt =====
-- What the comparisons of `RefundPolicy.evaluate` in refund_ops.py say of an amount.
use agent_trust_ops.Prelude.{◌≡◌, refl, Bool, true, false, ◌&&◌, ◌⊎◌, inl, inr, arith}
use agent_trust_ops.Json.{boolean}
use agent_trust_ops.Refunds.{
  Float, nan, minus_infinity, plus_infinity, minus, plus, below, equals, at_most, is_true, Builtins,
  Order, RefundPolicyVersion,
}
use agent_trust_ops.Refunds.Config.{RefundPolicy, setting}
use agent_trust_ops.Refunds.Policy.{needs_approval}

-- An amount above zero, within the order's total and, where approvals are on, within the limit of
-- the version; a bound that is NaN does not bound it.
pub record IsWithin (b : Builtins) (policy : RefundPolicy) (o : Order) (v : RefundPolicyVersion)
    (amount : Float) : Type 0 where
  pub above_zero : below (plus 0) amount ≡ true
  pub within_total : (o.total ≡ nan) ⊎ (at_most amount o.total ≡ true)
  pub within_limit :
      (is_true b (setting "approval_enabled" (boolean true) policy.config) ≡ false)
      ⊎ (v.auto_approve_limit ≡ nan)
      ⊎ (at_most amount v.auto_approve_limit ≡ true)

not_above : (x y : Float) → below y x ≡ false → (x ≡ nan) ⊎ (y ≡ nan) ⊎ (at_most x y ≡ true)
unfolding below at_most equals
not_above nan y h = inl refl
not_above minus_infinity nan h = inr (inl refl)
not_above plus_infinity nan h = inr (inl refl)
not_above (minus m) nan h = inr (inl refl)
not_above (plus m) nan h = inr (inl refl)
not_above minus_infinity minus_infinity h = inr (inr refl)
not_above minus_infinity plus_infinity h = inr (inr refl)
not_above minus_infinity (minus n) h = inr (inr refl)
not_above minus_infinity (plus n) h = inr (inr refl)
not_above plus_infinity minus_infinity h = cc h
not_above plus_infinity plus_infinity h = inr (inr refl)
not_above plus_infinity (minus n) h = cc h
not_above plus_infinity (plus n) h = cc h
not_above (minus m) minus_infinity h = cc h
not_above (minus m) plus_infinity h = inr (inr refl)
not_above (minus m) (minus n) h = inr (inr (ground arith))
not_above (minus m) (plus n) h = inr (inr (ground arith))
not_above (plus m) minus_infinity h = cc h
not_above (plus m) plus_infinity h = inr (inr refl)
not_above (plus m) (minus n) h = inr (inr (ground arith))
not_above (plus m) (plus n) h = inr (inr (ground arith))

not_zero : (x : Float) → at_most x (plus 0) ≡ false → (x ≡ nan) ⊎ (below (plus 0) x ≡ true)
unfolding below at_most equals
not_zero nan h = inl refl
not_zero minus_infinity h = cc h
not_zero plus_infinity h = inr refl
not_zero (minus m) h = let no_case : ◌≡◌ {A = Bool} true false = ground arith in cc no_case
not_zero (plus m) h = inr (ground arith)

no_approval : (asked big : Bool) → (asked && big) ≡ false → (asked ≡ false) ⊎ (big ≡ false)
no_approval false big h = inl refl
no_approval true big h = inr h

pub eligible_amount :
    (b : Builtins) (policy : RefundPolicy) (o : Order) (v : RefundPolicyVersion) (amount : Float)
    → at_most amount (plus 0) ≡ false
    → below o.total amount ≡ false
    → needs_approval b policy amount v ≡ false
    → (amount ≡ nan) ⊎ IsWithin b policy o v amount
unfolding needs_approval
eligible_amount b policy o v amount positive covered small = elim (not_zero amount positive) [
  | inl unread ↦ inl unread
  | inr above ↦ elim (not_above amount o.total covered) [
    | inl unread ↦ inl unread
    | inr total ↦ elim (no_approval _ _ small) [
      | inl off ↦ inr (record { above_zero = above; within_total = total; within_limit = inl off })
      | inr low ↦ elim (not_above amount v.auto_approve_limit low) [
        | inl unread ↦ inl unread
        | inr limit ↦
            inr (record { above_zero = above; within_total = total; within_limit = inr limit })
      ]
    ]
  ]
]
