-- ===== src/Refunds/Selection.antt =====
-- `RefundPolicy._select_policy` of refund_ops.py: the version in force on the day of the order.
use agent_trust_ops.Prelude.{
  ◌≡◌, refl, ap, sym, ◌∙◌, Bool, true, false, ◌||◌, if◌then◌else◌, ◌⊎◌, inl, inr, List, [], ◌∷◌,
  ◌++◌, All, select, Bool-cases,
}
use agent_trust_ops.Errors.{Error, ok}
use agent_trust_ops.Refunds.{Date, date_leb, RefundPolicyVersion}
use agent_trust_ops.Refunds.Config.{
  RefundPolicy, last_of, last_version, selects_latest, select_policy,
}

-- The last element of a list that passes a test.
pub record IsLast (test : RefundPolicyVersion → Bool) (l : List RefundPolicyVersion)
    (v : RefundPolicyVersion) : Type 0 where
  pub before : List RefundPolicyVersion
  pub after : List RefundPolicyVersion
  pub place : l ≡ before ++ v ∷ after
  pub passes : test v ≡ true
  pub none_later : All (λ u. test u ≡ false) after

module _ (test : RefundPolicyVersion → Bool) where
  IsLast-cons :
      (u v : RefundPolicyVersion) (l : List RefundPolicyVersion)
      → IsLast test l v
      → IsLast test (u ∷ l) v
  IsLast-cons u v l s = record {
    before = u ∷ s.before;
    after = s.after;
    place = ap (λ x. u ∷ x) s.place;
    passes = s.passes;
    none_later = s.none_later;
  }

  last_of-IsLast :
      (u : RefundPolicyVersion) (l : List RefundPolicyVersion)
      → test u ≡ true
      → ((last_of u (select test l) ≡ u) × All (λ x. test x ≡ false) l)
        ⊎ IsLast test l (last_of u (select test l))
  unfolding last_of select
  last_of-IsLast u [] h = inl (refl, tt)
  last_of-IsLast u (x ∷ l) h = elim (Bool-cases (test x)) [
    | inr skipped ↦ rw skipped (elim (last_of-IsLast u l h) [
      | inl (same, rest) ↦ inl (same, (refl, rest))
      | inr s ↦ inr (IsLast-cons x _ l s)
    ])
    | inl passes ↦ rw passes (elim (last_of-IsLast x l passes) [
      | inl (same, rest) ↦ inr (record {
        before = [];
        after = l;
        place = ap (λ y. y ∷ l) (sym same);
        passes = rw same passes;
        none_later = rest;
      })
      | inr s ↦ inr (IsLast-cons x _ l s)
    ])
  ]

  last_version-IsLast :
      (why : Error) (l : List RefundPolicyVersion) (v : RefundPolicyVersion)
      → last_version why (select test l) ≡ ok v
      → IsLast test l v
  unfolding last_version select
  last_version-IsLast why [] v h = cc h
  last_version-IsLast why (x ∷ l) v h = elim (Bool-cases (test x)) [
    | inr skipped ↦ IsLast-cons x v l (last_version-IsLast why l v (rw skipped at h))
    | inl passes ↦
        let h' = (rw passes at h) in
        let same : last_of x (select test l) ≡ v = cc h' in
        elim (last_of-IsLast x l passes) [
          | inl (e, rest) ↦ record {
            before = [];
            after = l;
            place = ap (λ y. y ∷ l) (sym e ∙ same);
            passes = rw (← (sym e ∙ same)) passes;
            none_later = rest;
          }
          | inr s ↦ IsLast-cons x v l (rw same at s)
        ]
  ]

every_version : (l : List RefundPolicyVersion) → select (λ u. true) l ≡ l
unfolding select
every_version [] = refl
every_version (u ∷ l) = ap (λ x. u ∷ x) (every_version l)

chosen-IsLast :
    (latest : Bool) (test : RefundPolicyVersion → Bool) (none_at_all none_yet : Error)
    (l : List RefundPolicyVersion) (v : RefundPolicyVersion)
    → (if latest then last_version none_at_all l else last_version none_yet (select test l)) ≡ ok v
    → IsLast (λ u. latest || test u) l v
chosen-IsLast true test why other l v h =
    last_version-IsLast (λ u. true) why l v (ap (last_version why) (every_version l) ∙ h)
chosen-IsLast false test other why l v h = last_version-IsLast test why l v h

-- The version selected for an order is one of the policy's: if the configuration asks for the
-- latest version it is the last of all, and else the last of those in force on the day of the order.
pub select_policy-IsLast :
    (policy : RefundPolicy) (ordered_at : Date) (v : RefundPolicyVersion)
    → select_policy policy ordered_at ≡ ok v
    → IsLast (λ u. selects_latest policy || date_leb u.effective_from ordered_at) policy.versions v
unfolding select_policy
select_policy-IsLast policy ordered_at v h =
    chosen-IsLast (selects_latest policy) (λ u. date_leb u.effective_from ordered_at) _ _
      policy.versions v h
