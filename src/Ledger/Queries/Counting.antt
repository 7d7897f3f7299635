-- ===== src/Ledger/Queries/Counting.antt =====
-- The counts of ledger.py against the rows that they count.
use agent_trust_ops.Prelude.{
  ℕ, ◌+◌, String, ◌≡◌, refl, sym, ◌∙◌, ap, Bool, true, false, ◌&&◌, Option, none, some, List, [],
  ◌∷◌, inl, inr, arith, ◌==◌, eq_iff, length, select, Bool-cases, if◌then◌else◌,
}
use mathlib.Core.Path.{fun_ext}
use agent_trust_ops.Errors.{ok}
use agent_trust_ops.Models.{
  ActionStatus, is_status, is_status→eq, is_status_refl, status_value, status_of,
  status_of-status_value,
}
use agent_trust_ops.Ledger.Store.{Run, World, ◌>>=◌}
use agent_trust_ops.Ledger.Approvals.{in_tenant}
use agent_trust_ops.Ledger.Queries.{runs_of, Counts, bump, count_by, status_counts}

-- `counts.get(k, 0)`
abbrev pub count_at : String → Counts → ℕ
count_at k [] = 0
count_at k ((j, n) ∷ l) = if j == k then n else count_at k l

count_at-bump :
    (k j : String) (l : Counts) → count_at j (bump k l) ≡ count_at j l + (if k == j then 1 else 0)
unfolding bump
count_at-bump k j [] = ground arith
count_at-bump k j ((i, n) ∷ l) =
    ground (arith, eq_iff i k, eq_iff i j, eq_iff k j, count_at-bump k j l)

pub count_at-count_by :
    {A : Type 0} (key : A → String) (k : String) (l : List A)
    → count_at k (count_by key l) ≡ length (select (λ x. key x == k) l)
unfolding count_by select
count_at-count_by key k [] = refl
count_at-count_by key k (x ∷ xs) = elim (Bool-cases (key x == k)) [
  | inl e ↦ rw (count_at-bump, e) (omega (arith, count_at-count_by key k xs))
  | inr e ↦ rw (count_at-bump, e) (omega (arith, count_at-count_by key k xs))
]

pub total : Counts → ℕ
total [] = 0
total ((j, n) ∷ l) = n + total l

total-bump : (k : String) (l : Counts) → total (bump k l) ≡ total l + 1
unfolding bump total
total-bump k [] = refl
total-bump k ((j, n) ∷ l) = ground (arith, total-bump k l)

total-count_by : {A : Type 0} (key : A → String) (l : List A) → total (count_by key l) ≡ length l
unfolding count_by total
total-count_by key [] = refl
total-count_by key (x ∷ xs) =
    omega (arith, total-bump (key x) (count_by key xs), total-count_by key xs)

-- Statuses differ as their texts do.
status_test : (s t : ActionStatus) → (status_value s == status_value t) ≡ is_status s t
status_test s t = elim (Bool-cases (is_status s t)) [
  | inl e ↦ rw (is_status→eq s t e, is_status_refl) ((eq_iff _ _).1 refl)
  | inr e ↦ elim (Bool-cases (status_value s == status_value t)) [
    | inr d ↦ rw (d, e) refl
    | inl d ↦
        let same : some s ≡ some t =
          sym (status_of-status_value s)
          ∙ ap status_of ((eq_iff _ _).0 d)
          ∙ status_of-status_value t in
        let st : s ≡ t = cc same in let own = is_status_refl t in cc (own, e, st)
  ]
]

and_true : (a b : Bool) → ((a && true) && b) ≡ (a && b)
and_true true b = refl
and_true false b = refl

select_ext :
    {A : Type 0} (f g : A → Bool) (l : List A) → ((x : A) → f x ≡ g x) → select f l ≡ select g l
select_ext f g l h = rw (fun_ext h) refl

select_twice :
    {A : Type 0} (f g : A → Bool) (l : List A) → select f (select g l) ≡ select (λ x. g x && f x) l
unfolding select
select_twice f g [] = refl
select_twice f g (x ∷ l) = elim (Bool-cases (g x)) [
  | inl e ↦ rw e (ground (arith, select_twice f g l))
  | inr e ↦ rw e (select_twice f g l)
]

-- `status_counts` answers for each status how many runs of the tenant have it, those that
-- `list_runs` lists with that status; the counts add up to the runs of the tenant.
pub status_counts_lem :
    (tenant : Option String) (w : World)
    → (c : Counts) × (status_counts tenant w ≡ (ok c, w))
      × ((s : ActionStatus) → count_at (status_value s) c ≡ length (runs_of tenant (some s) w.db))
      × (total c ≡ length (runs_of tenant none w.db))
unfolding status_counts ◌>>=◌ runs_of
status_counts_lem tenant w =
    let rows = runs_of tenant none w.db in
    (
      count_by (λ (r : Run). status_value r.status) rows,
      refl,
      λ s.
          count_at-count_by _ (status_value s) rows
          ∙ ap length (
              select_twice _ _ _
              ∙ select_ext _ _ _ (λ r.
                ap (λ b. (in_tenant tenant r && true) && b) (status_test r.status s)
                ∙ and_true (in_tenant tenant r) (is_status r.status s))),
      total-count_by _ rows,
    )
