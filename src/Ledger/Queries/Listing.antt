-- ===== src/Ledger/Queries/Listing.antt =====
-- What `list_runs` of ledger.py answers.
use agent_trust_ops.Prelude.{
  ℕ, zero, suc, ◌≤◌, String, ◌≡◌, refl, ap, ◌∙◌, true, ◌&&◌, Option, List, [], ◌∷◌, ◌++◌, ◌⊎◌, inl,
  inr, arith, leb, length, take, All, All-select, All-take, length-take, Bool-cases,
}
use mathlib.Core.List.{Perm}
use mathlib.Core.List.Perm
use agent_trust_ops.Errors.{ok}
use agent_trust_ops.Models.{ActionStatus}
use agent_trust_ops.Ledger.Store.{Run, World, ◌>>=◌}
use agent_trust_ops.Ledger.Approvals.{in_tenant}
use agent_trust_ops.Ledger.Queries.{has_status, insert_recent, recent_first, runs_of, list_runs}

-- No row was created after a row before it.
abbrev pub IsRecentFirst : List Run → Type 0
IsRecentFirst [] = Unit
IsRecentFirst (r ∷ rs) = All (λ x. x.created_at ≤ r.created_at) rs × IsRecentFirst rs

All-insert_recent :
    (P : Run → Type 0) (r : Run) (xs : List Run) → P r → All P xs → All P (insert_recent r xs)
unfolding insert_recent
All-insert_recent P r [] h a = (h, tt)
All-insert_recent P r (x ∷ xs) h a = elim (Bool-cases (leb x.created_at r.created_at)) [
  | inl e ↦ rw e (h, a)
  | inr e ↦ rw e (a.0, All-insert_recent P r xs h a.1)
]

pub All-recent_first : (P : Run → Type 0) (xs : List Run) → All P xs → All P (recent_first xs)
unfolding recent_first
All-recent_first P [] a = tt
All-recent_first P (x ∷ xs) a =
    All-insert_recent P x (recent_first xs) a.0 (All-recent_first P xs a.1)

All-le_trans :
    (m n : ℕ) (xs : List Run)
    → m ≤ n
    → All (λ x. x.created_at ≤ m) xs
    → All (λ x. x.created_at ≤ n) xs
All-le_trans m n [] h a = tt
All-le_trans m n (x ∷ xs) h a = (omega arith, All-le_trans m n xs h a.1)

insert_recent-IsRecentFirst :
    (r : Run) (xs : List Run) → IsRecentFirst xs → IsRecentFirst (insert_recent r xs)
unfolding insert_recent
insert_recent-IsRecentFirst r [] s = (tt, tt)
insert_recent-IsRecentFirst r (x ∷ xs) s = elim (Bool-cases (leb x.created_at r.created_at)) [
  | inl e ↦
      let le : x.created_at ≤ r.created_at = ground arith in
      rw e ((le, All-le_trans x.created_at r.created_at xs le s.0), s)
  | inr e ↦ rw e (
    All-insert_recent (λ y. y.created_at ≤ x.created_at) r xs (ground arith) s.0,
    insert_recent-IsRecentFirst r xs s.1,
  )
]

recent_first-IsRecentFirst : (xs : List Run) → IsRecentFirst (recent_first xs)
unfolding recent_first
recent_first-IsRecentFirst [] = tt
recent_first-IsRecentFirst (x ∷ xs) =
    insert_recent-IsRecentFirst x (recent_first xs) (recent_first-IsRecentFirst xs)

take-IsRecentFirst : (n : ℕ) (xs : List Run) → IsRecentFirst xs → IsRecentFirst (take n xs)
unfolding take
take-IsRecentFirst zero xs s = tt
take-IsRecentFirst (suc n) [] s = tt
take-IsRecentFirst (suc n) (x ∷ xs) s = (All-take _ n xs s.0, take-IsRecentFirst n xs s.1)

insert_recent-perm : (r : Run) (xs : List Run) → Perm (insert_recent r xs) (r ∷ xs)
unfolding insert_recent
insert_recent-perm r [] = Perm.refl (r ∷ [])
insert_recent-perm r (x ∷ xs) = elim (Bool-cases (leb x.created_at r.created_at)) [
  | inl e ↦ rw e (Perm.refl (r ∷ x ∷ xs))
  | inr e ↦ rw e (Perm.trans (Perm.cons x (insert_recent-perm r xs)) (Perm.swap r x xs))
]

pub recent_first-perm : (xs : List Run) → Perm (recent_first xs) xs
unfolding recent_first
recent_first-perm [] = Perm.refl []
recent_first-perm (x ∷ xs) =
    Perm.trans (insert_recent-perm x (recent_first xs)) (Perm.cons x (recent_first-perm xs))

length-insert_recent : (r : Run) (xs : List Run) → length (insert_recent r xs) ≡ suc (length xs)
unfolding insert_recent
length-insert_recent r [] = refl
length-insert_recent r (x ∷ xs) = ground (arith, length-insert_recent r xs)

pub length-recent_first : (xs : List Run) → length (recent_first xs) ≡ length xs
unfolding recent_first
length-recent_first [] = refl
length-recent_first (x ∷ xs) =
    length-insert_recent x (recent_first xs) ∙ ap suc (length-recent_first xs)

-- What LIMIT cuts off.
drop : {A : Type 0} → ℕ → List A → List A
drop zero xs = xs
drop (suc n) [] = []
drop (suc n) (x ∷ xs) = drop n xs

take-drop : {A : Type 0} (n : ℕ) (xs : List A) → take n xs ++ drop n xs ≡ xs
unfolding take drop
take-drop zero xs = refl
take-drop (suc n) [] = refl
take-drop (suc n) (x ∷ xs) = ap (λ l. x ∷ l) (take-drop n xs)

-- The rest is empty, or LIMIT was reached.
drop_rest : {A : Type 0} (n : ℕ) (xs : List A) → (drop n xs ≡ []) ⊎ (length (take n xs) ≡ n)
unfolding take drop
drop_rest zero xs = inr refl
drop_rest (suc n) [] = inl refl
drop_rest (suc n) (x ∷ xs) = elim (drop_rest n xs) [
  | inl e ↦ inl e
  | inr e ↦ inr (omega (arith, e))
]

All-drop : {A : Type 0} (P : A → Type 0) (n : ℕ) (xs : List A) → All P xs → All P (drop n xs)
unfolding drop
All-drop P zero xs h = h
All-drop P (suc n) [] h = tt
All-drop P (suc n) (x ∷ xs) h = All-drop P n xs h.1

-- No run of the second list was created after a run of the first.
abbrev pub AreNewer : List Run → List Run → Type 0
AreNewer l rest = All (λ r. All (λ x. x.created_at ≤ r.created_at) rest) l

take-AreNewer : (n : ℕ) (xs : List Run) → IsRecentFirst xs → AreNewer (take n xs) (drop n xs)
unfolding take drop
take-AreNewer zero xs s = tt
take-AreNewer (suc n) [] s = tt
take-AreNewer (suc n) (x ∷ xs) s = (All-drop _ n xs s.0, take-AreNewer n xs s.1)

-- What a listing of a tenant's runs with a status promises: the runs of the ledger that are asked
-- for are those listed, each once, and a rest that is older and empty below the limit.
pub record IsListing (tenant : Option String) (status : Option ActionStatus) (limit : ℕ) (w : World)
    (l : List Run) : Type 0 where
  pub chosen : All (λ r. (in_tenant tenant r && has_status status r) ≡ true) l
  pub recent : IsRecentFirst l
  pub bounded : length l ≤ limit
  pub rest : List Run
  pub complete : Perm (l ++ rest) (runs_of tenant status w.db)
  pub newest : AreNewer l rest
  pub full : (rest ≡ []) ⊎ (length l ≡ limit)

-- `list_runs` with a limit from 1 to 1000 answers only runs of the tenant and status asked for, the
-- most recent first, no more than the limit, and changes nothing. Every such run of the ledger is
-- listed once, except for a rest of which no run was created after a listed one, and which is empty
-- unless the limit is reached.
pub list_runs-IsListing :
    (tenant : Option String) (status : Option ActionStatus) (limit : ℕ) (w : World)
    → 1 ≤ limit
    → limit ≤ 1000
    → (l : List Run) × (list_runs tenant status limit w ≡ (ok l, w))
      × IsListing tenant status limit w l
unfolding list_runs runs_of ◌>>=◌
list_runs-IsListing tenant status limit w low high =
    let rows = runs_of tenant status w.db in
    let sorted_rows = recent_first rows in
    let a : leb 1 limit ≡ true = ground arith in
    let b : leb limit 1000 ≡ true = ground arith in
    let ordered = recent_first-IsRecentFirst rows in
    (
      take limit sorted_rows,
      rw (a, b) refl,
      record {
        chosen = All-take _ limit _ (All-recent_first _ rows (All-select _ _));
        recent = take-IsRecentFirst limit _ ordered;
        bounded = length-take limit _;
        rest = drop limit sorted_rows;
        complete = rw (take-drop limit sorted_rows) (recent_first-perm rows);
        newest = take-AreNewer limit sorted_rows ordered;
        full = drop_rest limit sorted_rows;
      },
    )
