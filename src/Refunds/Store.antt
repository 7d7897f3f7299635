-- ===== src/Refunds/Store.antt =====
-- `RefundStore` of refund_ops.py: the refunds that were made, with a unique order.
use agent_trust_ops.Prelude.{
  ℕ, ◌+◌, ◌≤◌, String, ◌≡◌, Bool, true, false, Option, none, some, List, [], ◌∷◌, ◌++◌, arith, ◌==◌,
  eq_iff, length, length-append, select, select-append, nat_eq, inl, inr, Bool-cases, if◌then◌else◌,
}
use agent_trust_ops.Errors.{Result, ok, err, integrity_error}
use agent_trust_ops.Refunds.{Float, nan}

-- An amount as SQLite is given it. A text that is a number becomes a real in the column, which no
-- method looks at.
pub data Amount : Type 0 where
  real : Float → Amount
  text : String → Amount

pub record Refund : Type 0 where
  pub refund_id : ℕ
  pub order_id : String
  pub amount : Amount

-- The table `refunds`, and the last value of its AUTOINCREMENT.
pub record RefundStore : Type 0 where
  pub refunds : List Refund
  pub sequence : ℕ

abbrev pub empty_store : RefundStore
empty_store = record { refunds = []; sequence = 0 }

unfoldable pub refunds_of : String → RefundStore → List Refund
refunds_of order_id s = select (λ r. r.order_id == order_id) s.refunds

-- SQLite stores NaN as NULL, which the column refuses.
abbrev is_nan : Amount → Bool
is_nan (real nan) = true
is_nan _ = false

abbrev refused_insert : String → RefundStore → Result Refund × RefundStore
refused_insert why s = (err (integrity_error why), s)

-- `RefundStore.execute`
unfoldable pub execute_refund : String → Amount → RefundStore → Result Refund × RefundStore
unfolding refunds_of
execute_refund order_id amount s =
    let made : Refund = record {
      refund_id = s.sequence + 1;
      order_id = order_id;
      amount = amount;
    } in
    if is_nan amount
    then refused_insert "NOT NULL constraint failed: refunds.amount" s
    else (if nat_eq (length (refunds_of order_id s)) 0
        then (ok made, record { refunds = s.refunds ++ made ∷ []; sequence = s.sequence + 1 })
        else refused_insert "UNIQUE constraint failed: refunds.order_id" s)

-- `RefundStore.count`
unfoldable pub count_refunds : Option String → RefundStore → ℕ
unfolding refunds_of
count_refunds none s = length s.refunds
count_refunds (some order_id) s = length (refunds_of order_id s)

-- Each request has an order and an amount.
unfoldable pub execute_each : List (String × Amount) → RefundStore → RefundStore
execute_each [] s = s
execute_each ((k, amount) ∷ l) s = execute_each l (execute_refund k amount s).1

abbrev pub IsUnique : RefundStore → Type 0
IsUnique s = (k : String) → length (refunds_of k s) ≤ 1

made_once :
    (s : RefundStore) (r : Refund) (n : ℕ)
    → IsUnique s
    → length (refunds_of r.order_id s) ≡ 0
    → IsUnique (record { refunds = s.refunds ++ r ∷ []; sequence = n })
unfolding refunds_of select
made_once s r n u e k = elim (Bool-cases (r.order_id == k)) [
  | inl same ↦
      let rk = (eq_iff r.order_id k).0 same in
      let e' : length (select (λ x. x.order_id == k) s.refunds) ≡ 0 = rw (← rk) e in
      rw (select-append, same, length-append) (omega arith)
  | inr other ↦ let old = u k in rw (select-append, other, length-append) (omega arith)
]

pub execute_refund-IsUnique :
    (k : String) (amount : Amount) (s : RefundStore)
    → IsUnique s
    → IsUnique (execute_refund k amount s).1
unfolding execute_refund
execute_refund-IsUnique k amount s u = elim (Bool-cases (is_nan amount)) [
  | inl bad ↦ rw bad u
  | inr number ↦ elim (Bool-cases (nat_eq (length (refunds_of k s)) 0)) [
    | inr taken ↦ rw (number, taken) u
    | inl free ↦
        let e : length (refunds_of k s) ≡ 0 = ground arith in
        rw (number, free) (made_once s _ (s.sequence + 1) u e)
  ]
]

execute_each-IsUnique :
    (l : List (String × Amount)) (s : RefundStore) → IsUnique s → IsUnique (execute_each l s)
unfolding execute_each
execute_each-IsUnique [] s u = u
execute_each-IsUnique ((k, amount) ∷ l) s u =
    execute_each-IsUnique l _ (execute_refund-IsUnique k amount s u)

-- Whatever refunds are asked of an empty store, in whatever order and with whatever outcome, no
-- order has more than one.
pub execute_each_once :
    (l : List (String × Amount)) (k : String)
    → count_refunds (some k) (execute_each l empty_store) ≤ 1
unfolding count_refunds refunds_of select
execute_each_once l k = execute_each-IsUnique l empty_store (λ j. omega arith) k
