-- ===== src/Refunds.antt =====
-- refund_ops.py: dates, floating-point numbers, orders, and what the code takes from Python.
pub mod Config
pub mod Policy
pub mod Amounts
pub mod Eligibility
pub mod NotNumber
pub mod Selection
pub mod Store
pub mod Release
pub mod Verdict
use agent_trust_ops.Prelude.{
  ℕ, zero, suc, ◌+◌, ◌*◌, String, Bool, true, false, not, ◌&&◌, ◌||◌, Option, none, some, List, [],
  ◌∷◌, ltb, leb, nat_eq, is_empty, if◌then◌else◌,
}
use agent_trust_ops.Errors.{Result, ok, err}
use agent_trust_ops.Json.{
  Json, null, opaque, boolean, nat, number, str, arr, obj, Items, nil, cons, Fields, end, field,
}
use agent_trust_ops.Ledger.Table

pub record Date : Type 0 where
  pub year : ℕ
  pub month : ℕ
  pub day : ℕ

-- `a <= b` of dates
unfoldable pub date_leb : Date → Date → Bool
date_leb a b =
    ltb a.year b.year
    || (nat_eq a.year b.year
        && (ltb a.month b.month || (nat_eq a.month b.month && leb a.day b.day)))

-- A double: a finite one is a sign and a magnitude in units of 2 ^ -1074, the least of them all.
pub data Float : Type 0 where
  nan minus_infinity plus_infinity : Float
  minus plus : ℕ → Float

unfoldable pub doubled : ℕ → ℕ → ℕ
doubled zero n = n
doubled (suc k) n = doubled k n * 2

-- A whole number that a double holds exactly.
unfoldable pub whole : ℕ → Float
unfolding doubled
whole n = plus (doubled 1074 n)

-- `a < b`
unfoldable pub below : Float → Float → Bool
below nan b = false
below minus_infinity nan = false
below minus_infinity minus_infinity = false
below minus_infinity b = true
below (minus m) nan = false
below (minus m) minus_infinity = false
below (minus m) (minus n) = ltb n m
below (minus m) (plus n) = ltb 0 (m + n)
below (minus m) plus_infinity = true
below (plus m) (plus n) = ltb m n
below (plus m) plus_infinity = true
below (plus m) b = false
below plus_infinity b = false

-- `a == b`
unfoldable pub equals : Float → Float → Bool
equals minus_infinity minus_infinity = true
equals plus_infinity plus_infinity = true
equals (minus m) (minus n) = nat_eq m n
equals (minus m) (plus n) = nat_eq (m + n) 0
equals (plus m) (minus n) = nat_eq (m + n) 0
equals (plus m) (plus n) = nat_eq m n
equals a b = false

-- `a <= b`
unfoldable pub at_most : Float → Float → Bool
unfolding below equals
at_most a b = below a b || equals a b

-- What Python's `float` and `str` answer for a value, how a float stands in a JSON text and in
-- `f"{x:.2f}"`, and `date.isoformat`.
pub record Builtins : Type 0 where
  pub float_of : Json → Result Float
  pub text_of : Json → String
  pub real_text : Float → String
  pub money_text : Float → String
  pub date_text : Date → String

abbrev is_nonzero : Result Float → Bool
is_nonzero (ok x) = not (equals x (plus 0))
is_nonzero (err e) = true

-- The truth value of a decoded JSON value.
unfoldable pub is_true : Builtins → Json → Bool
is_true b null = false
is_true b opaque = true
is_true b (boolean t) = t
is_true b (nat n) = not (nat_eq n 0)
is_true b (number s) = is_nonzero (b.float_of (number s))
is_true b (str s) = not (is_empty s)
is_true b (arr nil) = false
is_true b (arr items) = true
is_true b (obj end) = false
is_true b (obj fields) = true

pub record Order : Type 0 where
  pub order_id : String
  pub tenant_id : String
  pub ordered_at : Date
  pub total : Float

abbrev date : ℕ → ℕ → ℕ → Date
date y m d = record { year = y; month = m; day = d }

abbrev order : String → String → Date → ℕ → Order
order k tenant at total = record {
  order_id = k;
  tenant_id = tenant;
  ordered_at = at;
  total = whole total;
}

-- The dictionary of `OrderStore`.
unfoldable pub order_store : Table.Table Order
order_store = record {
  entries =
      ("O-LOW", order "O-LOW" "default" (date 2026 8 1) 200)
      ∷ ("O-HIGH", order "O-HIGH" "default" (date 2026 8 1) 800)
      ∷ ("O-HIST", order "O-HIST" "default" (date 2026 5 20) 400)
      ∷ ("O-FOREIGN", order "O-FOREIGN" "beta" (date 2026 8 1) 100)
      ∷ [];
}

pub record RefundPolicyVersion : Type 0 where
  pub version : String
  pub effective_from : Date
  pub auto_approve_limit : Float

-- `RefundPolicy.versions`
unfoldable pub policy_versions : List RefundPolicyVersion
policy_versions =
    record {
      version = "refund-v2026-01";
      effective_from = date 2026 1 1;
      auto_approve_limit = whole 500;
    }
    ∷ record {
      version = "refund-v2026-07";
      effective_from = date 2026 7 1;
      auto_approve_limit = whole 300;
    }
    ∷ []
