-- ===== src/Prelude/Tests.antt =====
-- Boolean tests, the conditional, and the splits on a computed value.
use Prim.Native.Nat.{ℕ, compare, Ordering}
use Prim.Native.String.{String}
use mathlib.Core.Path.{◌≡◌, refl}
use mathlib.Core.Logic.{◌⊎◌, inl, inr}
use mathlib.Core.Bool.{Bool, true, false}
use mathlib.Core.Option.{Option, none, some}
use native.Mathlib.Omega.{arith}
use text.Mathlib.Text.{◌==◌}
use text.Mathlib.TextEquality.{eq_iff}

abbrev pub ltb : ℕ → ℕ → Bool
ltb a b = elim (compare a b) [ Ordering.lt ↦ true | _ ↦ false ]

abbrev pub leb : ℕ → ℕ → Bool
leb a b = elim (compare a b) [ Ordering.gt ↦ false | _ ↦ true ]

abbrev pub nat_eq : ℕ → ℕ → Bool
nat_eq a b = elim (compare a b) [ Ordering.eq ↦ true | _ ↦ false ]

infix 1 if◌then◌else◌
abbrev pub if◌then◌else◌ {ℓ} : {A : Type ℓ} → Bool → A → A → A
if true then x else y = x
if false then x else y = y

-- `==` of two optional texts.
abbrev pub opt_eq : Option String → Option String → Bool
opt_eq none none = true
opt_eq none (some t) = false
opt_eq (some s) none = false
opt_eq (some s) (some t) = s == t

pub opt_eq→eq : (a b : Option String) → opt_eq a b ≡ true → a ≡ b
opt_eq→eq none none h = refl
opt_eq→eq none (some t) h = ground arith
opt_eq→eq (some s) none h = ground arith
opt_eq→eq (some s) (some t) h = ground (arith, eq_iff s t)

pub opt_eq_refl : (a : Option String) → opt_eq a a ≡ true
opt_eq_refl none = refl
opt_eq_refl (some s) = (eq_iff s s).1 refl

pub Bool-cases : (b : Bool) → (b ≡ true) ⊎ (b ≡ false)
Bool-cases true = inl refl
Bool-cases false = inr refl

pub Option-cases {ℓ} : {A : Type ℓ} (o : Option A) → (o ≡ none) ⊎ ((a : A) × (o ≡ some a))
Option-cases none = inl refl
Option-cases (some a) = inr (a, refl)
