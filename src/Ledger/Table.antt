-- ===== src/Ledger/Table.antt =====
-- A table of the database with a text primary key, in the order of insertion. `put` replaces the
-- row of its key in place, or adds a row at the end.
use agent_trust_ops.Prelude.{
  String, ◌≡◌, refl, Option, none, some, List, [], ◌∷◌, arith, ◌==◌, eq_iff, false, All, Bool-cases,
  inl, inr, if◌then◌else◌,
}

pub record Table (A : Type 0) : Type 0 where
  pub entries : List (String × A)

module _ {A : Type 0} where
  unfoldable pub lookup : String → List (String × A) → Option A
  lookup k [] = none
  lookup k ((j, a) ∷ l) = if j == k then some a else lookup k l

  pub replace : String → A → List (String × A) → List (String × A)
  replace k a [] = (k, a) ∷ []
  replace k a ((j, b) ∷ l) = if j == k then (k, a) ∷ l else (j, b) ∷ replace k a l

  unfoldable pub values : List (String × A) → List A
  values [] = []
  values ((j, a) ∷ l) = a ∷ values l

  unfoldable pub get : String → Table A → Option A
  unfolding lookup
  get k t = lookup k t.entries

  unfoldable pub put : String → A → Table A → Table A
  unfolding replace
  put k a t = record { entries = replace k a t.entries }

  unfoldable pub rows : Table A → List A
  unfolding values
  rows t = values t.entries

  lookup-replace :
      (k j : String) (a : A) (l : List (String × A))
      → lookup j (replace k a l) ≡ (if k == j then some a else lookup j l)
  unfolding lookup replace
  lookup-replace k j a [] = refl
  lookup-replace k j a ((i, b) ∷ l) =
      ground (arith, eq_iff k j, eq_iff i k, eq_iff i j, lookup-replace k j a l)

  -- A write is read back under its own key and changes no other row.
  pub get-put :
      (k j : String) (a : A) (t : Table A)
      → get j (put k a t) ≡ (if k == j then some a else get j t)
  unfolding get put
  get-put k j a t = lookup-replace k j a t.entries

unfoldable pub empty : {A : Type 0} → Table A
empty = record { entries = [] }

pub get-empty : {A : Type 0} (k : String) → get k (empty {A = A}) ≡ none
unfolding get empty lookup
get-empty k = refl

-- No key stands twice.
module _ {A : Type 0} where
  abbrev Distinct : List (String × A) → Type 0
  Distinct [] = Unit
  Distinct ((k, a) ∷ l) = (lookup k l ≡ none) × Distinct l

  abbrev pub HasDistinctKeys : Table A → Type 0
  HasDistinctKeys t = Distinct t.entries

  replace-Distinct :
      (k : String) (a : A) (l : List (String × A)) → Distinct l → Distinct (replace k a l)
  unfolding replace lookup
  replace-Distinct k a [] d = (refl, tt)
  replace-Distinct k a ((j, b) ∷ l) d = elim (Bool-cases (j == k)) [
    | inl e ↦ rw e (rw (← (eq_iff j k).0 e) d.0, d.1)
    | inr e ↦
        let apart : (k == j) ≡ false = ground (arith, eq_iff j k, eq_iff k j) in
        rw e (rw (lookup-replace, apart) d.0, replace-Distinct k a l d.1)
  ]

  pub put-HasDistinctKeys :
      (k : String) (a : A) (t : Table A) → HasDistinctKeys t → HasDistinctKeys (put k a t)
  unfolding put
  put-HasDistinctKeys k a t d = replace-Distinct k a t.entries d

  -- What holds of every row that a key finds holds of every row.
  All-values :
      (P : A → Type 0) (l : List (String × A))
      → Distinct l
      → ((k : String) (a : A) → lookup k l ≡ some a → P a)
      → All P (values l)
  unfolding values lookup
  All-values P [] d h = tt
  All-values P ((j, b) ∷ l) d h = (
    h j b (rw ((eq_iff j j).1 refl) refl),
    All-values P l d.1 (λ k a found. elim (Bool-cases (j == k)) [
      | inl e ↦ let jk = (eq_iff j k).0 e in cc (found, d.0, jk)
      | inr e ↦ h k a (rw e found)
    ]),
  )

  pub All-rows :
      (P : A → Type 0) (t : Table A)
      → HasDistinctKeys t
      → ((k : String) (a : A) → get k t ≡ some a → P a)
      → All P (rows t)
  unfolding rows get
  All-rows P t d h = All-values P t.entries d h
