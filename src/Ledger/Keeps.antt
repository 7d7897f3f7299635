-- ===== src/Ledger/Keeps.antt =====
-- Two-state properties of actions: `Keeps R m` says that `m`, whether it returns or raises, takes
-- the database to one that `R` relates to it. There is a rule for each way to build an action.
use agent_trust_ops.Prelude.{String, ◌≡◌, refl, Bool, true, false, List, [], ◌∷◌, if◌then◌else◌}
use agent_trust_ops.Errors.{Error, Result, ok, err, require}
use agent_trust_ops.Json.{Platform}
use agent_trust_ops.Ledger.Store.{
  Db, World, M, pure, raise, lift, gets, ◌>>=◌, ◌>>◌, when, collect, for_each, transaction,
  select_run, select_approval, select_identity, now, uuid4,
}

pub record IsPreorder (R : Db → Db → Type 0) : Type 0 where
  pub same : (d : Db) → R d d
  pub chain : (c d e : Db) → R c d → R d e → R c e

pub record Keeps {A : Type 0} (R : Db → Db → Type 0) (m : M A) : Type 0 where
  pub at : (w : World) → R w.db (m w).1.db

-- The relation that says that a property of one state survives.
abbrev pub Preserves : (Db → Type 0) → Db → Db → Type 0
Preserves P c d = P c → P d

pub Preserves-IsPreorder : (P : Db → Type 0) → IsPreorder (Preserves P)
Preserves-IsPreorder P = record { same = λ d h. h; chain = λ c d e f g h. g (f h) }

module _ {A : Type 0} {R : Db → Db → Type 0} where
  pub Keeps-pure : IsPreorder R → (a : A) → Keeps R (pure a)
  unfolding ◌>>=◌
  Keeps-pure o a = record { at = λ w. o.same w.db }

  pub Keeps-raise : IsPreorder R → (e : Error) → Keeps R (raise {A = A} e)
  unfolding ◌>>=◌
  Keeps-raise o e = record { at = λ w. o.same w.db }

  pub Keeps-lift : IsPreorder R → (r : Result A) → Keeps R (lift r)
  unfolding ◌>>=◌
  Keeps-lift o r = record { at = λ w. o.same w.db }

  pub Keeps-gets : IsPreorder R → (f : World → A) → Keeps R (gets f)
  unfolding ◌>>=◌
  Keeps-gets o f = record { at = λ w. o.same w.db }

  pub Keeps-if : (b : Bool) (m n : M A) → Keeps R m → Keeps R n → Keeps R (if b then m else n)
  Keeps-if true m n km kn = km
  Keeps-if false m n km kn = kn

  transaction_at :
      IsPreorder R
      → (w : World) (r : Result A × World) → R w.db r.1.db
      → R w.db (transaction (λ _. r) w).1.db
  unfolding transaction
  transaction_at o w (ok a, w') h = h
  transaction_at o w (err e, w') h = o.same w.db

  pub transaction_from :
      IsPreorder R → (m : M A) (w : World) → R w.db (m w).1.db → R w.db (transaction m w).1.db
  unfolding transaction
  transaction_from o m w h = transaction_at o w (m w) h

  pub Keeps-transaction : IsPreorder R → (m : M A) → Keeps R m → Keeps R (transaction m)
  unfolding transaction
  Keeps-transaction o m k = record { at = λ w. transaction_at o w (m w) (k.at w) }

module _ {A B : Type 0} {R : Db → Db → Type 0} where
  bind_at :
      IsPreorder R
      → (w : World) (r : Result A × World) (f : A → M B) → R w.db r.1.db
      → ((a : A) → r.0 ≡ ok a → R r.1.db (f a r.1).1.db)
      → R w.db (((λ _. r) >>= f) w).1.db
  unfolding ◌>>=◌
  bind_at o w (ok a, w') f h g = o.chain w.db w'.db (f a w').1.db h (g a refl)
  bind_at o w (err e, w') f h g = h

  pub Keeps-bind :
      IsPreorder R
      → (m : M A) (f : A → M B) → Keeps R m
      → ((a : A) → Keeps R (f a))
      → Keeps R (m >>= f)
  unfolding ◌>>=◌
  Keeps-bind o m f km kf = record {
    at = λ w. bind_at o w (m w) f (km.at w) (λ a e. (kf a).at (m w).1);
  }

  -- The rest may use what the first part returned, and the world that it left.
  pub bind_from :
      IsPreorder R
      → (m : M A) (f : A → M B) (w : World) → R w.db (m w).1.db
      → ((a : A) → (m w).0 ≡ ok a → R (m w).1.db (f a (m w).1).1.db)
      → R w.db ((m >>= f) w).1.db
  unfolding ◌>>=◌
  bind_from o m f w km kf = bind_at o w (m w) f km kf

-- What follows a check may use that the check passed.
pub Keeps-checked :
    {A : Type 0} {R : Db → Db → Type 0}
    → IsPreorder R
    → (b : Bool) (e : Error) (m : M A) → (b ≡ true → Keeps R m)
    → Keeps R (lift (require b e) >> m)
unfolding ◌>>=◌
Keeps-checked o true e m k = record { at = λ w. (k refl).at w }
Keeps-checked o false e m k = record { at = λ w. o.same w.db }

pub checked_from :
    {A : Type 0} {R : Db → Db → Type 0}
    → IsPreorder R
    → (b : Bool) (e : Error) (m : M A) (w : World) → (b ≡ true → R w.db (m w).1.db)
    → R w.db ((lift (require b e) >> m) w).1.db
unfolding ◌>>=◌
checked_from o true e m w k = k refl
checked_from o false e m w k = o.same w.db

pub if_from :
    {A : Type 0} {R : Db → Db → Type 0}
    → IsPreorder R
    → (b : Bool) (m n : M A) (w : World) → (b ≡ true → R w.db (m w).1.db)
    → (b ≡ false → R w.db (n w).1.db)
    → R w.db ((if b then m else n) w).1.db
if_from o true m n w km kn = km refl
if_from o false m n w km kn = kn refl

pub Keeps-when :
    {R : Db → Db → Type 0}
    → IsPreorder R
    → (b : Bool) (m : M (Unit {0})) → Keeps R m
    → Keeps R (when b m)
unfolding when
Keeps-when o true m k = k
Keeps-when o false m k = Keeps-pure o tt

module _ {A B : Type 0} {R : Db → Db → Type 0} where
  pub Keeps-collect :
      IsPreorder R
      → (f : A → M (List B)) (l : List A) → ((a : A) → Keeps R (f a))
      → Keeps R (collect f l)
  unfolding collect
  Keeps-collect o f [] k = Keeps-pure o []
  Keeps-collect o f (x ∷ xs) k =
      Keeps-bind o (f x) _ (k x)
        (λ found. Keeps-bind o (collect f xs) _ (Keeps-collect o f xs k) (λ rest. Keeps-pure o _))

module _ {A : Type 0} {R : Db → Db → Type 0} where
  pub Keeps-for_each :
      IsPreorder R
      → (f : A → M (Unit {0})) (l : List A) → ((a : A) → Keeps R (f a))
      → Keeps R (for_each f l)
  unfolding for_each
  Keeps-for_each o f [] k = Keeps-pure o tt
  Keeps-for_each o f (x ∷ xs) k = Keeps-bind o (f x) _ (k x) (λ _. Keeps-for_each o f xs k)

module _ {R : Db → Db → Type 0} (o : IsPreorder R) where
  pub Keeps-select_run : (k : String) → Keeps R (select_run k)
  unfolding select_run
  Keeps-select_run k = record { at = λ w. o.same w.db }

  pub Keeps-select_approval : (k : String) → Keeps R (select_approval k)
  unfolding select_approval
  Keeps-select_approval k = record { at = λ w. o.same w.db }

  pub Keeps-select_identity : (t a k : String) → Keeps R (select_identity t a k)
  unfolding select_identity
  Keeps-select_identity t a k = record { at = λ w. o.same w.db }

  pub Keeps-now : ⦃p : Platform⦄ → Keeps R now
  unfolding now
  Keeps-now = record { at = λ w. o.same w.db }

  pub Keeps-uuid4 : ⦃p : Platform⦄ → Keeps R uuid4
  unfolding uuid4
  Keeps-uuid4 = record { at = λ w. o.same w.db }

pub ruleset keeps_rules = (
  Keeps-pure, Keeps-raise, Keeps-lift, Keeps-gets, Keeps-if, Keeps-transaction, Keeps-bind,
  Keeps-when, Keeps-collect, Keeps-for_each, Keeps-select_run, Keeps-select_approval,
  Keeps-select_identity, Keeps-now, Keeps-uuid4,
)
