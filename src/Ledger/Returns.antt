-- ===== src/Ledger/Returns.antt =====
-- Postconditions: `Returns Q m w` says that if `m` returns from the world `w`, then its value and
-- the world that it leaves satisfy `Q`.
use agent_trust_ops.Prelude.{
  String, ◌≡◌, refl, Bool, true, false, Option, none, some, if◌then◌else◌, eq_iff, Bool-cases, inl,
  inr,
}
use agent_trust_ops.Errors.{Error, Result, ok, err, require}
use agent_trust_ops.Ledger.Table
use agent_trust_ops.Ledger.Table.{get-put}
use agent_trust_ops.Ledger.Store.{
  Run, Db, World, M, pure, raise, lift, ◌>>=◌, ◌>>◌, transaction, settle, update_run, write_run,
}

module _ {A : Type 0} where
  abbrev pub Returns : (A → World → Type 0) → M A → World → Type 0
  Returns Q m w = (a : A) → (m w).0 ≡ ok a → Q a (m w).1

  pub Returns-pure : (Q : A → World → Type 0) (a : A) (w : World) → Q a w → Returns Q (pure a) w
  unfolding ◌>>=◌
  Returns-pure Q a w q b e = let same : a ≡ b = cc e in rw (← same) q

  pub Returns-raise : (Q : A → World → Type 0) (e : Error) (w : World) → Returns Q (raise e) w
  unfolding ◌>>=◌
  Returns-raise Q e w a h = cc h

  settled :
      (Q : A → World → Type 0) (d : Db) (r : Result A × World)
      → ((a : A) → r.0 ≡ ok a → Q a r.1)
      → (a : A) → (settle d r.0 r.1).0 ≡ ok a
      → Q a (settle d r.0 r.1).1
  settled Q d (ok b, w) q a h = q a h
  settled Q d (err e, w) q a h = cc h

  pub Returns-transaction :
      (Q : A → World → Type 0) (m : M A) (w : World) → Returns Q m w → Returns Q (transaction m) w
  unfolding transaction
  Returns-transaction Q m w q a h = settled Q w.db (m w) q a h

  pub Returns-checked :
      (Q : A → World → Type 0) (b : Bool) (e : Error) (m : M A) (w : World)
      → (b ≡ true → Returns Q m w)
      → Returns Q (lift (require b e) >> m) w
  unfolding ◌>>=◌
  Returns-checked Q true e m w q a h = q refl a h
  Returns-checked Q false e m w q a h = cc h

  pub Returns-if :
      (Q : A → World → Type 0) (b : Bool) (m n : M A) (w : World)
      → (b ≡ true → Returns Q m w)
      → (b ≡ false → Returns Q n w)
      → Returns Q (if b then m else n) w
  Returns-if Q true m n w qm qn a h = qm refl a h
  Returns-if Q false m n w qm qn a h = qn refl a h

module _ {A B : Type 0} where
  continued :
      (Q : B → World → Type 0) (r : Result A × World) (f : A → M B)
      → ((a : A) → r.0 ≡ ok a → Returns Q (f a) r.1)
      → Returns Q ((λ _. r) >>= f) r.1
  unfolding ◌>>=◌
  continued Q (ok a, w) f q b h = q a refl b h
  continued Q (err e, w) f q b h = cc h

  pub Returns-bind :
      (Q : B → World → Type 0) (m : M A) (f : A → M B) (w : World)
      → ((a : A) → (m w).0 ≡ ok a → Returns Q (f a) (m w).1)
      → Returns Q (m >>= f) w
  unfolding ◌>>=◌
  Returns-bind Q m f w q = continued Q (m w) f q

pub lifted : {A : Type 0} (m : Result A) (a : A) (w : World) → (lift m w).0 ≡ ok a → m ≡ ok a
unfolding ◌>>=◌
lifted m a w h = h

-- What an UPDATE that changed a row has done.
pub record IsUpdated (k : String) (guard : Run → Bool) (change : Run → Run) (d e : Db)
    : Type 0 where
  pub row : Run
  pub found : Table.get k d.runs ≡ some row
  pub guarded : guard row ≡ true
  pub written : Table.get k e.runs ≡ some (change row)

write_run_lem :
    (k : String) (guard : Run → Bool) (change : Run → Run) (w : World) (o : Option Run)
    → Table.get k w.db.runs ≡ o
    → (write_run guard change o k w).0 ≡ ok true
    → IsUpdated k guard change w.db (write_run guard change o k w).1.db
write_run_lem k guard change w none h e = cc e
write_run_lem k guard change w (some r) h e = elim (Bool-cases (guard r)) [
  | inr g ↦ cc (rw g at e)
  | inl g ↦
      rw g (record { row = r; found = h; guarded = g; written = rw (get-put, (eq_iff k k).1 refl) })
]

pub update_run_lem :
    (k : String) (guard : Run → Bool) (change : Run → Run) (w : World)
    → (update_run k guard change w).0 ≡ ok true
    → IsUpdated k guard change w.db (update_run k guard change w).1.db
unfolding update_run
update_run_lem k guard change w e = write_run_lem k guard change w _ refl e
