-- ===== src/Runtime/Cover.antt =====
-- The calls of protected functions in runtime.py against the claims of ledger.py: `IsCovered` says
-- that a run has no more calls than attempts, and there is a rule for each way to build an action.
use agent_trust_ops.Prelude.{
  ℕ, ◌+◌, ◌≤◌, String, ◌≡◌, refl, Bool, true, false, Option, none, some, List, [], ◌∷◌, ◌++◌, arith,
  ◌==◌, eq_iff, length, length-append, select, select-append, inl, inr, Bool-cases, Option-cases,
  if◌then◌else◌,
}
use agent_trust_ops.Errors.{Error, Result, ok, err}
use agent_trust_ops.Json.{Platform}
use agent_trust_ops.Ledger.Table
use agent_trust_ops.Ledger.Store.{Run, Call, Db, World, M, pure, raise, lift, ◌>>=◌, attempt}
use agent_trust_ops.Ledger.Keeps.{Keeps}
use agent_trust_ops.Ledger.Trace.{Trace}
use agent_trust_ops.Ledger.History.{Evolves, Trace-Evolves}
use agent_trust_ops.Ledger.Lifecycle.{AllSound, Trace-AllSound}
use agent_trust_ops.Ledger.Silence.{IsSilent}

-- How often a protected function was called for a run.
unfoldable pub calls_of : String → List Call → ℕ
calls_of k l = length (select (λ c. c.run_id == k) l)

-- How often the run was claimed.
abbrev pub attempt_of : Option Run → ℕ
attempt_of none = 0
attempt_of (some r) = r.attempt

abbrev pub attempts : String → Db → ℕ
attempts k d = attempt_of (Table.get k d.runs)

pub record IsCovered (w : World) : Type 0 where
  pub sound : AllSound w.db
  pub calls : (k : String) → calls_of k w.calls ≤ attempts k w.db

pub record Covers {A : Type 0} (m : M A) : Type 0 where
  pub at : (w : World) → IsCovered w → IsCovered (m w).1

pub attempts_grow : (k : String) (d e : Db) → Evolves d e → attempts k d ≤ attempts k e
attempts_grow k d e v = elim (Option-cases (Table.get k d.runs)) [
  | inl lacking ↦ rw lacking (omega arith)
  | inr (r, h) ↦ let (r', h', f) = v.runs k r h in rw (h, h') f.attempts
]

module _ ⦃p : Platform⦄ where
  -- A method of the ledger, or what changes it as the methods do.
  pub Covers-Trace : {A : Type 0} (m : M A) → Keeps Trace m → IsSilent m → Covers m
  Covers-Trace m t s = record {
    at = λ w c. record {
      sound = Trace-AllSound w.db (m w).1.db (t.at w) c.sound;
      calls = λ k.
          let grown = attempts_grow k w.db (m w).1.db (Trace-Evolves _ _ (t.at w)) in
          let before = c.calls k in rw (s.at w) (omega arith);
    };
  }

module _ {A : Type 0} where
  pub Covers-pure : (a : A) → Covers (pure a)
  unfolding ◌>>=◌
  Covers-pure a = record { at = λ w c. c }

  pub Covers-raise : (e : Error) → Covers (raise {A = A} e)
  unfolding ◌>>=◌
  Covers-raise e = record { at = λ w c. c }

  pub Covers-lift : (r : Result A) → Covers (lift r)
  unfolding ◌>>=◌
  Covers-lift r = record { at = λ w c. c }

  pub Covers-if : (b : Bool) (m n : M A) → Covers m → Covers n → Covers (if b then m else n)
  Covers-if true m n km kn = km
  Covers-if false m n km kn = kn

  pub Covers-attempt : (m : M A) → Covers m → Covers (attempt m)
  unfolding attempt
  Covers-attempt m k = record { at = λ w c. k.at w c }

module _ {A B : Type 0} where
  IsCovered-rest :
      (w : World) (r : Result A × World) (f : A → M B)
      → IsCovered r.1
      → ((a : A) → r.0 ≡ ok a → IsCovered (f a r.1).1)
      → IsCovered (((λ _. r) >>= f) w).1
  unfolding ◌>>=◌
  IsCovered-rest w (ok a, w') f c k = k a refl
  IsCovered-rest w (err e, w') f c k = c

  -- The rest may use what the first part returned.
  pub IsCovered-bind :
      (m : M A) (f : A → M B) (w : World)
      → IsCovered (m w).1
      → ((a : A) → (m w).0 ≡ ok a → IsCovered (f a (m w).1).1)
      → IsCovered ((m >>= f) w).1
  unfolding ◌>>=◌
  IsCovered-bind m f w c k = IsCovered-rest w (m w) f c k

  pub Covers-bind : (m : M A) (f : A → M B) → Covers m → ((a : A) → Covers (f a)) → Covers (m >>= f)
  Covers-bind m f km kf = record {
    at = λ w c. IsCovered-bind m f w (km.at w c) (λ a _. (kf a).at (m w).1 (km.at w c));
  }

-- A call for a run with an attempt to spare.
pub IsCovered-call :
    (w w' : World) (c : Call)
    → IsCovered w
    → AllSound w'.db
    → Evolves w.db w'.db
    → calls_of c.run_id w.calls + 1 ≤ attempts c.run_id w.db
    → IsCovered (record w' { calls = w.calls ++ c ∷ [] })
unfolding calls_of select
IsCovered-call w w' c v sound e spare = record {
  sound = sound;
  calls = λ k.
      let grown = attempts_grow k w.db w'.db e in
      let before = v.calls k in
      elim (Bool-cases (c.run_id == k)) [
        | inl same ↦
            let here : c.run_id ≡ k = (eq_iff c.run_id k).0 same in
            let spare' : calls_of k w.calls + 1 ≤ attempts k w.db = rw (← here) spare in
            rw (select-append, same, length-append) (omega arith)
        | inr other ↦ rw (select-append, other, length-append) (omega arith)
      ];
}
