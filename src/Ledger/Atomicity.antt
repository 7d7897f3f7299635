-- ===== src/Ledger/Atomicity.antt =====
-- The methods of ledger.py when they raise.
use agent_trust_ops.Prelude.{◌≡◌, refl, ◌∙◌}
use agent_trust_ops.Errors.{Error, Result, ok, err}
use agent_trust_ops.Json.{Platform}
use agent_trust_ops.Ledger.Store.{Db, World, M, pure, lift, ◌>>=◌, ◌>>◌, transaction, settle, now}
use agent_trust_ops.Ledger.Runs.{create_or_get_run, record_duplicate, record_policy_decision}
use agent_trust_ops.Ledger.Approvals.{decide_approval, expire_approvals}
use agent_trust_ops.Ledger.Execution.{
  claim_execution, heartbeat_execution, finish_execution, complete_execution, fail_execution,
  mark_execution_unknown, recover_expired_executions,
}
use agent_trust_ops.Ledger.Reconcile.{reconcile_run, apply_provider_observation}
use agent_trust_ops.Ledger.Method.{Method, creates, perform}

pub record IsAtomic {A : Type 0} (m : M A) : Type 0 where
  pub at : (w : World) (e : Error) → (m w).0 ≡ err e → (m w).1.db ≡ w.db

-- An action that never writes.
record IsQuiet {A : Type 0} (m : M A) : Type 0 where
  at : (w : World) → (m w).1.db ≡ w.db

module _ {A : Type 0} where
  settled :
      (d : Db) (r : Result A × World) (e : Error)
      → (settle d r.0 r.1).0 ≡ err e
      → (settle d r.0 r.1).1.db ≡ d
  settled d (ok a, w) e h = cc h
  settled d (err x, w) e h = refl

  IsAtomic-transaction : (m : M A) → IsAtomic (transaction m)
  unfolding transaction
  IsAtomic-transaction m = record { at = λ w e h. settled w.db (m w) e h }

  IsQuiet-lift : (r : Result A) → IsQuiet (lift r)
  unfolding ◌>>=◌
  IsQuiet-lift r = record { at = λ w. refl }

module _ ⦃p : Platform⦄ where
  IsQuiet-now : IsQuiet now
  unfolding now
  IsQuiet-now = record { at = λ w. refl }

module _ {A B : Type 0} where
  after_quiet :
      (d : Db) (r : Result A × World) (f : A → M B) (e : Error)
      → r.1.db ≡ d
      → ((a : A) → IsAtomic (f a))
      → (((λ _. r) >>= f) r.1).0 ≡ err e
      → (((λ _. r) >>= f) r.1).1.db ≡ d
  unfolding ◌>>=◌
  after_quiet d (ok a, w) f e q k h = (k a).at w e h ∙ q
  after_quiet d (err x, w) f e q k h = q

  -- What only reads, then what is atomic.
  IsAtomic-after :
      (m : M A) (f : A → M B) → IsQuiet m → ((a : A) → IsAtomic (f a)) → IsAtomic (m >>= f)
  unfolding ◌>>=◌
  IsAtomic-after m f q k = record { at = λ w e h. after_quiet w.db (m w) f e (q.at w) k h }

  unfailing :
      (d : Db) (r : Result A × World) (b : B) (e : Error)
      → ((x : Error) → r.0 ≡ err x → r.1.db ≡ d)
      → (((λ _. r) >> pure b) r.1).0 ≡ err e
      → (((λ _. r) >> pure b) r.1).1.db ≡ d
  unfolding ◌>>=◌
  unfailing d (ok a, w) b e k h = cc h
  unfailing d (err x, w) b e k h = k x refl

  IsAtomic-then_pure : (m : M A) (b : B) → IsAtomic m → IsAtomic (m >> pure b)
  unfolding ◌>>=◌
  IsAtomic-then_pure m b k = record { at = λ w e h. unfailing w.db (m w) b e (k.at w) h }

ruleset atomic_rules =
    (IsAtomic-transaction, IsQuiet-lift, IsQuiet-now, IsAtomic-after, IsAtomic-then_pure)

module _ ⦃p : Platform⦄ where
  perform-IsAtomic : (m : Method) → IsAtomic (perform m)
  unfolding perform create_or_get_run record_duplicate record_policy_decision decide_approval
      expire_approvals claim_execution heartbeat_execution complete_execution fail_execution
      mark_execution_unknown finish_execution recover_expired_executions reconcile_run
      apply_provider_observation
  perform-IsAtomic (creates n) = search atomic_rules depth 10
  perform-IsAtomic _ = search atomic_rules depth 10

  -- Every method of the ledger is all or nothing: a call that raises, for whatever reason, leaves
  -- the tables as they were.
  pub perform_atomic :
      (m : Method) (w : World) (e : Error) → (perform m w).0 ≡ err e → (perform m w).1.db ≡ w.db
  perform_atomic m w e h = (perform-IsAtomic m).at w e h
