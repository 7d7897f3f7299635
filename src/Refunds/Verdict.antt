-- ===== src/Refunds/Verdict.antt =====
-- What the metrics of `evaluate_release` in refund_ops.py amount to.
use agent_trust_ops.Prelude.{
  ℕ, ◌+◌, ◌≤◌, String, ◌≡◌, refl, Bool, true, false, not, ◌&&◌, List, [], ◌∷◌, ◌++◌, arith, ◌==◌,
  eq_iff, leb, ltb, nat_eq, length, length-append, select,
}
use agent_trust_ops.Errors.{Result, ok, err}
use agent_trust_ops.Json.{Json, Platform}
use agent_trust_ops.Models.{
  ActionStatus, completed, pending_approval, is_status, is_status→eq, status_value, ActionResult,
}
use agent_trust_ops.Ledger.Store.{Call, World, pure, gets, ◌>>=◌}
use agent_trust_ops.Ledger.Method.{Method}
use agent_trust_ops.Ledger.Returns.{Returns, Returns-pure, Returns-bind}
use agent_trust_ops.Refunds.{Builtins}
use agent_trust_ops.Refunds.Store.{
  Amount, RefundStore, empty_store, refunds_of, count_refunds, IsUnique, execute_refund-IsUnique,
}
use agent_trust_ops.Refunds.Release.{
  bound_amount, refund_request, insert_refund, serve_refund, run_refund, store_after, Scenario,
  ScenarioResult, Metrics, no_metrics, counted, decision_correct, policy_correct, bypasses_approval,
  score, release_allowed, counted_refunds, play_scenario, run_scenario, score_each,
  evaluate_release,
}

unfoldable pub all_passed : List ScenarioResult → Bool
all_passed [] = true
all_passed (x ∷ l) = x.passed && all_passed l

all_passed-append :
    (l : List ScenarioResult) (x : ScenarioResult)
    → all_passed (l ++ x ∷ []) ≡ (all_passed l && x.passed)
unfolding all_passed
all_passed-append [] x = ground (arith)
all_passed-append (y ∷ l) x = ground (arith, all_passed-append l x)

tally_lem :
    (d q bypass : Bool) (a b c e : ℕ) (all : Bool)
    → (bypass ≡ true → d ≡ false)
    → (nat_eq a 0 && nat_eq b 0 && nat_eq c 0 && nat_eq e 0) ≡ all
    → (nat_eq (counted (not d) a) 0
        && nat_eq (counted (not q) b) 0
        && nat_eq (counted bypass c) 0
        && nat_eq e 0)
      ≡ (all && (d && q && true))
tally_lem true true true a b c e all h i = cc (h refl)
tally_lem true true false a b c e all h i = ground arith
tally_lem true false bypass a b c e all h i = ground arith
tally_lem false q bypass a b c e all h i = ground arith

both_true : (a b : Bool) → (a && b) ≡ true → (a ≡ true) × (b ≡ true)
both_true true true h = (refl, refl)
both_true true false h = cc h
both_true false b h = cc h

completed_unexpected :
    (s : ActionStatus) (t : String)
    → (t == status_value pending_approval && is_status s completed) ≡ true
    → (status_value s == t) ≡ false
unfolding status_value
completed_unexpected s t h =
    let (waits, done) = both_true _ _ h in
    let st = is_status→eq s completed done in
    let tt' = (eq_iff t (status_value pending_approval)).0 waits in rw (st, tt') refl

-- A bypass is a wrong decision.
bypass_lem :
    (sc : Scenario) (r : ActionResult)
    → bypasses_approval sc r ≡ true
    → decision_correct sc r ≡ false
unfolding bypasses_approval decision_correct
bypass_lem sc r h = completed_unexpected r.status sc.expected_status h

-- What metrics add up to.
pub record IsScored (m : Metrics) : Type 0 where
  pub allowed : release_allowed m ≡ all_passed m.results
  pub single : m.duplicate_side_effects ≡ 0
  pub whole : m.scenarios ≡ length m.results

score-IsScored :
    (sc : Scenario) (r : ActionResult) (n : ℕ) (m : Metrics)
    → n ≤ 1
    → IsScored m
    → IsScored (score sc r n m)
unfolding score release_allowed
score-IsScored sc r n m few i =
    let low : ltb 1 n ≡ false = ground arith in
    let few' : leb n 1 ≡ true = ground arith in
    record {
      allowed =
          rw (low, all_passed-append, few')
            (tally_lem (decision_correct sc r) (policy_correct sc r) (bypasses_approval sc r) _ _ _
              _ _ (bypass_lem sc r) i.allowed);
      single = rw low i.single;
      whole = rw (length-append, i.whole) (ground arith);
    }

insert_refund-IsUnique :
    (k : String) (v : Json) (r : Result Amount) (s : RefundStore)
    → IsUnique s
    → IsUnique (insert_refund k v r s).1
insert_refund-IsUnique k v (err e) s u = u
insert_refund-IsUnique k v (ok amount) s u = execute_refund-IsUnique k amount s u

serve_refund-IsUnique :
    (b : Builtins) (r : Result (String × Json)) (s : RefundStore)
    → IsUnique s
    → IsUnique (serve_refund b r s).1
serve_refund-IsUnique b (err e) s u = u
serve_refund-IsUnique b (ok (k, v)) s u = insert_refund-IsUnique k v (bound_amount b v) s u

length-score :
    (sc : Scenario) (r : ActionResult) (n : ℕ) (m : Metrics)
    → length (score sc r n m).results ≡ length m.results + 1
unfolding score
length-score sc r n m = rw length-append refl

run_refund-IsUnique :
    (b : Builtins) (v : Json) (s : RefundStore) → IsUnique s → IsUnique (run_refund b v s).1
unfolding run_refund
run_refund-IsUnique b v s u = serve_refund-IsUnique b (refund_request b v) s u

store_after-IsUnique :
    (b : Builtins) (l : List Call) (s : RefundStore) → IsUnique s → IsUnique (store_after b l s)
unfolding store_after
store_after-IsUnique b [] s u = u
store_after-IsUnique b (c ∷ l) s u =
    store_after-IsUnique b l _ (run_refund-IsUnique b c.arguments s u)

gotten : {A : Type 0} (f : World → A) (a : A) (w : World) → (gets f w).0 ≡ ok a → f w ≡ a
unfolding ◌>>=◌
gotten f a w h = cc h

empty-IsUnique : IsUnique empty_store
unfolding refunds_of select
empty-IsUnique k = omega arith

no_metrics-IsScored : IsScored no_metrics
unfolding release_allowed all_passed
no_metrics-IsScored = record { allowed = refl; single = refl; whole = refl }

-- The pair that a scenario returns has a count of at most one.
abbrev IsSingle : ActionResult × ℕ → World → Type 0
IsSingle x w = x.1 ≤ 1

-- The state of the loop: scored, and one result for each scenario so far.
abbrev IsTallied : ℕ → Metrics → World → Type 0
IsTallied n m w = IsScored m × (length m.results ≡ n)

module _ ⦃p : Platform⦄ where
  counted_once :
      (b : Builtins) (sc : Scenario) (r : ActionResult) (w : World)
      → Returns IsSingle (counted_refunds b sc r) w
  unfolding counted_refunds count_refunds
  counted_once b sc r w =
      Returns-bind IsSingle (gets _) (λ n. pure (r, n)) w
        (λ n e.
          let u = store_after-IsUnique b w.calls empty_store empty-IsUnique sc.order_id in
          let same = gotten _ n w e in Returns-pure IsSingle (r, n) _ (rw (← same) u))

  run_scenario_once :
      (b : Builtins) (meanwhile : List Call → Call → List Method) (config : Json) (sc : Scenario)
      (w : World)
      → Returns IsSingle (run_scenario b meanwhile config sc) w
  unfolding run_scenario play_scenario
  run_scenario_once b meanwhile config sc w = Returns-bind IsSingle _ _ w (λ _ _.
      Returns-bind IsSingle _ (play_scenario b meanwhile sc) _ (λ policy _.
        Returns-bind IsSingle _ _ _
          (λ c _. Returns-bind IsSingle _ (counted_refunds b sc) _ (λ r _. counted_once b sc r _))))

  score_each-IsTallied :
      (b : Builtins) (meanwhile : List Call → Call → List Method) (config : Json)
      (l : List Scenario) (m : Metrics) (n : ℕ) (w : World)
      → IsTallied n m w
      → Returns (IsTallied (n + length l)) (score_each b meanwhile config l m) w
  unfolding score_each
  score_each-IsTallied b meanwhile config [] m n w i =
      Returns-pure (IsTallied (n + 0)) m w (i.0, omega (arith, i.1))
  score_each-IsTallied b meanwhile config (sc ∷ l) m n w i =
      Returns-bind (IsTallied (n + length (sc ∷ l))) (run_scenario b meanwhile config sc) _ w
        (λ seen e a h.
          let few = run_scenario_once b meanwhile config sc w seen e in
          let one_more = length-score sc seen.0 seen.1 m in
          let x =
            score_each-IsTallied b meanwhile config l (score sc seen.0 seen.1 m) (n + 1) _
              (score-IsScored sc seen.0 seen.1 m few i.0, omega (arith, i.1, one_more)) a h in
          (x.0, omega (arith, x.1)))

  abbrev Evaluated : ℕ → Metrics × Bool → World → Type 0
  Evaluated n x w =
      (x.1 ≡ all_passed x.0.results) × (length x.0.results ≡ n) × (x.0.duplicate_side_effects ≡ 0)

  -- Where `evaluate_release` returns, it allows the release just if every scenario has passed; it
  -- has one result for each scenario, and has seen no duplicate side effect.
  pub evaluate_release_lem :
      (b : Builtins) (meanwhile : List Call → Call → List Method) (config : Json)
      (scenarios : List Scenario) (w : World) (m : Metrics) (allowed : Bool)
      → (evaluate_release b meanwhile config scenarios w).0 ≡ ok (m, allowed)
      → (allowed ≡ all_passed m.results)
        × (length m.results ≡ length scenarios)
        × (m.duplicate_side_effects ≡ 0)
  unfolding evaluate_release
  evaluate_release_lem b meanwhile config scenarios w m allowed h =
      Returns-bind (Evaluated (length scenarios))
        (score_each b meanwhile config scenarios no_metrics) (λ n. pure (n, release_allowed n)) w
        (λ n e.
          let x =
            score_each-IsTallied b meanwhile config scenarios no_metrics 0 w
              (no_metrics-IsScored, refl) n e in
          Returns-pure (Evaluated (length scenarios)) (n, release_allowed n) _
            (x.0.allowed, omega (arith, x.1), x.0.single))
        (m, allowed) h
