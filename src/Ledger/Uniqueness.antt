-- ===== src/Ledger/Uniqueness.antt =====
-- The UNIQUE index of `action_runs` in ledger.py.
use agent_trust_ops.Prelude.{
  String, ◌≡◌, refl, sym, ◌∙◌, ap, Bool, true, false, none, some, List, [], ◌∷◌, ◌==◌, eq_iff, inl,
  inr, select, Bool-cases,
}
use agent_trust_ops.Json.{Platform}
use agent_trust_ops.Ledger.Table
use agent_trust_ops.Ledger.Table.{get-put, get-empty}
use agent_trust_ops.Ledger.Store.{Run, Db, first, has_identity, run_of_identity}
use agent_trust_ops.Ledger.Keeps.{Preserves, Preserves-IsPreorder}
use agent_trust_ops.Ledger.Trace.{
  Trace, Atom, changes, adds, logs, approves_or_not, anchored, Trace_induction,
}
use agent_trust_ops.Ledger.History.{Request, Change-Follows}
use agent_trust_ops.Ledger.Method.{Method, start, serve, serve-Trace}

-- The tenant, the action and the idempotency key.
abbrev pub identity : Run → String × String × String
identity r = (r.tenant_id, r.action_name, r.idempotency_key)

abbrev Rows : Type 0
Rows = Table.Table Run

abbrev AllUnique : Rows → Type 0
AllUnique t =
    (j k : String) (r s : Run)
    → Table.get j t ≡ some r
    → Table.get k t ≡ some s
    → identity r ≡ identity s
    → j ≡ k

-- After a write that keeps the identity, each row has one with its identity before.
row_before :
    (k j : String) (r r' x : Run) (t : Rows)
    → Table.get k t ≡ some r
    → identity r' ≡ identity r
    → Table.get j (Table.put k r' t) ≡ some x
    → (y : Run) × (Table.get j t ≡ some y) × (identity y ≡ identity x)
row_before k j r r' x t h i hx = elim (Bool-cases (k == j)) [
  | inl e ↦
      let hx' : some r' ≡ some x = (rw (get-put, e) at hx) in
      let same : r' ≡ x = cc hx' in
      let kj = (eq_iff k j).0 e in (r, rw (← kj) h, sym i ∙ ap identity same)
  | inr e ↦ (x, (rw (get-put, e) at hx), refl)
]

put-AllUnique :
    (k : String) (r r' : Run) (t : Rows)
    → Table.get k t ≡ some r
    → identity r' ≡ identity r
    → AllUnique t
    → AllUnique (Table.put k r' t)
put-AllUnique k r r' t h i all j l x z hx hz e =
    let (x₀, gx, ex) = row_before k j r r' x t h i hx in
    let (z₀, gz, ez) = row_before k l r r' z t h i hz in all j l x₀ z₀ gx gz (ex ∙ e ∙ sym ez)

none_selected :
    (test : Run → Bool) (k : String) (r : Run) (l : List (String × Run))
    → first (select test (Table.values l)) ≡ none
    → Table.lookup k l ≡ some r
    → test r ≡ false
unfolding select Table.values Table.lookup
none_selected test k r [] f h = cc
none_selected test k r ((j, x) ∷ l) f h = elim (Bool-cases (test x)) [
  | inl e ↦ let f' = (rw e at f) in cc
  | inr e ↦ elim (Bool-cases (j == k)) [
    | inl same ↦ let h' : some x ≡ some r = (rw same at h) in let xr : x ≡ r = cc h' in rw (← xr) e
    | inr other ↦ none_selected test k r l (rw e at f) (rw other at h)
  ]
]

-- A row with an identity that is free.
free_row :
    (k : String) (r s : Run) (d : Db)
    → run_of_identity r.tenant_id r.action_name r.idempotency_key d ≡ none
    → Table.get k d.runs ≡ some s
    → identity s ≡ identity r
    → true ≡ false
unfolding run_of_identity Table.rows Table.get
free_row k r s d f h i =
    let no =
      none_selected (has_identity r.tenant_id r.action_name r.idempotency_key) k s d.runs.entries f
        h in
    let a : (s.tenant_id == r.tenant_id) ≡ true =
      (eq_iff _ _).1 (ap (λ (x : String × String × String). x.0) i) in
    let b : (s.action_name == r.action_name) ≡ true =
      (eq_iff _ _).1 (ap (λ (x : String × String × String). x.1) i) in
    let c : (s.idempotency_key == r.idempotency_key) ≡ true =
      (eq_iff _ _).1 (ap (λ (x : String × String × String). x.2) i) in
    rw (a, b, c) at no

add-AllUnique :
    (r : Run) (d : Db)
    → run_of_identity r.tenant_id r.action_name r.idempotency_key d ≡ none
    → AllUnique d.runs
    → AllUnique (Table.put r.run_id r d.runs)
add-AllUnique r d f all j k x y hx hy e = elim (Bool-cases (r.run_id == j)) [
  | inl rj ↦
      let hx' : some r ≡ some x = (rw (get-put, rj) at hx) in
      let rx : r ≡ x = cc hx' in
      elim (Bool-cases (r.run_id == k)) [
        | inl rk ↦ sym ((eq_iff r.run_id j).0 rj) ∙ (eq_iff r.run_id k).0 rk
        | inr other ↦
            cc (free_row k r y d f (rw (get-put, other) at hy) (sym e ∙ sym (ap identity rx)))
      ]
  | inr other ↦
      let hx' : Table.get j d.runs ≡ some x = (rw (get-put, other) at hx) in
      elim (Bool-cases (r.run_id == k)) [
        | inl rk ↦
            let hy' : some r ≡ some y = (rw (get-put, rk) at hy) in
            let ry : r ≡ y = cc hy' in cc (free_row j r x d f hx' (e ∙ sym (ap identity ry)))
        | inr apart ↦ all j k x y hx' (rw (get-put, apart) at hy) e
      ]
]

module _ ⦃p : Platform⦄ where
  Atom-AllUnique : (d e : Db) → Atom d e → Preserves (λ d. AllUnique d.runs) d e
  Atom-AllUnique d e (changes k r r' h c q) all =
      let same =
        ap (λ (x : Request). (x.tenant_id, x.action_name, x.idempotency_key))
          (Change-Follows r r' c).same_request in
      rw q (put-AllUnique k r r' d.runs h same all)
  Atom-AllUnique d e (adds r h i n q) all = rw q (add-AllUnique r d i all)
  Atom-AllUnique d e (logs k r x h n q) all =
      rw q (put-AllUnique k r (anchored r x.event_hash) d.runs h refl all)
  Atom-AllUnique d e (approves_or_not t q) all = rw q all

  pub Trace-AllUnique : (d e : Db) → Trace d e → AllUnique d.runs → AllUnique e.runs
  Trace-AllUnique =
      Trace_induction (Preserves (λ d. AllUnique d.runs)) (Preserves-IsPreorder _) Atom-AllUnique

  start-AllUnique : AllUnique start.db.runs
  unfolding start
  start-AllUnique j k r s h g e = cc (h, get-empty {A = Run} j)

  -- From an empty ledger, whatever calls are made, two runs with the same tenant, action and
  -- idempotency key are the same run.
  pub serve_unique :
      (l : List Method) (j k : String) (r s : Run)
      → Table.get j (serve l start).db.runs ≡ some r
      → Table.get k (serve l start).db.runs ≡ some s
      → identity r ≡ identity s
      → j ≡ k
  serve_unique l j k r s h g e =
      Trace-AllUnique start.db (serve l start).db (serve-Trace l start) start-AllUnique j k r s h g
        e
