-- ===== src/Ledger/Queries/Scanning.antt =====
-- `verify_all_event_chains` of ledger.py over the ledger that its methods leave.
use agent_trust_ops.Prelude.{
  ℕ, ◌≤◌, String, ◌≡◌, refl, Bool, true, Option, none, some, List, [], ◌∷◌, arith, leb, nat_eq,
  length, select, take, All, All-take, Bool-cases, inl, inr,
}
use agent_trust_ops.Errors.{ok}
use agent_trust_ops.Json.{Platform, IsCanonical}
use agent_trust_ops.Ledger.Table
use agent_trust_ops.Ledger.Table.{HasDistinctKeys, put-HasDistinctKeys, All-rows}
use agent_trust_ops.Ledger.Store.{Run, Db, World, ◌>>=◌, collect}
use agent_trust_ops.Ledger.Keeps.{Preserves, Preserves-IsPreorder}
use agent_trust_ops.Ledger.Trace.{Atom, changes, adds, logs, approves_or_not, Trace_induction}
use agent_trust_ops.Ledger.Events.{verify_event_chain}
use agent_trust_ops.Ledger.Method.{Method, start, serve, serve-Trace}
use agent_trust_ops.Ledger.Lifecycle.{serve-IsSound}
use agent_trust_ops.Ledger.Chain.{serve_verifies}
use agent_trust_ops.Ledger.Queries.{
  recent_first, runs_of, Scan, invalid_id, scan_rows, verify_all_event_chains,
}
use agent_trust_ops.Ledger.Queries.Listing.{All-recent_first}

All-select_of :
    {A : Type 0} (P : A → Type 0) (test : A → Bool) (l : List A) → All P l → All P (select test l)
unfolding select
All-select_of P test [] a = tt
All-select_of P test (x ∷ xs) a = elim (Bool-cases (test x)) [
  | inl e ↦ rw e (a.0, All-select_of P test xs a.1)
  | inr e ↦ rw e (All-select_of P test xs a.1)
]

module _ ⦃p : Platform⦄ where
  Atom-HasDistinctKeys : (d e : Db) → Atom d e → Preserves (λ d. HasDistinctKeys d.runs) d e
  Atom-HasDistinctKeys d e (changes k r r' h c q) t = rw q (put-HasDistinctKeys k r' d.runs t)
  Atom-HasDistinctKeys d e (adds r h i n q) t = rw q (put-HasDistinctKeys r.run_id r d.runs t)
  Atom-HasDistinctKeys d e (logs k r x h n q) t = rw q (put-HasDistinctKeys k _ d.runs t)
  Atom-HasDistinctKeys d e (approves_or_not a q) t = rw q t

  serve-HasDistinctKeys : (l : List Method) → HasDistinctKeys (serve l start).db.runs
  serve-HasDistinctKeys l =
      Trace_induction (Preserves (λ d. HasDistinctKeys d.runs)) (Preserves-IsPreorder _)
        Atom-HasDistinctKeys start.db (serve l start).db (serve-Trace l start)
        (unfold start Table.empty in tt)

  -- A run whose chain `verify_event_chain` finds right.
  abbrev Verifies : World → Run → Type 0
  Verifies w r = verify_event_chain r.run_id w ≡ (ok true, w)

  serve-Verifies :
      IsCanonical p
      → (l : List Method) → All (Verifies (serve l start)) (Table.rows (serve l start).db.runs)
  serve-Verifies canonical l =
      All-rows _ (serve l start).db.runs (serve-HasDistinctKeys l) (λ k r h.
        let key = (serve-IsSound l k r h).key in
        let own : Table.get r.run_id (serve l start).db.runs ≡ some r = cc (h, key) in
        serve_verifies canonical l r.run_id r own)

  collect_none_invalid :
      (w : World) (l : List Run) → All (Verifies w) l → collect invalid_id l w ≡ (ok [], w)
  unfolding collect invalid_id ◌>>=◌
  collect_none_invalid w [] a = refl
  collect_none_invalid w (r ∷ l) a = rw a.0 (rw (collect_none_invalid w l a.1) refl)

  -- From an empty ledger, whatever calls are made, `verify_all_event_chains` with a limit from 1 to
  -- 100000 finds no invalid chain among the runs that it checks, and changes nothing, where
  -- `json.dumps` writes again the text that `json.loads` read.
  pub serve_scans :
      IsCanonical p
      → (l : List Method) (tenant : Option String) (limit : ℕ) → 1 ≤ limit
      → limit ≤ 100000
      → (s : Scan) × (verify_all_event_chains tenant limit (serve l start) ≡ (ok s, serve l start))
        × (s.invalid ≡ 0)
        × (s.invalid_run_ids ≡ [])
        × (s.checked ≡ length (take limit (recent_first (runs_of tenant none (serve l start).db))))
  unfolding verify_all_event_chains ◌>>=◌ scan_rows
  serve_scans canonical l tenant limit low high =
      let w = serve l start in
      let rows = take limit (recent_first (runs_of tenant none w.db)) in
      let a : leb 1 limit ≡ true = ground arith in
      let b : leb limit 100000 ≡ true = ground arith in
      let fine : All (Verifies w) rows = All-take _ limit _ (
        All-recent_first _ _
          (unfold runs_of in All-select_of _ _ _ (serve-Verifies canonical l))) in
      (
        record {
          checked = length rows;
          invalid = 0;
          invalid_run_ids = [];
          truncated = nat_eq (length rows) limit;
        },
        rw (a, b) (rw (collect_none_invalid w rows fine) refl),
        refl,
        refl,
        refl,
      )
