-- ===== src/Ledger/Lifecycle.antt =====
-- The columns of a run in ledger.py, against its status.
use agent_trust_ops.Prelude.{
  ℕ, String, ◌≡◌, refl, Bool, true, false, ◌||◌, inl, inr, Option, none, some, List, arith, ◌==◌,
  eq_iff, Bool-cases,
}
use agent_trust_ops.Json.{Platform}
use agent_trust_ops.Models.{
  ActionStatus, created, executing, unknown, completed, failed, is_status, allow, deny,
  approval_required,
}
use agent_trust_ops.Ledger.Table
use agent_trust_ops.Ledger.Table.{get-put, get-empty}
use agent_trust_ops.Ledger.Store.{Run, Db, World}
use agent_trust_ops.Ledger.Machine.{
  completes, fails, loses, reconciles_completed, reconciles_failed,
}
use agent_trust_ops.Ledger.Keeps.{Preserves, Preserves-IsPreorder}
use agent_trust_ops.Ledger.Execution.{is_claimable, has_policy}
use agent_trust_ops.Ledger.Trace.{
  Trace, Change, counted, decided, answered, expired, claimed, renewed, lost, finished, reconciled,
  IsNew, anchored, Atom, changes, adds, logs, approves_or_not, Trace_induction,
}
use agent_trust_ops.Ledger.Method.{Method, start, serve, serve-Trace}

-- How often a run with the status was claimed.
abbrev pub claims_of : ActionStatus → ℕ
claims_of executing = 1
claims_of unknown = 1
claims_of completed = 1
claims_of failed = 1
claims_of _ = 0

-- An owner and a lease, or neither.
abbrev pub lease_agrees : Bool → Option String → Option ℕ → Bool
lease_agrees true (some owner) (some lease) = true
lease_agrees false none none = true
lease_agrees _ _ _ = false

pub record IsSound (k : String) (r : Run) : Type 0 where
  pub key : r.run_id ≡ k
  pub claims : r.attempt ≡ claims_of r.status
  pub lease :
      lease_agrees (is_status r.status executing) r.execution_owner r.lease_expires_at ≡ true
  pub policy : (is_status r.status created || has_policy r.policy_version) ≡ true

abbrev pub AllSound : Db → Type 0
AllSound d = (k : String) (r : Run) → Table.get k d.runs ≡ some r → IsSound k r

Change-IsSound : (k : String) (r r' : Run) → Change r r' → IsSound k r → IsSound k r'
unfolding is_claimable
Change-IsSound k r r' (counted e) s = rw e (ground arith)
Change-IsSound k r r' (decided allow v g why t h e) s = rw e (ground arith)
Change-IsSound k r r' (decided deny v g why t h e) s = rw e (ground arith)
Change-IsSound k r r' (decided approval_required v g why t h e) s = rw e (ground arith)
Change-IsSound k r r' (answered true why t h e) s = rw e (ground arith)
Change-IsSound k r r' (answered false why t h e) s = rw e (ground arith)
Change-IsSound k r r' (expired t h e) s = rw e (ground arith)
Change-IsSound k r r' (claimed owner lease t h e) s = rw e (ground arith)
Change-IsSound k r r' (renewed owner lease t h e) s = rw e (ground arith)
Change-IsSound k r r' (lost why t h e) s = rw e (ground arith)
Change-IsSound k r r' (finished s owner why result t completes h e) v = rw e (ground arith)
Change-IsSound k r r' (finished s owner why result t fails h e) v = rw e (ground arith)
Change-IsSound k r r' (finished s owner why result t loses h e) v = rw e (ground arith)
Change-IsSound k r r' (reconciled s why result t reconciles_completed h e) v = rw e (ground arith)
Change-IsSound k r r' (reconciled s why result t reconciles_failed h e) v = rw e (ground arith)

New-IsSound : (r : Run) → IsNew r → IsSound r.run_id r
New-IsSound r n = record {
  key = refl;
  claims = rw (n.status, n.attempt);
  lease = rw (n.status, n.execution_owner, n.lease_expires_at);
  policy = rw n.status;
}

anchored-IsSound :
    (k : String) (r : Run) (h : Option String) → IsSound k r → IsSound k (anchored r h)
anchored-IsSound k r h s = record {
  key = s.key;
  claims = s.claims;
  lease = s.lease;
  policy = s.policy;
}

-- A write of a sound row keeps the rows sound.
put-AllSound :
    (k : String) (r' : Run) (t : Table.Table Run)
    → IsSound k r'
    → ((j : String) (r : Run) → Table.get j t ≡ some r → IsSound j r)
    → (j : String) (r : Run) → Table.get j (Table.put k r' t) ≡ some r
    → IsSound j r
put-AllSound k r' t s all j r h = elim (Bool-cases (k == j)) [
  | inl e ↦
      let h' : some r' ≡ some r = (rw (get-put, e) at h) in
      let same : r' ≡ r = cc h' in rw (← (eq_iff k j).0 e, ← same) s
  | inr e ↦ all j r (rw (get-put, e) at h)
]

module _ ⦃p : Platform⦄ where
  Atom-AllSound : (d e : Db) → Atom d e → Preserves AllSound d e
  Atom-AllSound d e (changes k r r' h c q) all =
      rw q (put-AllSound k r' d.runs (Change-IsSound k r r' c (all k r h)) all)
  Atom-AllSound d e (adds r h i n q) all =
      rw q (put-AllSound r.run_id r d.runs (New-IsSound r n) all)
  Atom-AllSound d e (logs k r x h n q) all =
      rw q (put-AllSound k _ d.runs (anchored-IsSound k r x.event_hash (all k r h)) all)
  Atom-AllSound d e (approves_or_not t q) all = rw q all

  pub Trace-AllSound : (d e : Db) → Trace d e → AllSound d → AllSound e
  Trace-AllSound =
      Trace_induction (Preserves AllSound) (Preserves-IsPreorder AllSound) Atom-AllSound

  pub serve-AllSound : (l : List Method) (w : World) → AllSound w.db → AllSound (serve l w).db
  serve-AllSound l w = Trace-AllSound w.db (serve l w).db (serve-Trace l w)

  pub start-AllSound : AllSound start.db
  unfolding start
  start-AllSound k r h = cc (h, get-empty {A = Run} k)

  -- From an empty ledger, whatever calls are made, each run is stored under its identifier; it was
  -- claimed once if it is executing, unknown, completed or failed, and never otherwise; it has an
  -- owner and a lease exactly while it is executing; and it has left `created` only with a
  -- recorded policy version.
  pub serve-IsSound :
      (l : List Method) (k : String) (r : Run)
      → Table.get k (serve l start).db.runs ≡ some r
      → IsSound k r
  serve-IsSound l k r h = serve-AllSound l start start-AllSound k r h
