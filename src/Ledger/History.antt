-- ===== src/Ledger/History.antt =====
-- The history of the runs and of the log under the methods of ledger.py.
use mathlib.Core.List.{append-nil, append_assoc}
use agent_trust_ops.Prelude.{
  ℕ, ◌≤◌, String, ◌≡◌, refl, ◌∙◌, sym, ap, Bool, true, false, ◌&&◌, inl, inr, Option, none, some,
  List, [], ◌∷◌, ◌++◌, arith, ◌==◌, eq_iff, Bool-cases,
}
use agent_trust_ops.Json.{Platform}
use agent_trust_ops.Models.{
  ActionStatus, created, pending_approval, approved, executing, unknown, is_status, is_status→eq,
  PolicyOutcome, allow, deny, approval_required,
}
use agent_trust_ops.Ledger.Table
use agent_trust_ops.Ledger.Table.{get-put}
use agent_trust_ops.Ledger.Store.{Run, Event, Db, World}
use agent_trust_ops.Ledger.Machine.{
  denies, requests, rejects, expires, approves, claims_allowed, claims_approved, loses, Reach, here,
  next, Reach-trans, Reach-terminal, is_terminal,
}
use agent_trust_ops.Ledger.Keeps.{IsPreorder}
use agent_trust_ops.Ledger.Runs.{next_status}
use agent_trust_ops.Ledger.Approvals.{decided_status}
use agent_trust_ops.Ledger.Execution.{is_claimable}
use agent_trust_ops.Ledger.Trace.{
  Trace, Change, counted, decided, answered, expired, claimed, renewed, lost, finished, reconciled,
  anchored, Atom, changes, adds, logs, approves_or_not, Trace_induction,
}
use agent_trust_ops.Ledger.Method.{Method, serve, serve-Trace}

-- The columns of a run that hold the governed request.
pub record Request : Type 0 where
  pub run_id : String
  pub tenant_id : String
  pub actor_id : String
  pub action_name : String
  pub risk : String
  pub idempotency_key : String
  pub request_fingerprint : String
  pub arguments_json : String
  pub roles_json : String
  pub evidence_json : String
  pub metadata_json : String
  pub created_at : ℕ

abbrev pub request : Run → Request
request r = record {
  run_id = r.run_id;
  tenant_id = r.tenant_id;
  actor_id = r.actor_id;
  action_name = r.action_name;
  risk = r.risk;
  idempotency_key = r.idempotency_key;
  request_fingerprint = r.request_fingerprint;
  arguments_json = r.arguments_json;
  roles_json = r.roles_json;
  evidence_json = r.evidence_json;
  metadata_json = r.metadata_json;
  created_at = r.created_at;
}

pub record Follows (r r' : Run) : Type 0 where
  pub same_request : request r' ≡ request r
  pub status : Reach r.status r'.status
  pub attempts : r.attempt ≤ r'.attempt
  pub duplicates : r.duplicate_count ≤ r'.duplicate_count
  pub events : r.event_count ≤ r'.event_count

Follows-refl : (r : Run) → Follows r r
Follows-refl r = record {
  same_request = refl;
  status = here;
  attempts = omega arith;
  duplicates = omega arith;
  events = omega arith;
}

Follows-trans : (r s t : Run) → Follows r s → Follows s t → Follows r t
Follows-trans r s t f g = record {
  same_request = g.same_request ∙ f.same_request;
  status = Reach-trans f.status g.status;
  attempts = omega arith;
  duplicates = omega arith;
  events = omega arith;
}

-- Every run is still there and follows from what it was; the log is extended.
pub record Evolves (d e : Db) : Type 0 where
  pub runs :
      (k : String) (r : Run)
      → Table.get k d.runs ≡ some r
      → (r' : Run) × (Table.get k e.runs ≡ some r') × Follows r r'
  pub log : (new : List Event) × (e.events ≡ d.events ++ new)

Evolves-refl : (d : Db) → Evolves d d
Evolves-refl d = record {
  runs = λ k r h. (r, h, Follows-refl r);
  log = ([], sym (append-nil d.events));
}

Evolves-trans : (c d e : Db) → Evolves c d → Evolves d e → Evolves c e
Evolves-trans c d e f g = record {
  runs = λ k r h.
      let (s, hs, rs) = f.runs k r h in
      let (t, ht, st) = g.runs k s hs in (t, ht, Follows-trans r s t rs st);
  log =
      let (xs, hx) = f.log in
      let (ys, hy) = g.log in
      (xs ++ ys, hy ∙ ap (λ (l : List Event). l ++ ys) hx ∙ append_assoc c.events xs ys);
}

Evolves-IsPreorder : IsPreorder Evolves
Evolves-IsPreorder = record { same = Evolves-refl; chain = Evolves-trans }

-- An update that leaves the request and the counts alone.
moved :
    (r r' : Run)
    → request r' ≡ request r
    → r.attempt ≤ r'.attempt
    → r'.duplicate_count ≡ r.duplicate_count
    → r'.event_count ≡ r.event_count
    → Reach r.status r'.status
    → Follows r r'
moved r r' q a d e s = record {
  same_request = q;
  status = s;
  attempts = a;
  duplicates = omega arith;
  events = omega arith;
}

-- A step from the status that the guard of the update demands.
from : (s t u : ActionStatus) → is_status s t ≡ true → Reach t u → Reach s u
from s t u h r = rw (is_status→eq s t h) r

decided_Reach : (o : PolicyOutcome) → Reach created (next_status o)
decided_Reach allow = here
decided_Reach deny = next denies here
decided_Reach approval_required = next requests here

answered_Reach : (b : Bool) → Reach pending_approval (decided_status b)
answered_Reach true = next approves here
answered_Reach false = next rejects here

claimable_Reach : (r : Run) → is_claimable r ≡ true → Reach r.status executing
unfolding is_claimable
claimable_Reach r h = elim (Bool-cases (is_status r.status created)) [
  | inl e ↦ from r.status created executing e (next claims_allowed here)
  | inr e ↦ from r.status approved executing (ground arith) (next claims_approved here)
]

and_left : (a b : Bool) → (a && b) ≡ true → a ≡ true
and_left a b h = ground arith

pub Change-Follows : (r r' : Run) → Change r r' → Follows r r'
Change-Follows r r' (counted e) = rw e (record {
  same_request = refl;
  status = here;
  attempts = omega arith;
  duplicates = omega arith;
  events = omega arith;
})
Change-Follows r r' (decided o v g why t h e) =
    rw e (moved r _ refl (omega arith) refl refl (from r.status created _ h (decided_Reach o)))
Change-Follows r r' (answered b why t h e) =
    rw e (
      moved r _ refl (omega arith) refl refl
        (from r.status pending_approval _ h (answered_Reach b)))
Change-Follows r r' (expired t h e) = rw e (
    moved r _ refl (omega arith) refl refl (from r.status pending_approval _ h (next expires here)))
Change-Follows r r' (claimed owner lease t h e) =
    rw e (moved r _ refl (omega arith) refl refl (claimable_Reach r h))
Change-Follows r r' (renewed owner lease t h e) = rw e (moved r _ refl (omega arith) refl refl here)
Change-Follows r r' (lost why t h e) =
    rw e (moved r _ refl (omega arith) refl refl (from r.status executing _ h (next loses here)))
Change-Follows r r' (finished s owner why result t st h e) = rw e (
    moved r _ refl (omega arith) refl refl
      (from r.status executing s (and_left (is_status r.status executing) _ h) (next st here)))
Change-Follows r r' (reconciled s why result t st h e) =
    rw e (moved r _ refl (omega arith) refl refl (from r.status unknown s h (next st here)))

anchored-Follows : (r : Run) (hash : Option String) → Follows r (anchored r hash)
anchored-Follows r hash = record {
  same_request = refl;
  status = here;
  attempts = omega arith;
  duplicates = omega arith;
  events = omega arith;
}

put_row :
    (k j : String) (x r r' : Run) (t : Table.Table Run)
    → Table.get k t ≡ some r
    → Follows r r'
    → Table.get j t ≡ some x
    → (y : Run) × (Table.get j (Table.put k r' t) ≡ some y) × Follows x y
put_row k j x r r' t hk f hj = elim (Bool-cases (k == j)) [
  | inl e ↦
      let kj = (eq_iff k j).0 e in
      let rx : r ≡ x = cc (hk, hj, kj) in (r', rw (get-put, e) refl, rw (← rx) f)
  | inr e ↦ (x, rw (get-put, e) hj, Follows-refl x)
]

add_row :
    (j : String) (x r : Run) (t : Table.Table Run)
    → Table.get r.run_id t ≡ none
    → Table.get j t ≡ some x
    → (y : Run) × (Table.get j (Table.put r.run_id r t) ≡ some y) × Follows x y
add_row j x r t h hj = elim (Bool-cases (r.run_id == j)) [
  | inl e ↦ cc (h, hj, (eq_iff r.run_id j).0 e)
  | inr e ↦ (x, rw (get-put, e) hj, Follows-refl x)
]

module _ ⦃p : Platform⦄ where
  Atom-Evolves : (d e : Db) → Atom d e → Evolves d e
  Atom-Evolves d e (changes k r r' h c q) = rw q (record {
    runs = λ j x hx. put_row k j x r r' d.runs h (Change-Follows r r' c) hx;
    log = ([], sym (append-nil d.events));
  })
  Atom-Evolves d e (adds r h i n q) =
      rw q (record {
        runs = λ j x hx. add_row j x r d.runs h hx;
        log = ([], sym (append-nil d.events));
      })
  Atom-Evolves d e (logs k r x h n q) = rw q (record {
    runs = λ j y hy. put_row k j y r _ d.runs h (anchored-Follows r x.event_hash) hy;
    log = (x ∷ [], refl);
  })
  Atom-Evolves d e (approves_or_not t q) =
      rw q
        (record { runs = λ j x hx. (x, hx, Follows-refl x); log = ([], sym (append-nil d.events)) })

  pub Trace-Evolves : (d e : Db) → Trace d e → Evolves d e
  Trace-Evolves = Trace_induction Evolves Evolves-IsPreorder Atom-Evolves

  pub serve-Evolves : (l : List Method) (w : World) → Evolves w.db (serve l w).db
  serve-Evolves l w = Trace-Evolves w.db (serve l w).db (serve-Trace l w)

  -- Whatever calls are made, in whatever order and with whatever outcome: a run that was stored is
  -- still there, its request is unchanged, its status is reached by the state machine from what it
  -- was, and its attempts, duplicates and events have not become fewer.
  pub serve-Follows :
      (l : List Method) (w : World) (k : String) (r : Run)
      → Table.get k w.db.runs ≡ some r
      → (r' : Run) × (Table.get k (serve l w).db.runs ≡ some r') × Follows r r'
  serve-Follows l w k r h = (serve-Evolves l w).runs k r h

  -- Whatever calls are made, in whatever order and with whatever outcome, the log of events
  -- afterwards is the log before with events appended.
  pub serve_appends :
      (l : List Method) (w : World)
      → (new : List Event) × ((serve l w).db.events ≡ w.db.events ++ new)
  serve_appends l w = (serve-Evolves l w).log

  -- A run in a terminal status keeps that status, whatever calls follow.
  pub serve_terminal :
      (l : List Method) (w : World) (k : String) (r : Run)
      → Table.get k w.db.runs ≡ some r
      → is_terminal r.status ≡ true
      → (r' : Run) × (Table.get k (serve l w).db.runs ≡ some r') × (r'.status ≡ r.status)
  serve_terminal l w k r h t =
      let (r', h', f) = serve-Follows l w k r h in (r', h', Reach-terminal f.status t)
