-- ===== src/Ledger/Trace.antt =====
-- The atomic changes of the database that the methods of ledger.py are made of, sequences of them,
-- and the induction on such a sequence.
pub mod Rules
pub mod Methods
pub mod Leases
pub mod Reconciliation
pub mod Decisions
use agent_trust_ops.Prelude.{
  ℕ, ◌+◌, String, ◌≡◌, refl, Bool, true, ◌&&◌, Option, none, some, List, [], ◌∷◌, ◌++◌, ◌==◌,
  select,
}
use agent_trust_ops.Errors.{ok}
use agent_trust_ops.Json.{Json, Platform}
use agent_trust_ops.Models.{
  ActionStatus, created, pending_approval, approval_expired, executing, unknown, is_status,
  PolicyOutcome,
}
use agent_trust_ops.Ledger.Table
use agent_trust_ops.Ledger.Table.{Table}
use agent_trust_ops.Ledger.Store.{Run, Event, Approval, Db, events_of, first, run_of_identity}
use agent_trust_ops.Ledger.Machine.{Step}
use agent_trust_ops.Ledger.Keeps.{IsPreorder}
use agent_trust_ops.Ledger.Events.{event_hash, head_of}
use agent_trust_ops.Ledger.Runs.{next_status}
use agent_trust_ops.Ledger.Approvals.{decided_status}
use agent_trust_ops.Ledger.Execution.{is_claimable, owned_by, lease_after}

-- The ways in which a method changes the row of a run, the anchor of its events apart.
pub data Change (r r' : Run) : Type 0 where
  counted : r' ≡ record r { duplicate_count = r.duplicate_count + 1 } → Change r r'
  decided :
      (o : PolicyOutcome) (version digest reason : String) (t : ℕ)
      → is_status r.status created ≡ true
      → r' ≡ record r {
        status = next_status o;
        policy_version = some version;
        policy_digest = some digest;
        reason = some reason;
        updated_at = t;
      }
      → Change r r'
  answered :
      (b : Bool) (note : String) (t : ℕ)
      → is_status r.status pending_approval ≡ true
      → r' ≡ record r { status = decided_status b; reason = some note; updated_at = t }
      → Change r r'
  expired :
      (t : ℕ)
      → is_status r.status pending_approval ≡ true
      → r' ≡ record r { status = approval_expired; updated_at = t }
      → Change r r'
  claimed :
      (owner : String) (lease t : ℕ)
      → is_claimable r ≡ true
      → r' ≡ record r {
        status = executing;
        execution_owner = some owner;
        lease_expires_at = some lease;
        attempt = r.attempt + 1;
        updated_at = t;
      }
      → Change r r'
  renewed :
      (owner : String) (lease t : ℕ)
      → (is_status r.status executing
          && owned_by owner r.execution_owner
          && lease_after r.lease_expires_at t)
        ≡ true
      → r' ≡ record r { lease_expires_at = some lease; updated_at = t }
      → Change r r'
  lost :
      (reason : String) (t : ℕ)
      → is_status r.status executing ≡ true
      → r' ≡ record r {
        status = unknown;
        reason = some reason;
        execution_owner = none;
        lease_expires_at = none;
        updated_at = t;
      }
      → Change r r'
  finished :
      (s : ActionStatus) (owner : String) (reason result : Option String) (t : ℕ)
      → Step executing s
      → (is_status r.status executing && owned_by owner r.execution_owner) ≡ true
      → r' ≡ record r {
        status = s;
        reason = reason;
        result_json = result;
        execution_owner = none;
        lease_expires_at = none;
        updated_at = t;
      }
      → Change r r'
  reconciled :
      (s : ActionStatus) (reason : String) (result : Option String) (t : ℕ)
      → Step unknown s
      → is_status r.status unknown ≡ true
      → r' ≡ record r { status = s; reason = some reason; result_json = result; updated_at = t }
      → Change r r'

-- The row of a run that `create_or_get_run` inserts.
pub record IsNew (r : Run) : Type 0 where
  pub status : r.status ≡ created
  pub policy_version : r.policy_version ≡ none
  pub execution_owner : r.execution_owner ≡ none
  pub lease_expires_at : r.lease_expires_at ≡ none
  pub attempt : r.attempt ≡ 0
  pub event_count : r.event_count ≡ 0
  pub event_head_hash : r.event_head_hash ≡ none

-- The anchor of the chain moves on to an event.
abbrev pub anchored : Run → Option String → Run
anchored r hash = record r { event_count = r.event_count + 1; event_head_hash = hash }

module _ ⦃p : Platform⦄ where
  -- An event that continues the chain of a run.
  pub record IsNextEvent (d : Db) (k : String) (e : Event) : Type 0 where
    pub run_id : e.run_id ≡ k
    pub sequence : e.sequence ≡ d.sequence + 1
    pub fresh : first (select (λ x. x.event_id == e.event_id) d.events) ≡ none
    pub value : Json
    pub written : p.dumps value ≡ ok e.payload_json
    pub previous : e.previous_hash ≡ head_of (events_of k d.events)
    pub hash : String
    pub hashed : event_hash k e.event_type e.payload_json e.previous_hash e.created_at ≡ ok hash
    pub stored : e.event_hash ≡ some hash

  pub data Atom (d e : Db) : Type 0 where
    changes :
        (k : String) (r r' : Run)
        → Table.get k d.runs ≡ some r
        → Change r r'
        → e ≡ record d { runs = Table.put k r' d.runs }
        → Atom d e
    adds :
        (r : Run)
        → Table.get r.run_id d.runs ≡ none
        → run_of_identity r.tenant_id r.action_name r.idempotency_key d ≡ none
        → IsNew r
        → e ≡ record d { runs = Table.put r.run_id r d.runs }
        → Atom d e
    logs :
        (k : String) (r : Run) (x : Event)
        → Table.get k d.runs ≡ some r
        → IsNextEvent d k x
        → e ≡ record d {
          runs = Table.put k (anchored r x.event_hash) d.runs;
          events = d.events ++ x ∷ [];
          sequence = d.sequence + 1;
        }
        → Atom d e
    approves_or_not : (t : Table Approval) → e ≡ record d { approvals = t } → Atom d e

  pub data Trace (d : Db) : Db → Type 0 where
    here : Trace d d
    next : {e f : Db} → Trace d e → Atom e f → Trace d f

  Trace-trans : (c d e : Db) → Trace c d → Trace d e → Trace c e
  Trace-trans c d e f here = f
  Trace-trans c d e f (next {e = m} g a) = next (Trace-trans c d m f g) a

  pub Trace-IsPreorder : IsPreorder Trace
  Trace-IsPreorder = record { same = λ d. here; chain = Trace-trans }

  -- A preorder that holds of every atomic change holds of every trace.
  pub Trace_induction :
      (R : Db → Db → Type 0)
      → IsPreorder R
      → ((d e : Db) → Atom d e → R d e)
      → (d e : Db) → Trace d e
      → R d e
  Trace_induction R o step d e here = o.same d
  Trace_induction R o step d e (next {e = m} t a) =
      o.chain d m e (Trace_induction R o step d m t) (step m e a)
