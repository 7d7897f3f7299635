-- ===== src/Ledger/Store.antt =====
-- The schema of `_migrate` in ledger.py, the connection's transactions, and the SQL statements
-- that the methods share. A method is an action on the world: it returns a value or raises, and
-- what it wrote stays written unless a transaction rolls it back.
use agent_trust_ops.Prelude.{
  ℕ, ◌+◌, String, Bool, true, false, ◌&&◌, Option, none, some, List, [], ◌∷◌, ◌++◌, ◌==◌, select,
  if◌then◌else◌,
}
use agent_trust_ops.Errors.{Error, Result, ok, err, integrity_error}
use agent_trust_ops.Json.{Json, Platform}
use agent_trust_ops.Models.{ActionStatus, ActionExecutionContext}
use agent_trust_ops.Ledger.Table
use agent_trust_ops.Ledger.Table.{Table}

-- Times are in microseconds. A status column holds the value of an `ActionStatus`.
pub record Run : Type 0 where
  pub run_id : String
  pub tenant_id : String
  pub actor_id : String
  pub action_name : String
  pub risk : String
  pub idempotency_key : String
  pub request_fingerprint : String
  pub status : ActionStatus
  pub arguments_json : String
  pub roles_json : String
  pub evidence_json : String
  pub metadata_json : String
  pub policy_version : Option String
  pub policy_digest : Option String
  pub reason : Option String
  pub result_json : Option String
  pub execution_owner : Option String
  pub lease_expires_at : Option ℕ
  pub attempt : ℕ
  pub duplicate_count : ℕ
  pub event_count : ℕ
  pub event_head_hash : Option String
  pub created_at : ℕ
  pub updated_at : ℕ

pub record Event : Type 0 where
  pub sequence : ℕ
  pub event_id : String
  pub run_id : String
  pub event_type : String
  pub payload_json : String
  pub previous_hash : Option String
  pub event_hash : Option String
  pub created_at : ℕ

pub record Approval : Type 0 where
  pub run_id : String
  pub status : ActionStatus
  pub request_fingerprint : String
  pub policy_version : String
  pub policy_digest : Option String
  pub requested_actor_id : String
  pub approver_id : Option String
  pub approver_auth_source : Option String
  pub note : Option String
  pub requested_at : ℕ
  pub expires_at : ℕ
  pub decided_at : Option ℕ

-- `sequence` is the last AUTOINCREMENT value of `action_events`.
pub record Db : Type 0 where
  pub runs : Table Run
  pub events : List Event
  pub approvals : Table Approval
  pub sequence : ℕ

-- A call of a protected function: the run that it serves, its arguments, and the execution context
-- that is injected under a parameter of the function, if the action asks for one.
pub record Call : Type 0 where
  pub run_id : String
  pub arguments : Json
  pub context : Option (String × ActionExecutionContext)

-- The database, how often the clock and `uuid4` were read, and the calls of protected functions.
pub record World : Type 0 where
  pub db : Db
  pub ticks : ℕ
  pub uuids : ℕ
  pub calls : List Call

abbrev pub M : Type 0 → Type 0
M A = World → Result A × World

module _ {A : Type 0} where
  pub pure : A → M A
  pure a w = (ok a, w)

  pub raise : Error → M A
  raise e w = (err e, w)

  pub lift : Result A → M A
  lift r w = (r, w)

  pub gets : (World → A) → M A
  gets f w = (ok (f w), w)

  abbrev pub settle : Db → Result A → World → Result A × World
  settle db (ok a) w = (ok a, w)
  settle db (err e) w = (err e, record w { db = db })

  -- `with self._connection() as connection, connection:` commits, or rolls back and raises.
  unfoldable pub transaction : M A → M A
  transaction m w = let (r, w') = m w in settle w.db r w'

module _ {A B : Type 0} where
  abbrev continue : Result A → (A → M B) → M B
  continue (ok a) f w = f a w
  continue (err e) f w = (err e, w)

  infixl 5 ◌>>=◌ ◌>>◌
  unfoldable pub ◌>>=◌ : M A → (A → M B) → M B
  unfolding pure raise lift gets
  ◌>>=◌ m f w = let (r, w') = m w in continue r f w'

  abbrev pub ◌>>◌ : M A → M B → M B
  m >> n = m >>= λ _. n

-- `if b: m`
unfoldable pub when : Bool → M (Unit {0}) → M (Unit {0})
when true m = m
when false m = pure tt

-- A `for` loop that appends what each round finds to a list.
unfoldable pub collect : {A B : Type 0} → (A → M (List B)) → List A → M (List B)
collect body [] = pure []
collect body (x ∷ xs) = do found ← body x; rest ← collect body xs; pure (found ++ rest)

-- A `for` loop with no result.
unfoldable pub for_each : {A : Type 0} → (A → M (Unit {0})) → List A → M (Unit {0})
for_each body [] = pure tt
for_each body (x ∷ xs) = do body x; for_each body xs

-- `try: m`: what it returned or raised. What it wrote stays written.
unfoldable pub attempt : {A : Type 0} → M A → M (Result A)
attempt m w = let (r, w') = m w in (ok r, w')

abbrev pub with_db : World → Db → World
with_db w db = record w { db = db }

-- SELECT * FROM action_runs WHERE run_id = ?
unfoldable pub select_run : String → M (Option Run)
select_run run_id w = (ok (Table.get run_id w.db.runs), w)

unfoldable pub select_approval : String → M (Option Approval)
select_approval run_id w = (ok (Table.get run_id w.db.approvals), w)

abbrev pub write_run : (Run → Bool) → (Run → Run) → Option Run → String → M Bool
write_run guard change none run_id w = (ok false, w)
write_run guard change (some r) run_id w =
    if guard r
    then (ok true, with_db w (record (w.db) { runs = Table.put run_id (change r) w.db.runs }))
    else (ok false, w)

-- UPDATE action_runs SET ... WHERE run_id = ? AND guard; whether `rowcount` is 1.
unfoldable pub update_run : String → (Run → Bool) → (Run → Run) → M Bool
update_run run_id guard change w = write_run guard change (Table.get run_id w.db.runs) run_id w

abbrev pub write_approval :
    (Approval → Bool) → (Approval → Approval) → Option Approval → String → M Bool
write_approval guard change none run_id w = (ok false, w)
write_approval guard change (some a) run_id w =
    if guard a
    then (
      ok true,
      with_db w (record (w.db) { approvals = Table.put run_id (change a) w.db.approvals }),
    )
    else (ok false, w)

unfoldable pub update_approval : String → (Approval → Bool) → (Approval → Approval) → M Bool
update_approval run_id guard change w =
    write_approval guard change (Table.get run_id w.db.approvals) run_id w

-- The row of the UNIQUE (tenant_id, action_name, idempotency_key) index.
abbrev pub has_identity : String → String → String → Run → Bool
has_identity tenant action key r =
    r.tenant_id == tenant && r.action_name == action && r.idempotency_key == key

abbrev pub first {ℓ} : {A : Type ℓ} → List A → Option A
first [] = none
first (x ∷ xs) = some x

abbrev pub last {ℓ} : {A : Type ℓ} → List A → Option A
last [] = none
last (x ∷ []) = some x
last (x ∷ y ∷ xs) = last (y ∷ xs)

unfoldable pub run_of_identity : String → String → String → Db → Option Run
run_of_identity tenant action key db =
    first (select (has_identity tenant action key) (Table.rows db.runs))

unfoldable pub select_identity : String → String → String → M (Option Run)
unfolding run_of_identity
select_identity tenant action key w = (ok (run_of_identity tenant action key w.db), w)

abbrev pub insert_if_free : Option Run → Option Run → Run → M Bool
insert_if_free none none r w =
    (ok true, with_db w (record (w.db) { runs = Table.put r.run_id r w.db.runs }))
insert_if_free (some x) o r w = (ok false, w)
insert_if_free none (some x) r w = (ok false, w)

-- INSERT OR IGNORE INTO action_runs: ignored if the primary key or the UNIQUE index has the row.
unfoldable pub insert_or_ignore_run : Run → M Bool
unfolding run_of_identity
insert_or_ignore_run r w =
    insert_if_free (Table.get r.run_id w.db.runs)
      (run_of_identity r.tenant_id r.action_name r.idempotency_key w.db) r w

abbrev pub insert_new_approval : Option Approval → Option Run → Approval → M (Unit {0})
insert_new_approval none (some x) a w =
    (ok tt, with_db w (record (w.db) { approvals = Table.put a.run_id a w.db.approvals }))
insert_new_approval none none a w = (err (integrity_error "FOREIGN KEY constraint failed"), w)
insert_new_approval (some x) o a w = (err (integrity_error "UNIQUE constraint failed"), w)

-- INSERT INTO approvals
unfoldable pub insert_approval : Approval → M (Unit {0})
insert_approval a w =
    insert_new_approval (Table.get a.run_id w.db.approvals) (Table.get a.run_id w.db.runs) a w

-- The events of a run ORDER BY sequence, which is the order of insertion.
unfoldable pub events_of : String → List Event → List Event
events_of run_id es = select (λ e. e.run_id == run_id) es

abbrev pub insert_new_event : Option Event → Option Run → Event → M (Unit {0})
insert_new_event none (some r) e w = (
  ok tt,
  with_db w (record (w.db) {
    events = w.db.events ++ record e { sequence = w.db.sequence + 1 } ∷ [];
    sequence = w.db.sequence + 1;
  }),
)
insert_new_event none none e w = (err (integrity_error "FOREIGN KEY constraint failed"), w)
insert_new_event (some x) o e w = (err (integrity_error "UNIQUE constraint failed"), w)

-- INSERT INTO action_events: `event_id` is UNIQUE, `run_id` refers to a run.
unfoldable pub insert_event : Event → M (Unit {0})
insert_event e w =
    insert_new_event (first (select (λ x. x.event_id == e.event_id) w.db.events))
      (Table.get e.run_id w.db.runs) e w

module _ ⦃p : Platform⦄ where
  -- `_now()`
  unfoldable pub now : M ℕ
  now w = (ok (p.clock w.ticks), record w { ticks = w.ticks + 1 })

  -- `uuid4().hex`
  unfoldable pub uuid4 : M String
  uuid4 w = (ok (p.uuid w.uuids), record w { uuids = w.uuids + 1 })
