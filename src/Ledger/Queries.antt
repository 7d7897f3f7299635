-- ===== src/Ledger/Queries.antt =====
-- The queries of ledger.py: `list_runs`, the counts, `verify_all_event_chains` and `schema_info`.
pub mod Listing
pub mod Counting
pub mod Scanning
use agent_trust_ops.Prelude.{
  ℕ, zero, suc, ◌+◌, String, Bool, true, false, not, ◌&&◌, Option, none, some, List, [], ◌∷◌, map,
  ◌==◌, leb, nat_eq, length, select, take, if◌then◌else◌,
}
use agent_trust_ops.Errors.{value_error, require}
use agent_trust_ops.Json.{Platform}
use agent_trust_ops.Models.{ActionStatus, pending_approval, is_status, status_value}
use agent_trust_ops.Ledger.Table
use agent_trust_ops.Ledger.Store.{
  Run, Event, Approval, Db, World, M, pure, lift, gets, ◌>>=◌, ◌>>◌, collect, now,
}
use agent_trust_ops.Ledger.Approvals.{in_tenant}
use agent_trust_ops.Ledger.Events.{verify_event_chain}

abbrev pub has_status : Option ActionStatus → Run → Bool
has_status none r = true
has_status (some s) r = is_status r.status s

-- ORDER BY created_at DESC. The order of rows with one time is the database's choice: here the
-- earlier row stands first.
unfoldable pub insert_recent : Run → List Run → List Run
insert_recent r [] = r ∷ []
insert_recent r (x ∷ xs) =
    if leb x.created_at r.created_at then r ∷ x ∷ xs else x ∷ insert_recent r xs

unfoldable pub recent_first : List Run → List Run
unfolding insert_recent
recent_first [] = []
recent_first (r ∷ rs) = insert_recent r (recent_first rs)

-- The rows of a tenant, or all.
unfoldable pub runs_of : Option String → Option ActionStatus → Db → List Run
runs_of tenant status db =
    select (λ r. in_tenant tenant r && has_status status r) (Table.rows db.runs)

unfoldable pub list_runs : Option String → Option ActionStatus → ℕ → M (List Run)
unfolding recent_first runs_of
list_runs tenant status limit = do
  lift (require (leb 1 limit && leb limit 1000) (value_error "limit must be between 1 and 1000"))
  gets (λ w. take limit (recent_first (runs_of tenant status w.db)))

pub record SchemaInfo : Type 0 where
  pub backend : String
  pub schema_version : Option ℕ
  pub writable : Bool

-- `schema_info`, of the ledger's `backend_name` and of the version that its metadata hold.
unfoldable pub schema_info : String → Option ℕ → SchemaInfo
schema_info backend_name version = record {
  backend = backend_name;
  schema_version = version;
  writable = true;
}

-- A dictionary of counts, and `counts[k] = counts.get(k, 0) + 1`.
abbrev pub Counts : Type 0
Counts = List (String × ℕ)

unfoldable pub bump : String → Counts → Counts
bump k [] = (k, 1) ∷ []
bump k ((j, n) ∷ l) = if j == k then (j, n + 1) ∷ l else (j, n) ∷ bump k l

-- SELECT key, COUNT(*) ... GROUP BY key
unfoldable pub count_by : {A : Type 0} → (A → String) → List A → Counts
unfolding bump
count_by key [] = []
count_by key (x ∷ xs) = bump (key x) (count_by key xs)

unfoldable pub status_counts : Option String → M Counts
unfolding runs_of
status_counts tenant =
    gets (λ w. count_by (λ (r : Run). status_value r.status) (runs_of tenant none w.db))

abbrev run_in_tenant : Option String → Option Run → Bool
run_in_tenant tenant none = false
run_in_tenant tenant (some r) = in_tenant tenant r

-- The events that join a run of the tenant.
unfoldable pub event_counts : Option String → M Counts
event_counts tenant = gets (λ w.
    count_by (λ (e : Event). e.event_type)
      (select (λ e. run_in_tenant tenant (Table.get e.run_id w.db.runs)) w.db.events))

unfoldable pub sum_duplicates : List Run → ℕ
sum_duplicates [] = 0
sum_duplicates (r ∷ rs) = r.duplicate_count + sum_duplicates rs

unfoldable pub duplicate_retry_count : Option String → M ℕ
unfolding runs_of sum_duplicates
duplicate_retry_count tenant = gets (λ w. sum_duplicates (runs_of tenant none w.db))

-- `counts[k] = n`
unfoldable pub put_count : String → ℕ → Counts → Counts
put_count k n [] = (k, n) ∷ []
put_count k n ((j, m) ∷ l) = if j == k then (k, n) ∷ l else (j, m) ∷ put_count k n l

unfoldable pub is_expired_pending : ℕ → Approval → Bool
is_expired_pending started a = is_status a.status pending_approval && leb a.expires_at started

-- The approvals that join a run of the tenant.
unfoldable pub approvals_of : Option String → Db → List Approval
approvals_of tenant db =
    select (λ a. run_in_tenant tenant (Table.get a.run_id db.runs)) (Table.rows db.approvals)

module _ ⦃p : Platform⦄ where
  unfoldable pub approval_counts : Option String → M Counts
  unfolding put_count is_expired_pending approvals_of
  approval_counts tenant = do
    started ← now
    gets (λ w.
        put_count "expired_pending"
          (length (select (is_expired_pending started) (approvals_of tenant w.db)))
          (count_by (λ (a : Approval). status_value a.status) (approvals_of tenant w.db)))

-- The answer of `verify_all_event_chains`.
pub record Scan : Type 0 where
  pub checked : ℕ
  pub invalid : ℕ
  pub invalid_run_ids : List String
  pub truncated : Bool

module _ ⦃p : Platform⦄ where
  -- One round of the comprehension.
  unfoldable pub invalid_id : Run → M (List String)
  invalid_id r = do
    verified ← verify_event_chain r.run_id
    pure (if not verified then r.run_id ∷ [] else [])

  unfoldable pub scan_rows : ℕ → List Run → M Scan
  unfolding invalid_id
  scan_rows limit rows = do
    invalid ← collect invalid_id rows
    pure (record {
      checked = length rows;
      invalid = length invalid;
      invalid_run_ids = invalid;
      truncated = nat_eq (length rows) limit;
    })

  unfoldable pub verify_all_event_chains : Option String → ℕ → M Scan
  unfolding recent_first runs_of scan_rows
  verify_all_event_chains tenant limit = do
    lift (
        require (leb 1 limit && leb limit 100000)
          (value_error "limit must be between 1 and 100000"))
    rows ← gets (λ w. take limit (recent_first (runs_of tenant none w.db)))
    scan_rows limit rows
