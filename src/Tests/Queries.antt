-- ===== src/Tests/Queries.antt =====
-- The queries on the ledger of a refund that was executed.
use agent_trust_ops.Prelude.{◌≡◌, none, some, List, [], length, take, arith}
use agent_trust_ops.Errors.{ok}
use agent_trust_ops.Models.{ActionStatus, completed, status_value}
use agent_trust_ops.Ledger.Store.{Run}
use agent_trust_ops.Ledger.Method.{start, serve}
use agent_trust_ops.Ledger.Queries.{
  runs_of, list_runs, recent_first, Counts, status_counts, Scan, verify_all_event_chains,
}
use agent_trust_ops.Ledger.Queries.Listing.{IsListing, list_runs-IsListing}
use agent_trust_ops.Ledger.Queries.Counting.{count_at, total, status_counts_lem}
use agent_trust_ops.Ledger.Queries.Scanning.{serve_scans}
use agent_trust_ops.Tests.Platform.{test_platform, test_platform-IsCanonical}
use agent_trust_ops.Tests.Ledger.{happy, after_happy}

list_runs-IsListing_example :
    (l : List Run) × (list_runs (some "acme") (some completed) 100 after_happy
      ≡ (ok l, after_happy))
    × IsListing (some "acme") (some completed) 100 after_happy l
list_runs-IsListing_example =
    list_runs-IsListing (some "acme") (some completed) 100 after_happy (omega arith) (omega arith)

status_counts_lem_example :
    (c : Counts) × (status_counts (some "acme") after_happy ≡ (ok c, after_happy))
    × ((s : ActionStatus)
        → count_at (status_value s) c ≡ length (runs_of (some "acme") (some s) after_happy.db))
    × (total c ≡ length (runs_of (some "acme") none after_happy.db))
status_counts_lem_example = status_counts_lem (some "acme") after_happy

serve_scans_example :
    (s : Scan) × (verify_all_event_chains none 1000 (serve happy start) ≡ (ok s, serve happy start))
    × (s.invalid ≡ 0)
    × (s.invalid_run_ids ≡ [])
    × (s.checked ≡ length (take 1000 (recent_first (runs_of none none (serve happy start).db))))
serve_scans_example =
    serve_scans test_platform-IsCanonical happy none 1000 (omega arith) (omega arith)
