-- ===== src/Ledger.antt =====
-- ledger.py: `SQLiteActionLedger`, one child for each group of its methods and for what they prove.
pub mod Table
pub mod Store
pub mod Keeps
pub mod Events
pub mod Runs
pub mod Approvals
pub mod Execution
pub mod Reconcile
pub mod Queries
pub mod Audit
pub mod Machine
pub mod Trace
pub mod Method
pub mod History
pub mod Lifecycle
pub mod Chain
pub mod Returns
pub mod Claims
pub mod Atomicity
pub mod Idempotency
pub mod Silence
pub mod Uniqueness
pub mod Authorization
