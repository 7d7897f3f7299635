-- ===== src/Tests.antt =====
-- A concrete platform, scenarios that run on it, and each result at a concrete input.
pub mod Platform
pub mod Ledger
pub mod Runtime
pub mod Approvals
pub mod Queries
pub mod Access
pub mod Trails
pub mod Http
pub mod Refunds
pub mod Release
pub mod Bundles
pub mod Labels
pub mod Opa
