-- ===== src/Earnings.antt =====
-- The earnings control plane (internal/earnings): the ledger of what workers are owed, the
-- settlements that pay it, and the jobs that rebuild it from orders and trips.
pub mod Types
pub mod Action
pub mod Allocation
pub mod Settlement
pub mod OrderIssues
pub mod Trips
pub mod SourceEntries
pub mod Rebuild
pub mod Periods
pub mod Access
pub mod Issues
pub mod TripIssues
pub mod SourceEvents
