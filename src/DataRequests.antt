-- ===== src/DataRequests.antt =====
-- Requests for data and the votes on them: app/domains/data_requests.
pub mod Collection
pub mod Memory
pub mod Defs
pub mod Service
pub mod Lookup
pub mod Counts
pub mod Voting
pub mod Deletion
mod Tests
