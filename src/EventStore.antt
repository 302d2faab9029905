-- ===== src/EventStore.antt =====
-- The in-memory store of app/shared/events/event_store.py.
pub mod Defs
pub mod Index
pub mod Order
pub mod Queries
pub mod Tally
mod Tests
