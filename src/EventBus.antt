-- ===== src/EventBus.antt =====
-- The event bus of app/shared/events/domain_events.py.
pub mod Defs
pub mod Delivery
mod Tests
