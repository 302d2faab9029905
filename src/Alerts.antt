-- ===== src/Alerts.antt =====
-- app/domains/alerts: when a notification is sent, and how urgent it is.
pub mod Defs
pub mod QuietHours
pub mod Priority
pub mod Reminders
mod Tests
