-- ===== src/Classification.antt =====
-- Classification codes: app/shared/classification.
pub mod EditDistance
pub mod Edits
pub mod Distance
pub mod Codes
pub mod Business
pub mod Content
pub mod Unified
pub mod Refused
pub mod Verdicts
pub mod Suggestions
pub mod Near
mod Tests
