-- ===== src/Version.antt =====
-- app/shared/versioning.py
pub mod Defs
pub mod Registry
pub mod Order
pub mod Greatest
pub mod Invariant
pub mod Deprecation
pub mod Latest
pub mod Extract
pub mod Named
pub mod Extracted
mod Tests
