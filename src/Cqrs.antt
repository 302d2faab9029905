-- ===== src/Cqrs.antt =====
-- app/shared/cqrs/bus.py: the buses of commands and queries.
pub mod Defs
pub mod Commands
pub mod Queries
mod Tests
