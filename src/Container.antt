-- ===== src/Container.antt =====
-- app/core/container.py
pub mod Action
pub mod Defs
pub mod Free
pub mod Good
pub mod Frame
pub mod Resolve
pub mod Reuse
pub mod Registered
mod Tests
