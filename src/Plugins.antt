-- ===== src/Plugins.antt =====
-- app/core/plugins: the registry of plugins and the order of their dependencies.
pub mod Defs
pub mod Sort
pub mod Walk
pub mod Steps
pub mod WalkEnds
pub mod Remaining
pub mod Kahn
pub mod Sorted
pub mod Resolved
pub mod Dependents
pub mod Register
pub mod Versions
pub mod Compatible
pub mod Satisfied
pub mod Manager
pub mod Activation
pub mod Running
pub mod Deactivate
pub mod Shutdown
pub mod Supported
pub mod Begun
pub mod Grown
pub mod Activated
pub mod Invariant
mod Tests
mod ManagerTests
