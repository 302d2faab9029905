-- ===== src/Lifecycle.antt =====
-- app/core/lifecycle.py: the services of the application, started in order and stopped in reverse.
pub mod Defs
pub mod Shutdown
pub mod Causes
pub mod Startup
pub mod Lifespan
mod Tests
