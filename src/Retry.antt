-- ===== src/Retry.antt =====
-- app/core/interfaces/retry_strategies.py, with the exceptions of
-- app/shared/exceptions/api_exceptions.py that it tells apart.
pub mod Failure
pub mod Strategy
pub mod Executor
pub mod Settles
pub mod Delays
mod Tests
