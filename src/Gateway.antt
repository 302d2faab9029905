-- ===== src/Gateway.antt =====
-- app/core/api_integration/gateway.py: routes, the response cache and the processing of a request.
pub mod Defs
pub mod Routes
pub mod Handlers
pub mod Process
pub mod Matching
pub mod Counts
pub mod TextMethods
pub mod Cached
mod Tests
