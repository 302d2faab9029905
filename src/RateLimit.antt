-- ===== src/RateLimit.antt =====
-- app/core/api_integration/rate_limiting.py
pub mod Config
pub mod Storage
pub mod Algorithms
pub mod LogWindow
pub mod LogBounds
pub mod Quota
pub mod Limiter
mod Counters
pub mod QuotaUse
pub mod SlidingUse
pub mod TokenUse
pub mod LimiterStats
mod Tests
