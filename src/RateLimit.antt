-- ===== src/RateLimit.antt =====
-- packages/rate-limit/src: the store of the limiter, the addresses that it keys on, and its hook.
pub mod Store
pub mod Address
pub mod Client
pub mod Hook
mod Tests
mod ClientTests
