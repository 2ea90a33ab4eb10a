-- ===== src/RateLimit.antt =====
-- The login rate limiter: internal/server/middleware/ratelimit.go over the table of
-- internal/database/rate_limits.go.
pub mod Level
pub mod Table
pub mod Cleanup
pub mod Check
pub mod LevelLaws
pub mod CheckLaws
pub mod LockLaws
mod Examples
