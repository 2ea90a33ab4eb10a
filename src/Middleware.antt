-- ===== src/Middleware.antt =====
-- The guards of requests: internal/server/middleware (limits.go, session.go).
pub mod IpLimit
pub mod IpLimitLaws
pub mod WindowLaws
pub mod Roles
pub mod RoleLaws
pub mod Quota
pub mod EntryLaws
pub mod Refinement
mod Examples
