-- ===== src/Explain.antt =====
-- The tree of a query plan: internal/server/handlers/query.go.
pub mod Plan
pub mod PlanLaws
pub mod FlatLaws
mod Examples
