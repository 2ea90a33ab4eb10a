-- ===== src/QueryProc.antt =====
-- The variables of dashboard queries: internal/queryproc/variables.go.
pub mod Patterns
pub mod Times
pub mod Variables
pub mod VariableLaws
pub mod BoundsLaws
mod Examples
