-- ===== src/Models.antt =====
-- Data models: their references, their dependency graph and their runs (internal/models).
pub mod Dag
pub mod Ref
pub mod RefLaws
pub mod Runner
pub mod Schedule
pub mod ScheduleLaws
mod Examples
mod RunExamples
