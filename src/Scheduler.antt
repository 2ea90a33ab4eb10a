-- ===== src/Scheduler.antt =====
-- The scheduler of saved queries: internal/scheduler/cron.go.
pub mod Cron
pub mod CronLaws
mod Examples
pub mod Runner
pub mod RunnerLaws
pub mod TurnLaws
