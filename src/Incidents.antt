-- ===== src/Incidents.antt =====
-- The incidents of governance: internal/governance/incidents.go and the handlers that change them in
-- internal/server/handlers/governance.go.
pub mod Store
pub mod Keys
pub mod CountLaws
pub mod UpsertLaws
pub mod ViolationLaws
pub mod Handlers
pub mod StatusLaws
pub mod ServeLaws
mod Examples
