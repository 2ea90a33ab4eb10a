-- ===== src/Alerts.antt =====
-- The alert dispatcher: internal/alerts/dispatcher.go.
pub mod Materialize
pub mod MaterializeLaws
pub mod Delivery
pub mod DeliveryLaws
pub mod BackoffLaws
mod Examples
