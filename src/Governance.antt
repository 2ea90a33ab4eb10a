-- ===== src/Governance.antt =====
-- Governance: internal/governance/policy_engine.go and internal/governance/guardrails.go.
pub mod Policy
pub mod Normalize
pub mod Pick
pub mod Guardrail
pub mod MentionLaws
pub mod PickLaws
pub mod GuardrailLaws
pub mod TouchLaws
pub mod EscapeLaws
mod Examples
