-- ===== src/License.antt =====
-- Licenses: internal/license/license.go, tokens.go.
pub mod Validate
pub mod Tokens
pub mod ValidateLaws
mod Examples
