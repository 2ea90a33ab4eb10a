-- ===== src/Tunnel.antt =====
-- The tunnel gateway: internal/tunnel.
pub mod Protocol
pub mod Gateway
pub mod Auth
pub mod Api
pub mod Views
pub mod Reject
pub mod Invariant
pub mod Handlers
pub mod Reading
pub mod Dispatching
pub mod Disconnecting
pub mod Connecting
pub mod Requests
pub mod Steps
pub mod Takeover
pub mod Answers
mod Examples
