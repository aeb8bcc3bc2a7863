-- ===== src/Smf/Concurrent.antt =====
-- The SMF with its workers at the same time (internal/smf/service.go, handler.go and pfcp_client.go): a
-- job goes through stages, and between two stages of one worker all else may happen.
pub mod Stages
pub mod Service
pub mod Alone
pub mod Holds
pub mod Places
pub mod Invariant
pub mod Ends
pub mod Accounts
pub mod Bounds
pub mod Pending
mod Total
mod Counted
mod Drain
mod Stop
mod Kept
mod Progress
mod Tests
