-- ===== src/Smf/Orchestrator.antt =====
-- The SMF's orchestrator (internal/smf/service.go).
pub mod State
pub mod Task
pub mod Establishment
pub mod Reason
pub mod Notify
pub mod Worker
mod Tests
