-- ===== src/Smf.antt =====
-- The SMF (internal/smf): its session store, its PFCP client, the orchestrator with its workers, the
-- HTTP handlers and the dashboard.
pub mod Db
pub mod PfcpClient
pub mod Orchestrator
pub mod Handler
pub mod Dashboard
pub mod Concurrent
