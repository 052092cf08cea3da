-- ===== src/Acp.antt =====
-- acp/: the JSON-RPC connection to an agent.
pub mod Messages
pub mod Connection
pub mod Client
