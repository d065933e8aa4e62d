-- ===== src/Servers.antt =====
-- pkg/servers: what the API server keeps between requests and how it drives a turn.
pub mod ContextCache
pub mod ToolLoop
pub mod Messages
