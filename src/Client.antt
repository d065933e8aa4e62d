-- ===== src/Client.antt =====
-- pkg/client: the transport to the ChatHub.
pub mod WebSocketPool
pub mod Frames
pub mod Citations
