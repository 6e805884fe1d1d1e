-- ===== src/Ws.antt =====
-- cmd/server/internal/ws: the WebSocket hub and the connected clients.
pub mod Message
pub mod Presence
pub mod Hub
pub mod Dispatch
pub mod Notify
