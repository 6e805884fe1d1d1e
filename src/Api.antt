-- ===== src/Api.antt =====
-- cmd/server/internal/api: the HTTP handlers.
pub mod Errors
pub mod Inbox
pub mod Limit
pub mod Rooms
pub mod Endpoints
pub mod Routes
pub mod Router
pub mod Upgrade
