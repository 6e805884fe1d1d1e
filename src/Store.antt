-- ===== src/Store.antt =====
-- cmd/server/internal/store, which sqlc generates from the SQL: rows, parameters and queries.
pub mod Models
pub mod Params
pub mod Inbox
pub mod Sql
pub mod Feed
pub mod Relations
pub mod Database
pub mod Users
pub mod Rooms
pub mod RoomMembers
pub mod Conversations
pub mod Messages
pub mod Statements
