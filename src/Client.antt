-- ===== src/Client.antt =====
-- cmd/client: the terminal client.
pub mod Inbox
pub mod ChatView
pub mod Chat
pub mod DmChat
pub mod Tea
pub mod Theme
pub mod Rooms
pub mod Dm
pub mod Auth
pub mod App
pub mod Connection
pub mod Api
pub mod Render
