-- ===== src/Ws/Hub/Broadcast.antt =====
-- `broadcastMessage` of cmd/server/internal/ws/hub.go: who receives a message, and who is dropped.
pub mod Offer
pub mod Loop
pub mod Rounds
