-- ===== src/Hub.antt =====
-- api/hub.go and the client of api/ws.go: the messages that the panel receives over its WebSocket.
pub mod Topic
pub mod Client
pub mod Publish
pub mod Log
pub mod Replay
pub mod Delivery
