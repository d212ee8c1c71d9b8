-- ===== src/Client.antt =====
-- The user's program (src/client): its session, and its exchange of messages with the server.
pub mod Udp
pub mod Session
