-- ===== src/Transport.antt =====
-- internal/transport: the HTTP API between peers.
pub mod Number
pub mod Auth
pub mod Envelope
pub mod Server
pub mod Client
