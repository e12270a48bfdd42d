-- ===== src/Engineio.antt =====
-- The crate engineio: its packets, payloads, transports, socket and server.
pub mod Error
pub mod External
pub mod Packet
pub mod Payload
pub mod Url
pub mod Transport
pub mod Socket
pub mod Headers
pub mod Polling
pub mod Http
pub mod Handshake
pub mod Websocket
pub mod Builder
pub mod Server
pub mod ServerBuilder
