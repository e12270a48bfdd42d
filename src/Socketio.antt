-- ===== src/Socketio.antt =====
-- The crate socketio: its packets, payloads, events, sockets, server and client.
pub mod Error
pub mod External
pub mod Packet
pub mod Event
pub mod Payload
pub mod Raw
pub mod Incoming
pub mod Attachments
pub mod Acks
pub mod Socket
pub mod Handler
pub mod Sids
pub mod Rooms
pub mod Delivery
pub mod Reconnect
pub mod Builder
pub mod Client
pub mod Server
pub mod ServerBuilder
