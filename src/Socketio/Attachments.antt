-- ===== src/Socketio/Attachments.antt =====
-- socketio/src/socket.rs, `RawSocket::handle_engineio_packet`: a packet and its attachments from
-- engine.io packets. `engine_packets` says which these are for a packet.
pub mod Collect
pub mod RoundTrip
use socket_io.Base.{
  ℕ, zero, suc, ◌+◌, ◌≡◌, List, [], ◌∷◌, ◌++◌, map, Bool, true, false, Option, none, some, Bytes,
  ltb, if◌then◌else◌, ok, err,
}
use socket_io.Engineio.Error as Engine
use socket_io.Engineio.Packet as EnginePacket
use socket_io.Socketio.Error.{
  Error, Result, incomplete_response_from_engine_io, invalid_attachment_packet_type,
}
use socket_io.Socketio.External.{Json}
use socket_io.Socketio.Packet.{Packet, encode, decode}

-- What the engine.io socket will yield from here on.
abbrev pub Stream : Type 0
Stream = List (Engine.Result EnginePacket.Packet)

abbrev pub message : Bytes → EnginePacket.Packet
message b = record { ptype = EnginePacket.PacketType.message; content = b }

abbrev pub message_binary : Bytes → EnginePacket.Packet
message_binary b = record { ptype = EnginePacket.PacketType.message_binary; content = b }

abbrev pub with_binaries : EnginePacket.Packet → Option (List Bytes) → List EnginePacket.Packet
with_binaries first none = first ∷ []
with_binaries first (some atts) = first ∷ map message_binary atts

-- A packet as engine.io packets: the packet, and each attachment.
unfoldable pub engine_packets : (j : Json) → Packet j → List EnginePacket.Packet
engine_packets j p = with_binaries (message (encode j p)) p.attachments

-- A value with the rest of the stream, an error with it, or the panic of `unwrap` at its end.
pub data Outcome (A : Type 0) : Type 0 where
  done : A → Stream → Outcome A
  fails : Error → Stream → Outcome A
  panics : Outcome A

-- The pattern `MessageBinary | Message`.
abbrev pub is_attachment : EnginePacket.PacketType → Bool
is_attachment EnginePacket.PacketType.message = true
is_attachment EnginePacket.PacketType.message_binary = true
is_attachment _ = false

-- The loop while attachments are left.
unfoldable pub collect : ℕ → List Bytes → Stream → Outcome (List Bytes)
collect zero attachments stream = done attachments stream
collect (suc left) attachments [] = panics
collect (suc left) attachments (err e ∷ stream) =
    fails (incomplete_response_from_engine_io e) stream
collect (suc left) attachments (ok p ∷ stream) = elim (is_attachment p.ptype) [
  | true ↦ collect left (attachments ++ p.content ∷ []) stream
  | false ↦ fails (invalid_attachment_packet_type (EnginePacket.type_to_u8 p.ptype)) stream
]

abbrev pub with_attachments : (j : Json) → Packet j → Outcome (List Bytes) → Outcome (Packet j)
with_attachments j p (done atts stream) = done (record p { attachments = some atts }) stream
with_attachments j p (fails e stream) = fails e stream
with_attachments j p panics = panics

abbrev pub take_attachments : (j : Json) → Result (Packet j) → Stream → Outcome (Packet j)
take_attachments j (err e) stream = fails e stream
take_attachments j (ok p) stream =
    if ltb 0 p.attachment_count
    then with_attachments j p (collect p.attachment_count [] stream)
    else done p stream

abbrev pub yielded : {A : Type 0} → Outcome A → Outcome (Option A)
yielded (done a stream) = done (some a) stream
yielded (fails e stream) = fails e stream
yielded panics = panics

-- `handle_engineio_packet`.
unfoldable pub handle_engineio_packet :
    (j : Json) → EnginePacket.Packet → Stream → Outcome (Packet j)
unfolding collect
handle_engineio_packet j packet stream = take_attachments j (decode j packet.content) stream

-- `RawSocket::stream` up to the first packet that it yields, which is what `poll_packet` returns:
-- engine.io packets of other types are skipped. At the end of the stream there is `none`.
unfoldable pub next_packet : (j : Json) → Stream → Outcome (Option (Packet j))
unfolding handle_engineio_packet
next_packet j [] = done none []
next_packet j (err e ∷ stream) = fails (incomplete_response_from_engine_io e) stream
next_packet j (ok p ∷ stream) = elim (is_attachment p.ptype) [
  | true ↦ yielded (handle_engineio_packet j p stream)
  | false ↦ next_packet j stream
]
