-- ===== src/Engineio/Transport.antt =====
-- engineio/src/transports: what the polling and websocket transports put on the wire for a `Data`,
-- and what they make of what arrives.
pub mod Delivery
use socket_io.Base.{
  ℕ, ◌≡◌, List, [], ◌∷◌, Option, none, some, Bytes, ◌==◌, if◌then◌else◌, ok, err, ◌>>=◌,
}
use socket_io.Base.Utf8.{from_utf8}
use socket_io.Engineio.Error.{Error, Result, utf8_error, invalid_http_response_status}
use socket_io.Engineio.External.{Base64}
use socket_io.Engineio.Packet.{PacketType, Packet, encode}

pub data Data : Type 0 where
  text binary : Bytes → Data

-- tungstenite's `Message`: a text stands for its bytes, which are UTF-8; pings, pongs, closes and
-- raw frames are `other`, with what `into_data` makes of them.
pub data Message : Type 0 where
  text binary : Bytes → Message
  other : Bytes → Message

-- `ptype as u8`: the position of the variant.
unfoldable pub discriminant : PacketType → ℕ
discriminant PacketType.open_ = 0
discriminant PacketType.close = 1
discriminant PacketType.ping = 2
discriminant PacketType.pong = 3
discriminant PacketType.message = 4
discriminant PacketType.message_binary = 5
discriminant PacketType.upgrade = 6
discriminant PacketType.noop = 7

module _ (b64 : Base64) where
  -- The body that both polling transports send.
  unfoldable pub polling_body : Data → Bytes
  polling_body (Data.text d) = d
  polling_body (Data.binary d) = b'b' ∷ b64.encode d

  -- How `Socket::emit` and `Socket::emit_multi` hand a packet to the transport.
  unfoldable pub packet_data : Packet → Data
  packet_data p = elim p.ptype [
    | PacketType.message_binary ↦ Data.binary p.content
    | _ ↦ Data.text (encode b64 p)
  ]

-- The answer to a post of the client's polling transport, by its status.
unfoldable pub post_status : ℕ → Result (Unit {0})
post_status status = if status == 200 then ok tt else err (invalid_http_response_status status)

-- `impl TryFrom<Data> for Message`.
unfoldable pub to_message : Data → Result Message
to_message (Data.text d) = elim (from_utf8 d) [
  | none ↦ err utf8_error
  | some s ↦ ok (Message.text d)
]
to_message (Data.binary d) = ok (Message.binary d)

-- `WebsocketTransport::poll_next`, over what the receiver will yield: the item, and the rest.
-- `none` is the end of the stream.
unfoldable pub poll_next : List (Result Message) → Option (Result Bytes) × List (Result Message)
unfolding discriminant
poll_next [] = (none, [])
poll_next (ok (Message.text s) ∷ rest) = (some (ok s), rest)
poll_next (ok (Message.binary d) ∷ rest) = (some (ok (discriminant PacketType.message ∷ d)), rest)
poll_next (ok (Message.other d) ∷ rest) = poll_next rest
poll_next (err e ∷ rest) = (some (err e), rest)
