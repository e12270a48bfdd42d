-- ===== src/Engineio/Transport/Delivery.antt =====
-- engineio/src/transports: a packet that one end emits over a websocket, as the other end reads it.
use socket_io.Base.{
  ◌≡◌, ◌≢◌, ◌⊎◌, inl, inr, refl, ap, ◌∙◌, List, [], ◌∷◌, arith, Option, none, some, Bytes, Str, ok,
  err, ◌>>=◌, All, IsByte,
}
use socket_io.Base.Utf8.{from_utf8, from_utf8_ascii}
use socket_io.Engineio.Error.{Result, incomplete_packet}
use socket_io.Engineio.External.{Base64, IsLawful}
use socket_io.Engineio.Packet.{PacketType, Packet, encode, decode}
use socket_io.Engineio.Packet.RoundTrip.{decode-encode}
use socket_io.Engineio.Transport.{Data, Message, packet_data, to_message, poll_next}

-- The packet at the other end of a websocket: what `poll_next` makes of the message, decoded.
pub received : Base64 → Packet → List (Result Message) → Option (Result Packet)
received b64 p rest = elim (to_message (packet_data b64 p)) [
  | err e ↦ none
  | ok m ↦ elim (poll_next (ok m ∷ rest)).0 [ none ↦ none | some r ↦ some (r >>= decode b64) ]
]

encode_utf8_fields :
    (b64 : Base64) (t : PacketType) (c : Bytes) (s : Str)
    → t ≢ PacketType.message_binary
    → from_utf8 c ≡ some s
    → (s' : Str) × (from_utf8 (encode b64 (record { ptype = t; content = c })) ≡ some s')
unfolding encode
encode_utf8_fields b64 PacketType.open_ c s n e = (_, from_utf8_ascii b'0' c s (omega arith) e)
encode_utf8_fields b64 PacketType.close c s n e = (_, from_utf8_ascii b'1' c s (omega arith) e)
encode_utf8_fields b64 PacketType.ping c s n e = (_, from_utf8_ascii b'2' c s (omega arith) e)
encode_utf8_fields b64 PacketType.pong c s n e = (_, from_utf8_ascii b'3' c s (omega arith) e)
encode_utf8_fields b64 PacketType.message c s n e = (_, from_utf8_ascii b'4' c s (omega arith) e)
encode_utf8_fields b64 PacketType.message_binary c s n e = absurd (n refl)
encode_utf8_fields b64 PacketType.upgrade c s n e = (_, from_utf8_ascii b'5' c s (omega arith) e)
encode_utf8_fields b64 PacketType.noop c s n e = (_, from_utf8_ascii b'6' c s (omega arith) e)

-- The encoding of a packet of text is text.
pub encode_utf8 :
    (b64 : Base64) (p : Packet) (s : Str)
    → p.ptype ≢ PacketType.message_binary
    → from_utf8 p.content ≡ some s
    → (s' : Str) × (from_utf8 (encode b64 p) ≡ some s')
encode_utf8 b64 p = encode_utf8_fields b64 p.ptype p.content

pub packet_data_text :
    (b64 : Base64) (t : PacketType) (c : Bytes)
    → t ≢ PacketType.message_binary
    → packet_data b64 (record { ptype = t; content = c })
      ≡ Data.text (encode b64 (record { ptype = t; content = c }))
unfolding packet_data
packet_data_text b64 PacketType.message_binary c n = absurd (n refl)
packet_data_text b64 _ c n = refl

received_message :
    (b64 : Base64) (p : Packet) (rest : List (Result Message)) (d : Bytes) (s : Str)
    → packet_data b64 p ≡ Data.text d
    → from_utf8 d ≡ some s
    → received b64 p rest ≡ some (decode b64 d)
unfolding received to_message poll_next
received_message b64 p rest d s e e' = rw (e, received, e') refl

-- Over a websocket, a packet of UTF-8 text arrives as it was sent, unless it is a message with no
-- text.
pub received_text :
    (b64 : Base64)
    → IsLawful b64
    → (p : Packet) (s : Str) (rest : List (Result Message)) → p.ptype ≢ PacketType.message_binary
    → All IsByte p.content
    → from_utf8 p.content ≡ some s
    → (p.ptype ≡ PacketType.message → p.content ≢ [])
    → received b64 p rest ≡ some (ok p)
received_text b64 lawful p s rest n bytes e full =
    let (s', e') = encode_utf8 b64 p s n e in
    received_message b64 p rest (encode b64 p) s' (packet_data_text b64 p.ptype p.content n) e'
    ∙ ap some (decode-encode b64 lawful p bytes full)

-- Over a websocket, a binary message arrives as a plain message with the same bytes, and one with
-- no byte as an error.
pub received_binary :
    (b64 : Base64) (c : Bytes) (rest : List (Result Message))
    → let p : Packet = record { ptype = PacketType.message_binary; content = c } in
      ((c ≢ []) × (received b64 p rest ≡ some (ok (record p { ptype = PacketType.message }))))
      ⊎ ((c ≡ []) × (received b64 p rest ≡ some (err incomplete_packet)))
unfolding received packet_data to_message poll_next decode
received_binary b64 [] rest = inr (refl, refl)
received_binary b64 (x ∷ c) rest = inl ((λ e. cc), refl)
