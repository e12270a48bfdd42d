-- ===== src/Engineio/Handshake.antt =====
-- engineio/src/packet.rs, `HandshakePacket`, with the JSON that serde derives for it as a parameter;
-- and the packets by which a server opens a connection, from engineio/src/server/http.rs.
use socket_io.Base.{
  ℕ, ◌≤◌, ◌≡◌, refl, ap, ◌∙◌, List, [], ◌∷◌, ◌++◌, Option, some, Bytes, Str, ok, ok_or, ◌>>=◌, All,
}
use socket_io.Base.Utf8.{IsScalar, utf8}
use socket_io.Base.Decimal.{to_string}
use socket_io.Engineio.Error.{Result, invalid_json}
use socket_io.Engineio.External.{Base64, max_usize}
use socket_io.Engineio.Packet.{
  Packet, PacketType, encode, decode, type_try_from, type_to_string, type_to_u8,
}
use socket_io.Engineio.Transport.{discriminant}

pub record HandshakePacket : Type 0 where
  pub sid : Str
  pub upgrades : List Str
  pub ping_interval : ℕ
  pub ping_timeout : ℕ
  pub max_payload : ℕ

-- What serde derives: the text of a handshake, and the handshake of some bytes.
pub record HandshakeJson : Type 0 where
  pub to_string : HandshakePacket → Str
  pub from_slice : Bytes → Option HandshakePacket

-- The fields are of their Rust types: texts, `u64` and `usize`.
pub record IsHandshake (h : HandshakePacket) : Type 0 where
  pub sid_scalars : All IsScalar h.sid
  pub upgrade_scalars : All (All IsScalar) h.upgrades
  pub interval_fits : h.ping_interval ≤ max_usize
  pub timeout_fits : h.ping_timeout ≤ max_usize
  pub payload_fits : h.max_payload ≤ max_usize

-- A handshake is read back from its own text.
abbrev pub IsLawful : HandshakeJson → Type 0
IsLawful j = (h : HandshakePacket) → IsHandshake h → j.from_slice (utf8 (j.to_string h)) ≡ some h

module _ (json : HandshakeJson) where
  -- `impl TryFrom<Packet> for HandshakePacket`.
  unfoldable pub try_from : Packet → Result HandshakePacket
  try_from p = ok_or (json.from_slice p.content) invalid_json

  -- `Polling::handshake_body`: the bytes of the text.
  unfoldable pub handshake_body : HandshakePacket → Bytes
  unfolding discriminant to_string
  handshake_body h = utf8 (to_string (discriminant PacketType.open_) ++ json.to_string h)

  -- The packet that a websocket is opened with.
  unfoldable pub open_packet : HandshakePacket → Packet
  open_packet h = record { ptype = PacketType.open_; content = utf8 (json.to_string h) }

  module _ (b64 : Base64) where
    -- What a client makes of the first bytes.
    unfoldable pub read_handshake : Bytes → Result HandshakePacket
    unfolding try_from
    read_handshake bs = decode b64 bs >>= try_from

    body_open : (h : HandshakePacket) → handshake_body h ≡ encode b64 (open_packet h)
    unfolding handshake_body open_packet encode discriminant to_string utf8
    body_open h = refl

    decode_open :
        (c : Bytes) → decode b64 (b'0' ∷ c) ≡ ok (record { ptype = PacketType.open_; content = c })
    unfolding decode type_try_from
    decode_open [] = refl
    decode_open (b ∷ rest) = refl

    encode_open :
        (h : HandshakePacket) → encode b64 (open_packet h) ≡ b'0' ∷ utf8 (json.to_string h)
    unfolding encode open_packet type_to_string to_string type_to_u8
    encode_open h = refl

    read_open :
        (h : HandshakePacket)
        → json.from_slice (utf8 (json.to_string h)) ≡ some h
        → read_handshake (encode b64 (open_packet h)) ≡ ok h
    unfolding read_handshake try_from
    read_open h e =
        ap (λ bs. decode b64 bs >>= try_from) (encode_open h)
        ∙ ap (λ r. r >>= try_from) (decode_open (utf8 (json.to_string h)))
        ∙ ap (λ o. ok_or o invalid_json) e

    -- A client reads the handshake that the server made, from the body of a polling response and
    -- from the first message of a websocket alike, if JSON gives it back.
    pub read_handshake-handshake_body :
        (h : HandshakePacket)
        → IsLawful json
        → IsHandshake h
        → (read_handshake (handshake_body h) ≡ ok h)
          × (read_handshake (encode b64 (open_packet h)) ≡ ok h)
    read_handshake-handshake_body h lawful fits =
        let e = read_open h (lawful h fits) in (ap read_handshake (body_open h) ∙ e, e)
