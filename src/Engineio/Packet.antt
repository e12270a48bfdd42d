-- ===== src/Engineio/Packet.antt =====
-- engineio/src/packet.rs: a packet and its bytes.
pub mod RoundTrip
use socket_io.Base.{
  ℕ, suc, ◌+◌, ◌≡◌, refl, [], ◌∷◌, ◌++◌, Bool, true, false, ◌&&◌, ◌||◌, Bytes, ◌==◌, if◌then◌else◌,
  ok, err, ok_or, ◌>>=◌, length, is_empty,
}
use socket_io.Base.Decimal.{to_string}
use socket_io.Engineio.Error.{Result, invalid_packet_type, incomplete_packet, invalid_base64}
use socket_io.Engineio.External.{Base64}

pub data PacketType : Type 0 where
  open_ close ping pong message message_binary upgrade noop : PacketType

pub record Packet : Type 0 where
  pub ptype : PacketType
  pub content : Bytes

-- `impl From<PacketType> for u8`.
unfoldable pub type_to_u8 : PacketType → ℕ
type_to_u8 PacketType.open_ = 0
type_to_u8 PacketType.close = 1
type_to_u8 PacketType.ping = 2
type_to_u8 PacketType.pong = 3
type_to_u8 PacketType.message = 4
type_to_u8 PacketType.message_binary = 4
type_to_u8 PacketType.upgrade = 5
type_to_u8 PacketType.noop = 6

-- `impl From<PacketType> for String`.
unfoldable pub type_to_string : PacketType → Bytes
unfolding type_to_u8 to_string
type_to_string PacketType.message_binary = b'b' ∷ []
type_to_string t = to_string (type_to_u8 t)

-- `impl TryFrom<u8> for PacketType`: the digit, or its value.
unfoldable pub type_try_from : ℕ → Result PacketType
type_try_from b =
    if b == 0 || b == b'0'
    then ok PacketType.open_
    else if b == 1 || b == b'1'
    then ok PacketType.close
    else if b == 2 || b == b'2'
    then ok PacketType.ping
    else if b == 3 || b == b'3'
    then ok PacketType.pong
    else if b == 4 || b == b'4'
    then ok PacketType.message
    else if b == 5 || b == b'5'
    then ok PacketType.upgrade
    else if b == 6 || b == b'6'
    then ok PacketType.noop
    else err (invalid_packet_type b)

abbrev pub is_message : PacketType → Bool
is_message PacketType.message = true
is_message _ = false

abbrev pub is_message_binary : PacketType → Bool
is_message_binary PacketType.message_binary = true
is_message_binary _ = false

-- `Packet::new` is the record; `Packet::noop`.
abbrev pub noop_packet : Packet
noop_packet = record { ptype = PacketType.noop; content = [] }

module _ (b64 : Base64) where
  -- `impl TryFrom<Bytes> for Packet`.
  unfoldable pub decode : Bytes → Result Packet
  unfolding type_try_from
  decode [] = err incomplete_packet
  decode (b ∷ rest) =
      let is_base64 = b == b'b' in
      (if is_base64 then ok PacketType.message_binary else type_try_from b) >>= λ ptype.
      if is_empty rest && is_message ptype
      then err incomplete_packet
      else (if is_base64 then ok_or (b64.decode rest) invalid_base64 else ok rest) >>= λ content.
          ok (record { ptype = ptype; content = content })

  -- `impl From<Packet> for Bytes`.
  unfoldable pub encode : Packet → Bytes
  unfolding type_to_string
  encode p =
      type_to_string p.ptype
      ++ (if is_message_binary p.ptype then b64.encode p.content else p.content)
