-- ===== src/Socketio/Packet.antt =====
-- socketio/src/packet.rs: a packet, its text, and the reader of that text.
pub mod Scan
pub mod Text
pub mod RoundTrip
use socket_io.Base.{
  ℕ, zero, suc, ◌+◌, ◌≡◌, refl, List, [], ◌∷◌, ◌++◌, Bool, true, false, Option, none, some, not,
  Bytes, Str, ◌==◌, if◌then◌else◌, ok, err, ok_or, ◌>>=◌, list_eq,
}
use socket_io.Base.Utf8.{from_utf8, utf8}
use socket_io.Base.Decimal.{to_string, parse, is_ascii_digit}
use socket_io.Socketio.Error.{
  Result, invalid_packet_type, incomplete_packet, invalid_utf8, invalid_json,
}
use socket_io.Socketio.External.{Json, max_u64}

pub data PacketType : Type 0 where
  connect disconnect event ack connect_error binary_event binary_ack : PacketType

-- The field `content` is the source's `data`.
pub record Packet (j : Json) : Type 0 where
  pub ptype : PacketType
  pub nsp : Str
  pub content : Option j.Value
  pub id : Option ℕ
  pub attachment_count : ℕ
  pub attachments : Option (List Bytes)

abbrev pub root : Str
root = b'/' ∷ []

-- `ptype as u8`.
unfoldable pub type_to_u8 : PacketType → ℕ
type_to_u8 PacketType.connect = 0
type_to_u8 PacketType.disconnect = 1
type_to_u8 PacketType.event = 2
type_to_u8 PacketType.ack = 3
type_to_u8 PacketType.connect_error = 4
type_to_u8 PacketType.binary_event = 5
type_to_u8 PacketType.binary_ack = 6

-- `impl TryFrom<char> for PacketType`.
unfoldable pub type_try_from : ℕ → Result PacketType
type_try_from b =
    if b == b'0'
    then ok PacketType.connect
    else if b == b'1'
    then ok PacketType.disconnect
    else if b == b'2'
    then ok PacketType.event
    else if b == b'3'
    then ok PacketType.ack
    else if b == b'4'
    then ok PacketType.connect_error
    else if b == b'5'
    then ok PacketType.binary_event
    else if b == b'6'
    then ok PacketType.binary_ack
    else err (invalid_packet_type b)

-- The pattern `BinaryAck | BinaryEvent`.
abbrev pub is_binary : PacketType → Bool
is_binary PacketType.binary_event = true
is_binary PacketType.binary_ack = true
is_binary _ = false

-- The loops that read up to a `-` or a `,` and drop it; `none` where the text ends before.
unfoldable pub take_until : ℕ → Str → Option (Str × Str)
take_until stop [] = none
take_until stop (c ∷ s) =
    let rest = take_until stop s in
    if c == stop
    then some ([], s)
    else elim rest [ none ↦ none | some (buf, s') ↦ some (c ∷ buf, s') ]

-- The loop that reads the digits of an id; `none` where the text ends in it.
unfoldable pub take_digits : Str → Option (Str × Str)
take_digits [] = none
take_digits (c ∷ s) =
    let rest = take_digits s in
    if is_ascii_digit c
    then elim rest [ none ↦ none | some (buf, s') ↦ some (c ∷ buf, s') ]
    else some ([], c ∷ s)

abbrev pub or_zero : Option ℕ → ℕ
or_zero none = 0
or_zero (some n) = n

-- What the writer puts for the number of attachments, the namespace and the id.
abbrev pub count_text : PacketType → ℕ → Str
count_text t n = if is_binary t then to_string n ++ b'-' ∷ [] else []

abbrev pub nsp_text : Str → Str
nsp_text nsp = if list_eq nsp root then [] else nsp ++ b',' ∷ []

abbrev pub id_text : Option ℕ → Str
id_text none = []
id_text (some n) = to_string n

module _ (j : Json) where
  -- `impl Default for Packet`.
  abbrev pub default_packet : Packet j
  default_packet = record {
    ptype = PacketType.event;
    nsp = root;
    content = none;
    id = none;
    attachment_count = 0;
    attachments = none;
  }

  -- An empty array is no data.
  unfoldable pub some_content : j.Value → Option j.Value
  some_content v = elim (j.as_array v) [
    | some vs ↦ elim vs [ [] ↦ none | x ∷ xs ↦ some v ]
    | none ↦ some v
  ]

  unfoldable pub decode_content : Packet j → Str → Result (Packet j)
  unfolding some_content
  decode_content p s =
      ok_or (j.from_str s) invalid_json >>= λ v. ok (record p { content = some_content v })

  unfoldable pub decode_id : Packet j → Str → Result (Packet j)
  unfolding take_digits
  decode_id p s = elim (take_digits s) [
    | none ↦ ok p
    | some (buf, rest) ↦ decode_content (record p { id = parse max_u64 buf }) rest
  ]

  unfoldable pub decode_nsp : Packet j → Str → Result (Packet j)
  unfolding take_until
  decode_nsp p [] = ok p
  decode_nsp p (c ∷ s) =
      if c == b'/'
      then (ok_or (take_until b',' s) incomplete_packet >>= λ r.
          decode_id (record p { nsp = c ∷ r.0 }) r.1)
      else decode_id p (c ∷ s)

  unfoldable pub decode_count : PacketType → Str → Result (Packet j)
  unfolding take_until
  decode_count t s =
      (if is_binary t then ok_or (take_until b'-' s) incomplete_packet else ok ([], s)) >>= λ r.
      decode_nsp (record default_packet { ptype = t; attachment_count = or_zero (parse 255 r.0) })
        r.1

  unfoldable pub decode_text : Str → Result (Packet j)
  unfolding type_try_from
  decode_text [] = err incomplete_packet
  decode_text (c ∷ s) = type_try_from c >>= λ t. decode_count t s

  -- `impl TryFrom<&Bytes> for Packet`.
  unfoldable pub decode : Bytes → Result (Packet j)
  unfolding decode_text
  decode payload = ok_or (from_utf8 payload) invalid_utf8 >>= decode_text

  -- The `String` that `From<&Packet> for Bytes` builds first.
  unfoldable pub header : Packet j → Str
  unfolding type_to_u8
  header p =
      to_string (type_to_u8 p.ptype)
      ++ (count_text p.ptype p.attachment_count ++ (nsp_text p.nsp ++ id_text p.id))

  abbrev pub content_text : Option j.Value → Str
  content_text none = []
  content_text (some v) = j.to_string v

  -- `impl From<&Packet> for Bytes`.
  unfoldable pub encode : Packet j → Bytes
  unfolding header
  encode p = utf8 (header p) ++ utf8 (content_text p.content)
