-- ===== src/Socketio/Raw.antt =====
-- socketio/src/socket.rs, `RawSocket` and the decoding of binary payloads: packets from payloads,
-- their attachments, and the way back.
use socket_io.Base.{
  ℕ, ◌%◌, List, [], ◌∷◌, ◌++◌, Bool, true, false, Option, none, some, Bytes, Str, length, is_empty,
}
use socket_io.Socketio.External.{Json}
use socket_io.Socketio.Event.{Event, into_string}
use socket_io.Socketio.Packet.{PacketType, Packet}
use socket_io.Socketio.Payload.{Payload, RawPayload}

abbrev pub placeholder_key : Str
placeholder_key =
    b'_' ∷ b'p' ∷ b'l' ∷ b'a' ∷ b'c' ∷ b'e' ∷ b'h' ∷ b'o' ∷ b'l' ∷ b'd' ∷ b'e' ∷ b'r' ∷ []

abbrev pub num_key : Str
num_key = b'n' ∷ b'u' ∷ b'm' ∷ []

unfoldable pub packet_type : Bool → Bool → PacketType
packet_type true true = PacketType.ack
packet_type true false = PacketType.event
packet_type false true = PacketType.binary_ack
packet_type false false = PacketType.binary_event

module _ (j : Json) where
  -- `json!(&BinaryPlaceHolder::new(num))`.
  unfoldable pub place_holder : ℕ → j.Value
  place_holder num = j.object ((placeholder_key, j.bool true) ∷ (num_key, j.number num) ∷ [])

  -- The two vectors that the functions below push to.
  abbrev pub Buffers : Type 0
  Buffers = List j.Value × List Bytes

  unfoldable pub process_binary : Buffers → Bytes → Buffers
  unfolding place_holder
  process_binary (values, attachments) bin =
      (values ++ place_holder (length attachments) ∷ [], attachments ++ bin ∷ [])

  unfoldable pub process_raw : Buffers → RawPayload j → Buffers
  unfolding process_binary
  process_raw b (RawPayload.binary bin) = process_binary b bin
  process_raw (values, attachments) (RawPayload.json v) = (values ++ v ∷ [], attachments)

  unfoldable pub process_multi : Buffers → List (RawPayload j) → Buffers
  unfolding process_raw
  process_multi b [] = b
  process_multi b (p ∷ ps) = process_multi (process_raw b p) ps

  unfoldable pub process_payload : Buffers → Payload j → Buffers
  unfolding process_multi
  process_payload b (Payload.binary bin) = process_binary b bin
  process_payload (values, attachments) (Payload.json v) = (values ++ v ∷ [], attachments)
  process_payload b (Payload.multi ps) = process_multi b ps

  abbrev pub event_values : Option Event → List j.Value
  event_values none = []
  event_values (some e) = j.string (into_string e) ∷ []

  unfoldable pub encode_data : Option Event → Payload j → j.Value × List Bytes
  unfolding process_payload
  encode_data event payload =
      let (values, attachments) = process_payload (event_values event, []) payload in
      (j.array values, attachments)

  -- `attachments.len() as u8` keeps the low eight bits.
  unfoldable pub build_packet_for_payload :
      Payload j → Option Event → Str → Option ℕ → Bool → Packet j
  unfolding encode_data packet_type
  build_packet_for_payload payload event nsp id is_ack =
      let (values, attachments) = encode_data event payload in
      record {
        ptype = packet_type (is_empty attachments) is_ack;
        nsp = nsp;
        content = some values;
        id = id;
        attachment_count = length attachments % 256;
        attachments = some attachments;
      }
