-- ===== src/Examples/Sockets.antt =====
-- The theorems about the crate socketio at concrete packets.
use socket_io.Base.{◌≡◌, refl, [], ◌∷◌, arith, none, some, true, false, Str, ok}
use socket_io.Socketio.Event.{Event, into_string}
use socket_io.Socketio.Packet.{PacketType, Packet, encode, decode}
use socket_io.Socketio.Packet.RoundTrip.{
  IsSendable, IsReadable, decode-encode_content, decode-encode_no_content,
}
use socket_io.Socketio.Payload.{Payload, RawPayload}
use socket_io.Socketio.Raw.{build_packet_for_payload, encode_data, placeholder_key, num_key}
use socket_io.Socketio.Incoming.{collapse, decode_binary_payload}
use socket_io.Socketio.Incoming.RoundTrip.{decode-encode_data}
use socket_io.Socketio.Attachments.{Stream, done, message, message_binary, handle_engineio_packet}
use socket_io.Socketio.Attachments.RoundTrip.{IsPortable, built, handle_built_uncounted}
use socket_io.Examples.Json.{Tree, trees, trees-IsLawful, print, of_list}

abbrev event_name : Str
event_name = b'u' ∷ b'p' ∷ []

abbrev event_tree : Tree
event_tree = Tree.array (of_list (Tree.string event_name ∷ Tree.number 7 ∷ []))

event_tree-IsReadable : IsReadable (trees event_tree) event_tree
unfolding print
event_tree-IsReadable = record {
  first = b'[';
  rest = _;
  text = refl;
  not_digit = refl;
  not_slash = omega arith;
  scalars = omega arith;
  read = refl;
  not_empty = λ e. cc e;
}

-- The namespace `/a`, and the id 12.
abbrev event_packet : Packet (trees event_tree)
event_packet = record {
  ptype = PacketType.event;
  nsp = b'/' ∷ b'a' ∷ [];
  content = some event_tree;
  id = some 12;
  attachment_count = 0;
  attachments = none;
}

event_packet-IsSendable : IsSendable (trees event_tree) event_packet
event_packet-IsSendable = record {
  path = b'a' ∷ [];
  nsp_path = refl;
  no_comma = omega arith;
  scalars = omega arith;
  count_fits = refl;
  id_fits = omega arith;
  bare = refl;
}

message_round_trip :
    decode (trees event_tree) (encode (trees event_tree) event_packet) ≡ ok event_packet
message_round_trip =
    decode-encode_content (trees event_tree) event_packet event_tree refl event_packet-IsSendable
      event_tree-IsReadable

abbrev bare_packet : Packet (trees event_tree)
bare_packet = record event_packet { content = none; ptype = PacketType.ack }

bare_packet-IsSendable : IsSendable (trees event_tree) bare_packet
bare_packet-IsSendable = record {
  path = b'a' ∷ [];
  nsp_path = refl;
  no_comma = omega arith;
  scalars = omega arith;
  count_fits = refl;
  id_fits = omega arith;
  bare = refl;
}

id_lost :
    decode (trees event_tree) (encode (trees event_tree) bare_packet)
    ≡ ok (record bare_packet { id = none })
id_lost = decode-encode_no_content (trees event_tree) bare_packet refl bare_packet-IsSendable

abbrev two_parts : (j : Tree) → Payload (trees j)
two_parts j = Payload.multi (RawPayload.binary (1 ∷ 2 ∷ []) ∷ RawPayload.json (Tree.number 5) ∷ [])

data_round_trip :
    decode_binary_payload
      (trees Tree.null)
      (some
        (encode_data (trees Tree.null) (some (Event.custom event_name)) (two_parts Tree.null)).0)
      (some
        (encode_data (trees Tree.null) (some (Event.custom event_name)) (two_parts Tree.null)).1)
      true
    ≡ some (two_parts Tree.null)
unfolding collapse
data_round_trip =
    decode-encode_data (trees Tree.null) (trees-IsLawful Tree.null) (some (Event.custom event_name))
      (two_parts Tree.null) (tt, (refl, tt)) (omega arith)

-- The data of an event with a binary argument and a number.
abbrev placed_tree : Tree
placed_tree = Tree.array (
    of_list (
      Tree.string event_name
      ∷ (trees Tree.null).object ((placeholder_key, Tree.bool true) ∷ (num_key, Tree.number 0) ∷ [])
      ∷ Tree.number 5
      ∷ []))

placed_tree-IsReadable : IsReadable (trees placed_tree) placed_tree
unfolding print
placed_tree-IsReadable = record {
  first = b'[';
  rest = _;
  text = refl;
  not_digit = refl;
  not_slash = omega arith;
  scalars = omega arith;
  read = refl;
  not_empty = λ e. cc e;
}

abbrev placed_packet : Packet (trees placed_tree)
placed_packet =
    built (trees placed_tree) (two_parts placed_tree) (some (Event.custom event_name)) (b'/' ∷ [])
      none false

placed_packet-IsPortable : IsPortable (trees placed_tree) placed_packet
unfolding build_packet_for_payload into_string
placed_packet-IsPortable = record {
  path = [];
  nsp_path = refl;
  no_comma = tt;
  scalars = tt;
  id_fits = tt;
  value = placed_tree;
  has_value = refl;
  readable = placed_tree-IsReadable;
}

abbrev plain_packet : Packet (trees event_tree)
plain_packet =
    built (trees event_tree) (Payload.json (Tree.number 7)) (some (Event.custom event_name))
      (b'/' ∷ []) none false

plain_packet-IsPortable : IsPortable (trees event_tree) plain_packet
unfolding build_packet_for_payload into_string
plain_packet-IsPortable = record {
  path = [];
  nsp_path = refl;
  no_comma = tt;
  scalars = tt;
  id_fits = tt;
  value = event_tree;
  has_value = refl;
  readable = event_tree-IsReadable;
}

no_attachment :
    handle_engineio_packet (trees event_tree) (message (encode (trees event_tree) plain_packet)) []
    ≡ done (record plain_packet { attachments = none }) []
unfolding build_packet_for_payload
no_attachment =
    handle_built_uncounted (trees event_tree) (Payload.json (Tree.number 7))
      (some (Event.custom event_name)) (b'/' ∷ []) none false [] plain_packet-IsPortable refl

-- Two attachments, and a packet behind them.
abbrev three_packets : Stream
three_packets = ok (message (1 ∷ [])) ∷ ok (message_binary (2 ∷ [])) ∷ ok (message (3 ∷ [])) ∷ []
