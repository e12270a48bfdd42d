-- ===== src/Examples/EngineServers.antt =====
-- The theorems about the engine.io server, at a new server with its first sockets.
use socket_io.Base.{
  List, All-imp, ◌≡◌, refl, [], ◌∷◌, map, arith, true, false, none, some, Bytes, Str, ok, take,
}
use socket_io.Base.Maps.{get}
use socket_io.Base.Utf8.{from_utf8, IsScalar}
use socket_io.Engineio.External.{HttpLibrary, IsBase64}
use socket_io.Engineio.Http.{parse_request_type, transport_text, websocket_text}
use socket_io.Socketio.Sids.{engine_sid}
use socket_io.Engineio.Error.{Result}
use socket_io.Engineio.Transport.{Message}
use socket_io.Engineio.Websocket.{
  Websocket, upgrade, ping_probe, pong_probe, upgrade_packet, send, next, finish_upgrade,
  answer_probe, is_upgrade,
}
use socket_io.Engineio.Server.Http.Upgrade.{fresh, upgrade_probed}
use socket_io.Engineio.Handshake.{IsHandshake, read_handshake}
use socket_io.Engineio.Packet.{Packet, PacketType}
use socket_io.Engineio.Payload.Polling.{IsText}
use socket_io.Engineio.Server.{Server, Entry, last_pong, generate_sid}
use socket_io.Engineio.Server.Pings.{Tick, ping_pong, ping_deadline}
use socket_io.Engineio.Server.Pings.Silence.{overdue, ping_pong_silent}
use socket_io.Engineio.Server.Pings.Alive.{IsUpIn, last_heard, ping_pong_heard}
use socket_io.Engineio.Server.Http.{handle_http, max_payload, open_polling, handle_probe, end_probe}
use socket_io.Engineio.Server.Http.Polling.{IsOpen}
use socket_io.Engineio.Server.Http.Delivery.{read, concat, stream-answers}
use socket_io.Engineio.Server.Http.Peek.{Split, handle_http_cases}
use socket_io.Engineio.Server.Http.Connecting.{next_handshake, open_polling-read_handshake}
use socket_io.Examples.Base64.{two_letters, two_letters-IsLawful}
use socket_io.Examples.HandshakeText.{plain, plain-IsLawful}

abbrev id : Str
id = b'x' ∷ []

abbrev websocket_entry : Entry
websocket_entry = record {
  socket = record {
    connected = true;
    last_ping = 7;
    last_pong = 7;
    sid = id;
    server_end = true;
    should_pong = false;
    has_event_tx = true;
    has_receiver = true;
    events = [];
    sent = [];
    faults = [];
  };
  is_polling = false;
}

abbrev one_socket : Server
one_socket = record {
  server_option = record { ping_timeout = 20; ping_interval = 10; max_payload = 100 };
  seq = 1;
  polling_handles = [];
  sockets = (id, websocket_entry) ∷ [];
  events = [];
}

abbrev pong : Packet
pong = record { ptype = PacketType.pong; content = [] }

-- Three ticks with nothing between them, and three with an answer to each ping.
abbrev silence : List Tick
silence =
    record { arrivals = []; now = 7 }
    ∷ record { arrivals = []; now = 17 }
    ∷ record { arrivals = []; now = 37 }
    ∷ []

abbrev pongs : List Tick
pongs =
    record { arrivals = []; now = 7 }
    ∷ record { arrivals = (9, pong) ∷ []; now = 17 }
    ∷ record { arrivals = (19, pong) ∷ []; now = 27 }
    ∷ []

one_socket_heard : last_pong one_socket id ≡ some 7
unfolding last_pong get
one_socket_heard = refl

silence_late : overdue (ping_deadline one_socket) 7 silence ≡ true
unfolding overdue ping_deadline
silence_late = ground arith

silent_example : get id (ping_pong two_letters one_socket id silence).sockets ≡ none
silent_example = ping_pong_silent two_letters one_socket id 7 silence one_socket_heard silence_late

one_socket-IsUpIn : IsUpIn (get id one_socket.sockets) 7
unfolding get
one_socket-IsUpIn =
    (websocket_entry, refl, refl, record { is_connected = refl; no_faults = refl; heard_at = refl })

pongs_prompt : overdue (ping_deadline one_socket) 7 pongs ≡ false
unfolding overdue ping_deadline
pongs_prompt = ground arith

heard_example :
    IsUpIn (get id (ping_pong two_letters one_socket id pongs).sockets) (last_heard 7 pongs)
heard_example =
    ping_pong_heard two_letters one_socket id 7 pongs (tt, ((refl, tt), ((refl, tt), tt)))
      one_socket-IsUpIn pongs_prompt

abbrev polling_server : Server
polling_server = record one_socket {
  sockets = (id, record websocket_entry { is_polling = true }) ∷ [];
  polling_handles = (id, record { incoming = []; outgoing = [] }) ∷ [];
}

abbrev hello : Packet
hello = record { ptype = PacketType.message; content = b'h' ∷ b'i' ∷ [] }

hello-IsText : IsText hello
unfolding from_utf8
hello-IsText = record {
  sendable = record { bytes = omega arith; full = λ e e'. cc e'; clean = λ n. omega arith };
  plain = λ e. cc e;
  content_utf8 = (b'h' ∷ b'i' ∷ [], refl);
}

polling_server-IsOpen : IsOpen polling_server id []
unfolding get
polling_server-IsOpen = (
  (record websocket_entry { is_polling = true }, refl, refl, refl),
  (record { incoming = []; outgoing = [] }, refl, refl),
)

abbrev batches : List (List Packet)
batches = (hello ∷ []) ∷ (hello ∷ hello ∷ []) ∷ []

delivery_example : read two_letters polling_server id batches ≡ map ok (concat batches)
delivery_example =
    stream-answers two_letters polling_server id batches two_letters-IsLawful
      (((λ e. cc e), (hello-IsText, tt)), (((λ e. cc e), (hello-IsText, (hello-IsText, tt))), tt))
      polling_server-IsOpen

opening_fits : IsHandshake (next_handshake two_letters one_socket)
unfolding next_handshake generate_sid engine_sid
opening_fits = record {
  sid_scalars = All-imp IsBase64 IsScalar (λ c b. omega arith) _ (two_letters-IsLawful.alphabet _);
  upgrade_scalars = omega arith;
  interval_fits = omega arith;
  timeout_fits = omega arith;
  payload_fits = omega arith;
}

polling_opening :
    let sid = (next_handshake two_letters one_socket).sid in
    let (server', answer) = open_polling two_letters plain one_socket 8 in
    (answer.0 ≡ 200)
    × ((bs : Bytes) × (answer.1 ≡ some bs)
        × (read_handshake plain two_letters bs ≡ ok (next_handshake two_letters one_socket)))
    × IsOpen server' sid []
    × (last_pong server' sid ≡ some 8)
polling_opening =
    open_polling-read_handshake two_letters plain one_socket 8 plain-IsLawful opening_fits

abbrev pong_answer : List (Result Message)
pong_answer = ok (Message.text (b'3' ∷ b'p' ∷ b'r' ∷ b'o' ∷ b'b' ∷ b'e' ∷ [])) ∷ []

abbrev probes : List (Result Message)
probes =
    ok (Message.text (b'2' ∷ b'p' ∷ b'r' ∷ b'o' ∷ b'b' ∷ b'e' ∷ []))
    ∷ ok (Message.text (b'5' ∷ []))
    ∷ []

client_sends : probes ≡ map ok (upgrade two_letters (fresh pong_answer)).0.outgoing
unfolding upgrade send next finish_upgrade ping_probe pong_probe upgrade_packet
client_sends = refl

server_sends :
    pong_answer ≡ map ok (handle_probe two_letters polling_server id (fresh probes)).1.outgoing
unfolding handle_probe send next answer_probe end_probe is_upgrade pong_probe
server_sends = refl

upgrade_example :
    ((upgrade two_letters (fresh pong_answer)).1 ≡ ok tt)
    × ((handle_probe two_letters polling_server id (fresh probes)).2 ≡ ok id)
    × ((upgrade two_letters (fresh pong_answer)).0.incoming ≡ [])
    × ((handle_probe two_letters polling_server id (fresh probes)).1.incoming ≡ [])
    × (get id (handle_probe two_letters polling_server id (fresh probes)).0.polling_handles ≡ none)
upgrade_example =
    upgrade_probed two_letters polling_server id pong_answer probes client_sends server_sends

-- A library that finds the head of a request for an upgrade in any bytes.
abbrev upgrades : HttpLibrary
upgrades = record {
  parse = λ bs. some (
    record {
      method = some (b'G' ∷ b'E' ∷ b'T' ∷ []);
      path = some (b'/' ∷ []);
      headers = (b'U' ∷ b'p' ∷ b'g' ∷ b'r' ∷ b'a' ∷ b'd' ∷ b'e' ∷ [], websocket_text) ∷ [];
    },
    2,
  );
  query_pairs = λ s. some ((transport_text, websocket_text) ∷ []);
}

abbrev request_bytes : Bytes
request_bytes = 1 ∷ 2 ∷ []

abbrev silent_websocket : Websocket
silent_websocket = record { incoming = []; outgoing = []; faults = [] }

http_example :
    Split two_letters plain one_socket silent_websocket 3
      (parse_request_type upgrades (take max_payload request_bytes) (b'h' ∷ []) false)
      (handle_http two_letters plain upgrades one_socket request_bytes request_bytes
        (b'h' ∷ [])
        silent_websocket
        3)
http_example =
    handle_http_cases two_letters plain one_socket silent_websocket 3 upgrades request_bytes
      request_bytes (b'h' ∷ []) refl
