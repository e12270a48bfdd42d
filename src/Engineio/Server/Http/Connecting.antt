-- ===== src/Engineio/Server/Http/Connecting.antt =====
-- engineio/src/server/http.rs: the request that opens a connection by polling.
use socket_io.Base.{ℕ, ◌≡◌, refl, ap, ◌∙◌, [], ◌∷◌, ◌++◌, true, false, some, Bytes, Str, ok}
use socket_io.Base.Maps.{get, put, get_put_same}
use socket_io.Engineio.External.{Base64}
use socket_io.Engineio.Handshake.{
  HandshakeJson, HandshakePacket, IsHandshake, handshake_body, read_handshake,
  read_handshake-handshake_body,
}
use socket_io.Engineio.Handshake as Handshake
use socket_io.Engineio.Http.{websocket_text}
use socket_io.Engineio.Socket as Socket
use socket_io.Engineio.Socket.{Socket, Event, send_event, new_socket}
use socket_io.Engineio.Server.{
  Server, Entry, PollingHandle, generate_sid, handshake_packet, store_transport, store_new,
  last_pong,
}
use socket_io.Engineio.Server.Pings.Silence.{pong_of, last_pong-get}
use socket_io.Engineio.Server.Http.{Response, polling_transport, open_polling}
use socket_io.Engineio.Server.Http.Polling.{IsOpen}

module _ (b64 : Base64) where
  -- The socket of a new connection.
  opened_socket : Str → ℕ → Socket
  opened_socket sid now = record {
    connected = true;
    last_ping = now;
    last_pong = now;
    sid = sid;
    server_end = true;
    should_pong = false;
    has_event_tx = true;
    has_receiver = true;
    events = [];
    sent = [];
    faults = [];
  }

  abbrev opened : Str → ℕ → Entry
  opened sid now = record { socket = opened_socket sid now; is_polling = true }

  opened_connected : (sid : Str) (now : ℕ) → (opened_socket sid now).connected ≡ true
  unfolding opened_socket
  opened_connected sid now = refl

  opened_last_pong : (sid : Str) (now : ℕ) → pong_of (some (opened sid now)) ≡ some now
  unfolding opened_socket
  opened_last_pong sid now = refl

  -- The handshake that the next client gets.
  unfoldable pub next_handshake : Server → HandshakePacket
  unfolding generate_sid
  next_handshake server = record {
    sid = (generate_sid b64 server).0;
    upgrades = websocket_text ∷ [];
    ping_interval = server.server_option.ping_interval;
    ping_timeout = server.server_option.ping_timeout;
    max_payload = server.server_option.max_payload;
  }

  module _ (json : HandshakeJson) where
    open_step :
        (server : Server) (now : ℕ)
        → let sid = (next_handshake server).sid in
          open_polling b64 json server now ≡ (
            record (generate_sid b64 server).1 {
              sockets = put sid (opened sid now) server.sockets;
              polling_handles =
                  put sid (record { incoming = []; outgoing = [] }) server.polling_handles;
              events = server.events ++ Event.on_open sid ∷ [];
            },
            (200, some (handshake_body json (next_handshake server))),
          )
    unfolding open_polling generate_sid polling_transport store_transport store_new new_socket
        Socket.connect send_event handshake_packet opened_socket next_handshake
    open_step server now = refl

    -- The answer to a request for a new connection is a success whose body a client reads as the
    -- handshake, with the next id, the upgrade to a websocket and the options of the server; from
    -- then on the server has an open polling socket of this id, heard at the time of the request,
    -- if JSON gives the handshake back.
    pub open_polling-read_handshake :
        (server : Server) (now : ℕ)
        → Handshake.IsLawful json
        → IsHandshake (next_handshake server)
        → let sid = (next_handshake server).sid in
          let (server', answer) = open_polling b64 json server now in
          (answer.0 ≡ 200)
          × ((bs : Bytes) × (answer.1 ≡ some bs)
              × (read_handshake json b64 bs ≡ ok (next_handshake server)))
          × IsOpen server' sid []
          × (last_pong server' sid ≡ some now)
    open_polling-read_handshake server now lawful fits =
        let step = open_step server now in
        let sid = (next_handshake server).sid in
        let there =
          ap (λ (o : Server × Response). get sid o.0.sockets) step
          ∙ get_put_same sid (opened sid now) server.sockets in
        let handle : PollingHandle = record { incoming = []; outgoing = [] } in
        (
          ap (λ (o : Server × Response). o.1.0) step,
          (
            handshake_body json (next_handshake server),
            ap (λ (o : Server × Response). o.1.1) step,
            (read_handshake-handshake_body json b64 (next_handshake server) lawful fits).0,
          ),
          (
            (opened sid now, there, refl, opened_connected sid now),
            (
              handle,
              ap (λ (o : Server × Response). get sid o.0.polling_handles) step
                  ∙ get_put_same sid handle server.polling_handles,
              refl,
            ),
          ),
          last_pong-get (open_polling b64 json server now).0 sid
              ∙ ap pong_of there
              ∙ opened_last_pong sid now,
        )
