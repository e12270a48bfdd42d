-- ===== src/Engineio/Server/Http.antt =====
-- engineio/src/server/http.rs: how the server answers a request. The stream holds the bytes of the
-- request, which are there when the server looks; a response is its status and its body. A `GET`
-- that waits for something to send is taken when there is something, or the socket is gone.
pub mod Upgrade
pub mod Polling
pub mod Connecting
pub mod Delivery
pub mod Peek
use socket_io.Base.{
  ℕ, List, [], ◌∷◌, ◌++◌, Bool, true, false, Option, none, some, Bytes, Str, ok, err, if◌then◌else◌,
  take,
}
use socket_io.Base.Maps.{get, put, erase}
use socket_io.Engineio.Error.{Result}
use socket_io.Engineio.External.{Base64, HttpLibrary}
use socket_io.Engineio.Handshake.{HandshakeJson, handshake_body, open_packet}
use socket_io.Engineio.Packet.{encode}
use socket_io.Engineio.Payload.{build_polling_payload}
use socket_io.Engineio.Transport.{Message}
use socket_io.Engineio.Http.{
  RequestType, ws_upgrade, polling_open, Parsed, found, websocket_text, parse_request_type, refused,
  panicked,
}
use socket_io.Engineio.Http as Http
use socket_io.Engineio.Websocket as Ws
use socket_io.Engineio.Websocket.{Websocket, answer_probe, is_upgrade, missing_packet}
use socket_io.Engineio.Server.{
  Server, PollingHandle, generate_sid, handshake_packet, store_transport, drain_polling,
}

abbrev pub Response : Type 0
Response = ℕ × Option Bytes

-- `polling_transport`: the two channels, and the handle for requests.
unfoldable pub polling_transport : Server → Str → Server
polling_transport server sid = record server {
  polling_handles = put sid (record { incoming = []; outgoing = [] }) server.polling_handles;
}

unfoldable pub polling_post : Server → Str → Bytes → Server
polling_post server sid body = elim (get sid server.polling_handles) [
  | none ↦ server
  | some h ↦ record server {
    polling_handles =
        put sid (record h { incoming = h.incoming ++ body ∷ [] }) server.polling_handles;
  }
]

unfoldable pub close_polling : Server → Str → Server
close_polling server sid = record server { polling_handles = erase sid server.polling_handles }

-- `Server::max_payload`, the size of the buffers for a request.
unfoldable pub max_payload : ℕ
max_payload = 1000

-- What `handle_http` made of a stream: an accepted websocket, a response, or the panic of a task.
pub data Handled : Type 0 where
  over_websocket : Server → Websocket → Result (Unit {0}) → Handled
  responded : Server → Response → Handled
  crashed : Handled

module _ (b64 : Base64) where
  unfoldable pub polling_get : Server → Str → Option Bytes × Server
  unfolding build_polling_payload
  polling_get server sid = elim (get sid server.polling_handles) [
    | none ↦ (none, server)
    | some h ↦ (
      build_polling_payload b64 h.outgoing,
      record server {
        polling_handles = put sid (record h { outgoing = [] }) server.polling_handles;
      },
    )
  ]

  -- The second half of `handle_probe`.
  unfoldable pub end_probe :
      Server → Str → Option (Result Message) × Websocket → Server × Websocket × Result Str
  unfolding is_upgrade close_polling
  end_probe server sid (item, w) =
      if is_upgrade item
      then (close_polling server sid, w, ok sid)
      else (server, w, err missing_packet)

  unfoldable pub handle_probe : Server → Str → Websocket → Server × Websocket × Result Str
  unfolding answer_probe Ws.next drain_polling end_probe
  handle_probe server sid w =
      let (w', answered) = answer_probe b64 (Ws.next w) in
      elim answered [
        | err e ↦ (server, w', err e)
        | ok u ↦ end_probe (drain_polling b64 server sid) sid (Ws.next w')
      ]

  module _ (json : HandshakeJson) where
    -- `Polling::handle` on a request for a new connection.
    unfoldable pub open_polling : Server → ℕ → Server × Response
    unfolding generate_sid polling_transport store_transport handshake_packet handshake_body
    open_polling server now =
        let (sid, named) = generate_sid b64 server in
        let (stored, r) = store_transport b64 (polling_transport named sid) sid true [] false now in
        elim r [
          | err e ↦ (stored, (500, none))
          | ok u ↦ (
            stored,
            (
              200,
              some (
                  handshake_body json
                    (handshake_packet b64 stored (websocket_text ∷ []) (some sid)).0),
            ),
          )
        ]

    -- `Polling::handle`, on the request type that was read.
    unfoldable pub handle_polling : Server → Parsed → ℕ → Server × Response
    unfolding open_polling polling_post polling_get
    handle_polling server (found polling_open) now = open_polling server now
    handle_polling server (found (Http.polling_post sid body)) now =
        (polling_post server sid body, (200, some (b'o' ∷ b'k' ∷ [])))
    handle_polling server (found (Http.polling_get sid)) now =
        let (body, server') = polling_get server sid in (server', (200, body))
    handle_polling server _ now = (server, (400, none))

    -- `handshake` of a websocket that connects directly.
    unfoldable pub handshake : Server → Websocket → Server × Websocket × Result Str
    unfolding generate_sid handshake_packet open_packet Ws.send encode
    handshake server w =
        let (sid, named) = generate_sid b64 server in
        let h = (handshake_packet b64 named [] (some sid)).0 in
        let (w', sent) = Ws.send w (Message.text (encode b64 (open_packet json h))) in
        elim sent [ err e ↦ (named, w', err e) | ok u ↦ (named, w', ok sid) ]

    -- `Websocket::handle`, over a stream that was accepted.
    unfoldable pub handle_websocket :
        Server → Option Str → Websocket → ℕ → Server × Websocket × Result (Unit {0})
    unfolding handshake handle_probe store_transport
    handle_websocket server asked w now =
        let (server', w', r) : Server × Websocket × Result Str = elim asked [
          | none ↦ handshake server w
          | some sid ↦ handle_probe server sid w
        ] in
        let upgrading : Bool = elim asked [ none ↦ false | some sid ↦ true ] in
        elim r [
          | err e ↦ (server', w', err e)
          | ok sid ↦
              let (stored, s) = store_transport b64 server' sid false w'.faults upgrading now in
              (stored, w', s)
        ]

    -- A request that is no upgrade is read again.
    unfoldable pub read_again : Server → Parsed → ℕ → Handled
    unfolding handle_polling
    read_again server panicked now = crashed
    read_again server r now =
        let (server', response) = handle_polling server r now in responded server' response

    -- What `handle_http` does on a request that was peeked at, and on what is read then.
    unfoldable pub handle_peeked : Server → Parsed → Parsed → Websocket → ℕ → Handled
    unfolding handle_websocket read_again
    handle_peeked server (found (ws_upgrade sid)) r w now =
        let (server', w', result) = handle_websocket server sid w now in
        over_websocket server' w' result
    handle_peeked server (found _) r w now = read_again server r now
    handle_peeked server refused r w now = read_again server r now
    handle_peeked server panicked r w now = crashed

    -- `handle_http`, on the bytes that are there when it peeks, and those that it reads then.
    unfoldable pub handle_http :
        HttpLibrary → Server → Bytes → Bytes → Str → Websocket → ℕ → Handled
    unfolding parse_request_type max_payload handle_peeked
    handle_http http server peeked stream addr w now =
        handle_peeked server (parse_request_type http (take max_payload peeked) addr true)
          (parse_request_type http (take max_payload stream) addr false) w now
