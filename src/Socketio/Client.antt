-- ===== src/Socketio/Client.antt =====
-- socketio/src/client/client.rs and `connect_socket` of socketio/src/client/builder.rs: a client,
-- its task that polls, and how a socket is connected. What comes in over a socket is a list with
-- it; what a reconnection will get is a list of results; the waits between attempts are left out.
pub mod Loop
pub mod Owner
pub mod Connect
pub mod Schemes
use socket_io.Base.{
  ℕ, List, [], ◌∷◌, ◌++◌, Bool, true, false, Option, none, some, Str, ok, err, if◌then◌else◌,
  list_eq, drop,
}
use socket_io.Engineio.Builder as Engine
use socket_io.Engineio.Url.{Url, UrlLibrary}
use socket_io.Engineio.Builder.{Network}
use socket_io.Engineio.Error as EngineError
use socket_io.Engineio.External.{Base64}
use socket_io.Engineio.Handshake.{HandshakeJson}
use socket_io.Engineio.Socket as EngineSocket
use socket_io.Socketio.Builder.{ClientBuilder}
use socket_io.Socketio.Error.{Error, Result, incomplete_response_from_engine_io, invalid_url}
use socket_io.Socketio.Event.{Event}
use socket_io.Socketio.External.{Json}
use socket_io.Socketio.Handler.{Texts, Polled, polled, panics, poll_packet}
use socket_io.Socketio.Packet.{Packet}
use socket_io.Socketio.Reconnect.{Reconnected, replaced, gave_up, trying, reconnect}
use socket_io.Socketio.Socket as Socket
use socket_io.Socketio.Socket.{Socket, new_socket}

pub data TransportType : Type 0 where
  any polling websocket_upgrade websocket : TransportType

abbrev socket_path : Str
socket_path = b'/' ∷ b's' ∷ b'o' ∷ b'c' ∷ b'k' ∷ b'e' ∷ b't' ∷ b'.' ∷ b'i' ∷ b'o' ∷ b'/' ∷ []

-- The URL of a builder's address, as parsed.
unfoldable pub socket_url : Url → Url
socket_url url = if list_eq url.path (b'/' ∷ []) then record url { path = socket_path } else url

-- What `connect_socket` comes to; a panic is that of an engine.io build.
pub data Connected (A : Type 0) : Type 0 where
  connected : A → Connected A
  refused : Error → Connected A
  panicked : Connected A

module _ (b64 : Base64) (hs : HandshakeJson) where
  unfoldable pub engine_build :
      UrlLibrary → TransportType → Engine.SocketBuilder → Network → Network → Engine.Built
  unfolding Engine.build_with_fallback Engine.build_polling Engine.build_websocket
      Engine.build_websocket_with_upgrade
  engine_build urls TransportType.any b net again =
      Engine.build_with_fallback b64 hs urls b net again
  engine_build urls TransportType.polling b net again = Engine.build_polling b64 hs b net
  engine_build urls TransportType.websocket b net again = Engine.build_websocket b64 hs urls b net
  engine_build urls TransportType.websocket_upgrade b net again =
      Engine.build_websocket_with_upgrade b64 hs urls b net

  module _ (j : Json) where
    -- The engine.io socket of a build, at a time, over a transport of which `faults` says how its
    -- calls end.
    abbrev pub engine_socket :
        Engine.Made → ℕ → List (Option EngineError.Error) → EngineSocket.Socket
    engine_socket m now faults =
        EngineSocket.new_socket m.handshake.sid now m.should_pong false false false faults

    abbrev pub opened : Socket.Outcome j → Connected (Socket j)
    opened (s, ok u) = connected s
    opened (s, err e) = refused e

    abbrev pub over_engine :
        ClientBuilder
        → (Event → Option ℕ)
        → ℕ
        → List (Option EngineError.Error)
        → Engine.Built
        → Connected (Socket j)
    over_engine b on now faults (Engine.built m) =
        opened (Socket.connect j b64 (new_socket j false (engine_socket m now faults) b.nsp on) now)
    over_engine b on now faults (Engine.failed e) = refused (incomplete_response_from_engine_io e)
    over_engine b on now faults Engine.panicked = panicked

    -- `connect_socket`.
    unfoldable pub connect_socket :
        UrlLibrary
        → ClientBuilder
        → TransportType
        → Option EngineError.Error
        → (Event → Option ℕ)
        → Network
        → Network
        → ℕ
        → List (Option EngineError.Error)
        → Connected (Socket j)
    unfolding socket_url engine_build Engine.new_builder new_socket Socket.connect
        EngineSocket.new_socket
    connect_socket urls b transport_type header_fault on net again now faults =
        elim (urls.parse b.address) [
          | none ↦ refused invalid_url
          | some url ↦ over_engine b on now faults (
              engine_build urls transport_type (Engine.new_builder (socket_url url) header_fault)
                net again)
        ]

-- A socket, with what comes in over it.
abbrev pub Connection : Json → Type 0
Connection j = Socket j × List (Result (Packet j))

pub record Client (j : Json) : Type 0 where
  pub builder : ClientBuilder
  pub socket : Socket j
  pub incoming : List (Result (Packet j))
  pub is_connected : Bool

-- What a round of the task comes to: the client and what further reconnections will get; or a panic;
-- or a reconnection that is not over when the results are.
pub data Round (j : Json) : Type 0 where
  next : Client j → List (Result (Connection j)) → Round j
  crashed waits : Round j

module _ (j : Json) (b64 : Base64) where
  -- `Client::new`, over the socket that was connected.
  unfoldable pub new_client : ClientBuilder → Connection j → Client j
  new_client b (s, incoming) = record {
    builder = b;
    socket = s;
    incoming = incoming;
    is_connected = true;
  }

  unfoldable pub disconnect_socket : Client j → Client j × Result (Unit {0})
  unfolding Socket.disconnect
  disconnect_socket c =
      let (s, r) = Socket.disconnect j b64 c.socket in (record c { socket = s }, r)

  unfoldable pub disconnect : Client j → Client j × Result (Unit {0})
  unfolding disconnect_socket
  disconnect c =
      if c.is_connected then disconnect_socket (record c { is_connected = false }) else (c, ok tt)

  -- `reconnect`, with `do_reconnect`.
  abbrev pub reconnected :
      Client j → List (Result (Connection j)) → Option (Reconnected (Connection j)) → Round j
  reconnected c results none = next c results
  reconnected c results (some (replaced (s, incoming) n)) =
      next (record c { socket = s; incoming = incoming }) (drop n results)
  reconnected c results (some (gave_up n)) = next c (drop n results)
  reconnected c results (some (trying n)) = waits

  unfoldable pub reconnect_client : Client j → List (Result (Connection j)) → Round j
  unfolding reconnect
  reconnect_client c results =
      reconnected c results (reconnect c.builder.reconnects c.builder.max_attempts results)

  abbrev pub is_broken : Option (Result (Packet j)) → Bool
  is_broken (some (err (incomplete_response_from_engine_io e))) = true
  is_broken _ = false

  module _ (texts : Texts j) where
    abbrev pub after_poll : Client j → List (Result (Connection j)) → Polled j texts → Round j
    after_poll c results panics = crashed
    after_poll c results (polled s r rest) =
        let c' = record c { socket = s; incoming = rest } in
        if is_broken r then reconnect_client (disconnect_socket c').0 results else next c' results

    -- One round of the loop of `poll_callback`, but its last test.
    unfoldable pub poll_round : Client j → ℕ → List (Result (Connection j)) → Round j
    unfolding poll_packet reconnect_client disconnect_socket
    poll_round c now results = after_poll c results (poll_packet j texts c.socket now c.incoming)

    -- The loop, for some rounds at these times; a flag says that the owner disconnects at the end of
    -- the round, behind a reconnection that it makes. `true` is a loop that was left.
    unfoldable pub poll_callback :
        Client j → List (Result (Connection j)) → List (ℕ × Bool) → Round j × Bool
    unfolding poll_round disconnect
    poll_callback c results [] = (next c results, false)
    poll_callback c results ((now, disconnects) ∷ rounds) = elim (poll_round c now results) [
      | crashed ↦ (crashed, true)
      | waits ↦ (waits, false)
      | next c' results' ↦
          let owned : Client j = elim disconnects [ true ↦ (disconnect c').0 | false ↦ c' ] in
          elim owned.is_connected [
            | true ↦ poll_callback owned results' rounds
            | false ↦ (next owned results', true)
          ]
    ]
