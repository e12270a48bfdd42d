-- ===== src/Engineio/Server.antt =====
-- engineio/src/server/server.rs and builder.rs: the tables of a server and its operations, each of
-- which runs by itself. A socket's events go to the one channel of the server, which holds the
-- receiver itself; a wait for room in a channel is left out. For a polling socket the transport is a
-- channel to its handle, and fails without the handle; for a websocket `faults` says how the coming
-- calls of the transport end.
pub mod Pings
pub mod Http
use socket_io.Base.{
  ℕ, List, [], ◌∷◌, ◌++◌, map, Bool, true, false, Option, none, some, Bytes, Str, ok, err,
  if◌then◌else◌,
}
use socket_io.Base.Maps.{Map, get, put, erase}
use socket_io.Engineio.Error.{Error, Result, send_error}
use socket_io.Engineio.External.{Base64}
use socket_io.Engineio.Handshake.{HandshakePacket}
use socket_io.Engineio.Packet.{Packet, noop_packet}
use socket_io.Engineio.Socket as Socket
use socket_io.Engineio.Socket.{Socket, Event, new_socket}
use socket_io.Engineio.Transport.{polling_body}
use socket_io.Socketio.Sids.{engine_sid}

pub record ServerOption : Type 0 where
  pub ping_timeout : ℕ
  pub ping_interval : ℕ
  pub max_payload : ℕ

unfoldable pub default_option : ServerOption
default_option = record { ping_timeout = 25000; ping_interval = 20000; max_payload = 102400 }

-- The two channels of a polling socket: to the socket, and from it.
pub record PollingHandle : Type 0 where
  pub incoming : List Bytes
  pub outgoing : List Bytes

pub record Entry : Type 0 where
  pub socket : Socket
  pub is_polling : Bool

pub record Server : Type 0 where
  pub server_option : ServerOption
  pub seq : ℕ
  pub polling_handles : Map PollingHandle
  pub sockets : Map Entry
  pub events : List Event

-- `ServerBuilder::build`, with the options of the builder.
unfoldable pub new_server : ServerOption → Server
new_server option = record {
  server_option = option;
  seq = 0;
  polling_handles = [];
  sockets = [];
  events = [];
}

abbrev pub Outcome : Type 0
Outcome = Server × Result (Unit {0})

-- How a socket's next calls of its transport end: an operation of the server makes at most one.
unfoldable pub transport_faults : Server → Str → Entry → List (Option Error)
transport_faults server sid e =
    if e.is_polling
    then (elim (get sid server.polling_handles) [ none ↦ some send_error ∷ [] | some h ↦ [] ])
    else e.socket.faults

-- The socket before an operation: nothing is sent by it yet.
unfoldable pub before : Server → Str → Entry → Socket
unfolding transport_faults
before server sid e = record e.socket {
  events = [];
  sent = [];
  faults = transport_faults server sid e;
}

-- The entry after it: what was sent over a websocket stays in the log of its messages.
unfoldable pub after : Entry → Socket → Entry
after e s = record e {
  socket = record s { events = []; sent = if e.is_polling then [] else e.socket.sent ++ s.sent };
}

abbrev packet_for : Server → List Str → Str → HandshakePacket
packet_for server upgrades sid = record {
  sid = sid;
  upgrades = upgrades;
  ping_interval = server.server_option.ping_interval;
  ping_timeout = server.server_option.ping_timeout;
  max_payload = server.server_option.max_payload;
}

-- `Socket::upgrade`: the socket stays, over another transport.
unfoldable pub upgrade_entry : Entry → Bool → List (Option Error) → Entry
upgrade_entry e is_polling faults = record {
  socket = record e.socket { sent = []; faults = faults };
  is_polling = is_polling;
}

module _ (b64 : Base64) where
  -- What a polling socket sent is in the channel of its handle.
  unfoldable pub queue : Server → Str → Entry → Socket → Map PollingHandle
  queue server sid e s =
      if e.is_polling
      then (elim (get sid server.polling_handles) [
        | none ↦ server.polling_handles
        | some h ↦
            put sid (record h { outgoing = h.outgoing ++ map (polling_body b64) s.sent })
              server.polling_handles
      ])
      else server.polling_handles

  -- An operation of a socket that is in the table.
  unfoldable pub run_entry : Server → Str → Entry → (Socket → Socket.Outcome) → Outcome
  unfolding before after queue
  run_entry server sid e f =
      let r = f (before server sid e) in
      (
        record server {
          sockets = put sid (after e r.0) server.sockets;
          polling_handles = queue server sid e r.0;
          events = server.events ++ r.0.events;
        },
        r.1,
      )

  unfoldable pub run_socket : Server → Str → (Socket → Socket.Outcome) → Outcome
  unfolding run_entry
  run_socket server sid f = elim (get sid server.sockets) [
    | none ↦ (server, ok tt)
    | some e ↦ run_entry server sid e f
  ]

  unfoldable pub emit : Server → Str → Packet → Outcome
  unfolding run_socket Socket.emit
  emit server sid p = run_socket server sid (λ s. Socket.emit b64 s p)

  -- The socket leaves the table and is disconnected; whether that fails is ignored.
  unfoldable pub close_socket : Server → Str → Server
  unfolding run_socket Socket.disconnect
  close_socket server sid =
      let server' = (run_socket server sid (Socket.disconnect b64)).0 in
      record server' { sockets = erase sid server'.sockets }

  unfoldable pub drain_polling : Server → Str → Server
  unfolding emit
  drain_polling server sid = (emit server sid noop_packet).0

  unfoldable pub generate_sid : Server → Str × Server
  unfolding engine_sid
  generate_sid server =
      let (sid, seq) = engine_sid b64 server.seq in (sid, record server { seq = seq })

  unfoldable pub handshake_packet : Server → List Str → Option Str → HandshakePacket × Server
  unfolding generate_sid
  handshake_packet server upgrades (some sid) = (packet_for server upgrades sid, server)
  handshake_packet server upgrades none =
      let (sid, server') = generate_sid server in (packet_for server upgrades sid, server')

  -- A new socket is connected, and in the table if that worked.
  unfoldable pub store_new : Server → Str → Bool → List (Option Error) → ℕ → Outcome
  unfolding new_socket Socket.connect
  store_new server sid is_polling faults now =
      let (s, r) = Socket.connect b64 (new_socket sid now false true true true faults) now in
      let told = record server { events = server.events ++ s.events } in
      elim r [
        | err e ↦ (told, err e)
        | ok u ↦ (
          record told {
            sockets =
                put sid (record { socket = record s { events = [] }; is_polling = is_polling })
                  server.sockets;
          },
          ok tt,
        )
      ]

  -- `store_transport`, over a transport of which `faults` says how its calls end.
  unfoldable pub store_transport : Server → Str → Bool → List (Option Error) → Bool → ℕ → Outcome
  unfolding upgrade_entry store_new
  store_transport server sid is_polling faults is_upgrade now =
      if is_upgrade
      then (elim (get sid server.sockets) [
        | none ↦ (server, ok tt)
        | some e ↦ (
          record server { sockets = put sid (upgrade_entry e is_polling faults) server.sockets },
          ok tt,
        )
      ])
      else store_new server sid is_polling faults now

unfoldable pub socket : Server → Str → Option Socket
socket server sid = elim (get sid server.sockets) [ none ↦ none | some e ↦ some e.socket ]

unfoldable pub last_pong : Server → Str → Option ℕ
last_pong server sid = elim (get sid server.sockets) [
  | none ↦ none
  | some e ↦ some e.socket.last_pong
]
