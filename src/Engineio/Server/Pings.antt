-- ===== src/Engineio/Server/Pings.antt =====
-- engineio/src/server/server.rs, `start_ping_pong`: the task that pings a socket and closes it when
-- it is silent. Between two ticks packets arrive over the socket.
pub mod Silence
pub mod Alive
use socket_io.Base.{
  ℕ, ◌+◌, ◌-◌, List, [], ◌∷◌, Bool, true, false, Option, none, some, Str, ok, err, ltb,
  if◌then◌else◌,
}
use socket_io.Engineio.Error.{Result}
use socket_io.Engineio.External.{Base64}
use socket_io.Engineio.Packet.{Packet, PacketType}
use socket_io.Engineio.Socket.{handle_incoming_packet}
use socket_io.Engineio.Server.{Server, ServerOption, run_socket, emit, close_socket, last_pong}

-- A tick of the interval, and the packets that arrived before it, with their times.
pub record Tick : Type 0 where
  pub arrivals : List (ℕ × Packet)
  pub now : ℕ

abbrev pub ping_packet : Packet
ping_packet = record { ptype = PacketType.ping; content = [] }

unfoldable pub ping_deadline : Server → ℕ
ping_deadline server = server.server_option.ping_timeout + server.server_option.ping_interval

module _ (b64 : Base64) where
  unfoldable pub arrive : Server → Str → List (ℕ × Packet) → Server
  unfolding run_socket handle_incoming_packet
  arrive server sid [] = server
  arrive server sid ((now, p) ∷ ps) =
      arrive (run_socket b64 server sid (λ s. (handle_incoming_packet b64 s now p, ok tt))).0 sid ps

  -- Whether the loop goes on: `instant.elapsed() < timeout`.
  unfoldable pub is_alive : Option ℕ → ℕ → ℕ → Bool
  is_alive none now timeout = false
  is_alive (some instant) now timeout = ltb (now - instant) timeout

  -- One round of the loop.
  unfoldable pub ping_round : Server → Str → ℕ → Server × Bool
  unfolding emit last_pong is_alive ping_deadline
  ping_round server sid now =
      let (server', r) = emit b64 server sid ping_packet in
      elim r [
        | err e ↦ (server', false)
        | ok u ↦ (server', is_alive (last_pong server' sid) now (ping_deadline server))
      ]

  -- The loop up to the last of some ticks; when it is left, the socket is closed.
  unfoldable pub ping_pong : Server → Str → List Tick → Server
  unfolding arrive ping_round close_socket
  ping_pong server sid [] = server
  ping_pong server sid (t ∷ ts) =
      let (server', go_on) = ping_round (arrive server sid t.arrivals) sid t.now in
      elim go_on [ true ↦ ping_pong server' sid ts | false ↦ close_socket b64 server' sid ]
