-- ===== src/Examples/Connections.antt =====
-- The theorems about an engine.io socket at a concrete socket.
use socket_io.Base.{◌+◌, List, ◌≤◌, refl, [], ◌∷◌, true, false, none, some, if◌then◌else◌}
use socket_io.Engineio.Error.{http_error}
use socket_io.Engineio.Packet.{PacketType, Packet}
use socket_io.Engineio.Socket.{Socket}
use socket_io.Engineio.Socket.Close.{
  Call, connects, incoming, emits, disconnects, connections, run, run-closes,
}
use socket_io.Engineio.Socket.Quiet.{closes}
use socket_io.Examples.Base64.{two_letters}

abbrev pub client : Socket
client = record {
  connected = true;
  last_ping = 3;
  last_pong = 4;
  sid = b'a' ∷ [];
  server_end = false;
  should_pong = true;
  has_event_tx = true;
  has_receiver = true;
  events = [];
  sent = [];
  faults = [];
}

abbrev pub shaky : Socket
shaky = record client { faults = none ∷ some http_error ∷ [] }

abbrev ping : Packet
ping = record { ptype = PacketType.ping; content = b'p' ∷ [] }

abbrev close : Packet
close = record { ptype = PacketType.close; content = [] }

abbrev calls : List Call
calls =
    emits ping ∷ incoming 9 ping ∷ incoming 10 close ∷ disconnects ∷ connects 11 ∷ disconnects ∷ []

closes_once :
    closes (run two_letters client calls).events
      + (if (run two_letters client calls).connected then 1 else 0)
    ≤ closes client.events + (if client.connected then 1 else 0) + connections calls
closes_once = run-closes two_letters client calls refl
