-- ===== src/Examples/Handlers.antt =====
-- The theorems about a socket.io socket at a concrete socket.
use socket_io.Base.{
  ℕ, ◌≤◌, ◌≡◌, refl, List, [], ◌∷◌, ◌++◌, map, take, length, ◌==◌, arith, true, false, none, some,
  ok,
}
use socket_io.Engineio.Transport.{packet_data}
use socket_io.Socketio.Event.{Event}
use socket_io.Socketio.Payload.{Payload}
use socket_io.Socketio.Packet.{PacketType, Packet}
use socket_io.Socketio.Acks.{Ack}
use socket_io.Socketio.Acks.Removal.{DistinctIds}
use socket_io.Socketio.Attachments.{engine_packets}
use socket_io.Socketio.Socket.{Socket, send, new_socket}
use socket_io.Socketio.Socket.Send.{succeeds, send_prefix}
use socket_io.Socketio.Handler.{Texts, finished, handle_ack, ack_payload}
use socket_io.Socketio.Handler.Ack.{called_for, handle_ack_once}
use socket_io.Socketio.Handler.Run.{
  Call, emits_with_ack, arrives, disconnects, run, run-DistinctIds,
}
use socket_io.Examples.Base64.{two_letters}
use socket_io.Examples.Json.{Tree, trees}
use socket_io.Examples.Connections.{client, shaky}

abbrev Example : Type 0
Example = Socket (trees Tree.null)

abbrev texts : Texts (trees Tree.null)
texts = record { display = λ e. b'e' ∷ []; connect_error = λ v. b'c' ∷ [] }

abbrev first_ack : Ack
first_ack = record { id = 4; timeout = 10; time_started = 1; callback = 21 }

abbrev second_ack : Ack
second_ack = record { id = 5; timeout = 10; time_started = 2; callback = 22 }

-- A socket with one handler, 7, for any event, that waits for two acks.
abbrev socket : Example
socket = record {
  nsp = b'/' ∷ [];
  is_server = false;
  engine = shaky;
  on = λ e. some 7;
  outstanding_acks = first_ack ∷ second_ack ∷ [];
  is_connected = true;
  seq = 6;
  called = [];
}

abbrev packet : PacketType → Packet (trees Tree.null)
packet t = record {
  ptype = t;
  nsp = b'/' ∷ [];
  content = none;
  id = some 5;
  attachment_count = 0;
  attachments = some ((1 ∷ []) ∷ (2 ∷ []) ∷ []);
}

abbrev foreign : Packet (trees Tree.null)
foreign = record (packet PacketType.event) { nsp = b'/' ∷ b'x' ∷ [] }

send_prefix_example :
    (n : ℕ) × (n ≤ length (engine_packets (trees Tree.null) (packet PacketType.binary_event)))
    × (succeeds (send (trees Tree.null) two_letters socket (packet PacketType.binary_event))
        ≡ (n == length (engine_packets (trees Tree.null) (packet PacketType.binary_event))))
    × ((send (trees Tree.null) two_letters socket (packet PacketType.binary_event)).0.engine.sent
        ≡ socket.engine.sent
          ++ map
              (packet_data two_letters)
              (take n (engine_packets (trees Tree.null) (packet PacketType.binary_event))))
send_prefix_example =
    send_prefix (trees Tree.null) two_letters socket (packet PacketType.binary_event)

ack_once_example :
    let s : Example = record socket {
      outstanding_acks = first_ack ∷ [];
      called =
          called_for
            (trees Tree.null)
            6
            (ack_payload (trees Tree.null) (packet PacketType.ack) false)
            second_ack;
    } in
    (handle_ack (trees Tree.null) socket 6 (packet PacketType.ack) false ≡ finished s (ok tt))
    × (handle_ack (trees Tree.null) s 8 (packet PacketType.ack) false ≡ finished s (ok tt))
ack_once_example =
    handle_ack_once (trees Tree.null) socket 6 8 (packet PacketType.ack) (packet PacketType.ack)
      false false (first_ack ∷ []) second_ack [] refl ((omega arith, tt), (tt, tt)) refl refl

abbrev calls : List (Call (trees Tree.null))
calls =
    emits_with_ack 3 Event.message (Payload.binary (1 ∷ [])) 5 21
    ∷ arrives 4 (record (packet PacketType.binary_ack) { id = some 0 })
    ∷ disconnects
    ∷ []

run_example :
    (s : Example) × (run
        (trees Tree.null)
        two_letters
        texts
        (new_socket (trees Tree.null) false client (b'/' ∷ []) (λ e. none))
        calls
      ≡ some s)
    × DistinctIds s.outstanding_acks
run_example =
    run-DistinctIds (trees Tree.null) two_letters texts false client (b'/' ∷ []) (λ e. none) calls
      (omega arith)
