-- ===== src/Examples/Recipients.antt =====
-- The theorems about what a server emits to rooms, at a server with one client in one room.
use socket_io.Base.{
  none, ◌≡◌, refl, sym, [], ◌∷◌, ◌&&◌, arith, true, false, some, if◌then◌else◌, Str, list_eq,
  list_eq_refl, list_eq_sound, List, ok, ◌++◌,
}
use socket_io.Base.Maps.{Map, get}
use socket_io.Socketio.Event.{Event}
use socket_io.Socketio.External.{Json}
use socket_io.Socketio.Payload.{Payload}
use socket_io.Socketio.Rooms.{Set, contains}
use socket_io.Socketio.Rooms.Membership.{is_in}
use socket_io.Socketio.Rooms.Recipients.{is_addressed}
use socket_io.Socketio.Sids.{engine_sid, generate}
use socket_io.Socketio.Sids.RoundTrip.{decode-generate_engine}
use socket_io.Engineio.Server.{Entry}
use socket_io.Engineio.Transport.{Data}
use socket_io.Engineio.Socket.Wire.{received_stream}
use socket_io.Socketio.Attachments.{done, next_packet}
use socket_io.Socketio.Event.{from_string, into_string}
use socket_io.Socketio.Handler.{finished, handle_socketio_packet}
use socket_io.Socketio.Incoming.{collapse}
use socket_io.Socketio.Incoming.RoundTrip.{raws}
use socket_io.Socketio.Packet.{Packet}
use socket_io.Socketio.Server.Emission.Broadcast.{emit_to_delivered}
use socket_io.Socketio.Socket.{Called}
use socket_io.Socketio.Socket as Client
use socket_io.Socketio.Socket.{Socket}
use socket_io.Socketio.Server.{Server, client, run_client, emit_to}
use socket_io.Socketio.Server.Emission.{at}
use socket_io.Socketio.Server.Emission.Reached.{emit_to_reached}
use socket_io.Socketio.Server.Asking.{emit_to_with_ack}
use socket_io.Socketio.Server.Asking.Waiting.{map_option, waiting, client-emit_to_with_ack}
use socket_io.Examples.Base64.{two_letters, two_letters-IsLawful}
use socket_io.Examples.Json.{trees, trees-IsLawful}
use socket_io.Examples.Deliveries.{
  name, sent_tree, parts, parts-IsFit, event-IsDeliverable, end_of_connection, texts,
}
use socket_io.Examples.Connections as Connections

abbrev json : Json
json = trees sent_tree

abbrev esid : Str
esid = (engine_sid two_letters 1).0

abbrev alice : Str
alice = (generate two_letters 3 esid).0

abbrev hall : Str
hall = b'h' ∷ []

abbrev root : Str
root = b'/' ∷ []

abbrev rooms : Map Set
rooms = (hall, alice ∷ []) ∷ []

abbrev alices : Socket json
alices = record {
  nsp = root;
  is_server = true;
  engine = Connections.client;
  on = λ e. some 3;
  outstanding_acks = [];
  is_connected = true;
  seq = 0;
  called = [];
}

abbrev entry : Entry
entry = record { socket = Connections.client; is_polling = false }

abbrev server : Server json
server = record {
  on = λ nsp. some (λ e. some 3);
  rooms = (root, rooms) ∷ [];
  clients = (esid, (alice, (root, alices) ∷ []) ∷ []) ∷ [];
  engine_server = record {
    server_option = record { ping_timeout = 20; ping_interval = 10; max_payload = 100 };
    seq = 2;
    polling_handles = [];
    sockets = (esid, entry) ∷ [];
    events = [];
  };
  seq = 4;
}

room_there : get root server.rooms ≡ some rooms
unfolding get
room_there = refl

addressed : is_addressed server.rooms root (hall ∷ hall ∷ []) alice ≡ true
unfolding is_addressed is_in contains get
addressed = ground (arith, list_eq_refl alice)

only_alice : (x : Str) → is_addressed server.rooms root (hall ∷ hall ∷ []) x ≡ true → alice ≡ x
unfolding is_addressed is_in contains get
only_alice x e = let f : list_eq alice x ≡ true = ground (arith, e) in list_eq_sound alice x f

alice_there : client json two_letters server alice root ≡ some alices
unfolding client get
alice_there =
    rw
      (
        client,
        decode-generate_engine two_letters two_letters-IsLawful 3 1,
        list_eq_refl esid,
        list_eq_refl alice,
      )
      refl

reached_example :
    at
      (emit_to json two_letters server root
        (hall ∷ hall ∷ [])
        Event.message
        (Payload.binary [])).engine_server
      esid
    ≡ at
        (run_client json two_letters server esid alices
          (λ s. Client.emit json two_letters s Event.message (Payload.binary []))).engine_server
        esid
reached_example =
    emit_to_reached json two_letters server esid root alice rooms (hall ∷ hall ∷ []) alices
      Event.message (Payload.binary []) room_there addressed
      (decode-generate_engine two_letters two_letters-IsLawful 3 1) alice_there
      (λ x e n. absurd (n (sym (only_alice x e))))

asked_example :
    client json two_letters
      (emit_to_with_ack json two_letters 5 Event.message
        (Payload.binary [])
        10
        21
        server
        root
        (hall ∷ []))
      alice
      root
    ≡ (if is_addressed server.rooms root (hall ∷ []) alice && list_eq root root
        then map_option
            (waiting json two_letters 5 Event.message (Payload.binary []) 10 21)
            (client json two_letters server alice root)
        else client json two_letters server alice root)
asked_example =
    client-emit_to_with_ack json two_letters 5 Event.message (Payload.binary []) 10 21 server root
      alice root rooms (hall ∷ []) room_there

entry_there : get esid server.engine_server.sockets ≡ some entry
unfolding get
entry_there = rw (get, list_eq_refl esid) refl

broadcast_example :
    (ds : List Data) × (p : Packet json) × (e' : Entry) × (get esid
        (emit_to json two_letters server root
          (hall ∷ hall ∷ [])
          (Event.custom name)
          parts).engine_server.sockets
      ≡ some e')
    × (e'.socket.sent ≡ entry.socket.sent ++ ds)
    × (next_packet json (received_stream two_letters ds [])
        ≡ done (some p) (received_stream two_letters [] []))
    × (handle_socketio_packet json texts end_of_connection 9 p
        ≡ finished
            (record end_of_connection {
              called =
                  end_of_connection.called
                  ++ Called.handler 7 (some (collapse json (raws json parts))) none ∷ [];
            })
            (ok tt))
unfolding from_string into_string
broadcast_example =
    emit_to_delivered json two_letters (trees-IsLawful sent_tree) texts server esid root alice rooms
      (hall ∷ hall ∷ []) alices end_of_connection entry (Event.custom name) parts 7 9 [] room_there
      addressed (decode-generate_engine two_letters two_letters-IsLawful 3 1) alice_there
      (λ x e n. absurd (n (sym (only_alice x e)))) entry_there (refl, refl, refl) refl refl refl
      parts-IsFit (event-IsDeliverable none tt)
