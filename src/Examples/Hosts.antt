-- ===== src/Examples/Hosts.antt =====
-- The theorems about the clients of the socket.io server, at a server with one engine.io socket.
use socket_io.Base.{
  ◌≡◌, ◌≢◌, refl, sym, ap, ◌∙◌, [], ◌∷◌, ◌++◌, map, ◌&&◌, arith, true, false, none, some, Str, ok,
  if◌then◌else◌, list_eq, list_eq_refl, list_eq_sound,
}
use socket_io.Base.Maps.{Map, get}
use socket_io.Base.Utf8.{utf8}
use socket_io.Base.Decimal.{to_string}
use socket_io.Engineio.Server as Engine
use socket_io.Socketio.Event.{Event}
use socket_io.Socketio.External.{Json}
use socket_io.Socketio.Packet.{Packet, PacketType}
use socket_io.Socketio.Payload.{Payload}
use socket_io.Socketio.Rooms.{Set, is_other, contains}
use socket_io.Socketio.Rooms.Membership.{is_in}
use socket_io.Socketio.Rooms.Recipients.{is_addressed}
use socket_io.Socketio.Sids.{engine_sid, generate, decode}
use socket_io.Socketio.Sids.RoundTrip.{decode-generate_engine}
use socket_io.Socketio.Socket.{control_packet}
use socket_io.Socketio.Server.{
  Server, client, create_client, drop_client, new_client, emit_to, client_info,
}
use socket_io.Socketio.Server.Clients.{client-drop_client}
use socket_io.Socketio.Server.Opening.{client-create_client}
use socket_io.Socketio.Server.Emission.{at, emit_to_other}
use socket_io.Examples.Base64.{two_letters, two_letters-IsLawful, bytes}
use socket_io.Examples.Json.{Tree, trees}
use socket_io.Examples.Connections as Connections

abbrev json : Json
json = trees Tree.null

abbrev esid : Str
esid = (engine_sid two_letters 1).0

abbrev engine_server : Engine.Server
engine_server = record {
  server_option = record { ping_timeout = 20; ping_interval = 10; max_payload = 100 };
  seq = 2;
  polling_handles = [];
  sockets = (esid, record { socket = Connections.client; is_polling = false }) ∷ [];
  events = [];
}

abbrev hall : Str
hall = b'h' ∷ []

abbrev root : Str
root = b'/' ∷ []

-- The id of a client over another engine.io socket.
abbrev bob : Str
bob = (generate two_letters 0 (engine_sid two_letters 5).0).0

abbrev rooms : Map Set
rooms = (hall, bob ∷ []) ∷ []

abbrev server : Server json
server = record {
  on = λ nsp. some (λ e. some 3);
  rooms = (root, rooms) ∷ [];
  clients = [];
  engine_server = engine_server;
  seq = 4;
}

abbrev greeting : Packet json
greeting = control_packet json PacketType.connect root none

abbrev early : Packet json
early = control_packet json PacketType.event root none

there : Engine.socket server.engine_server esid ≡ some Connections.client
unfolding Engine.socket get
there = ground (arith, list_eq_refl esid)

fresh : client_info json server esid ≡ none
unfolding client_info get
fresh = refl

create_example :
    let sid = (generate two_letters 4 esid).0 in
    client json two_letters
      (create_client json two_letters server esid (map ok (early ∷ []) ++ ok greeting ∷ []) false)
      sid
      root
    ≡ (if list_eq sid sid && list_eq root root
        then some (new_client json two_letters Connections.client root (λ e. some 3))
        else client json two_letters server sid root)
create_example =
    client-create_client json two_letters server 1 Connections.client (early ∷ []) greeting [] false
      (λ e. some 3) (generate two_letters 4 esid).0 root two_letters-IsLawful there fresh (refl, tt)
      refl refl

drop_client_example :
    client json two_letters (drop_client json two_letters server esid) bob root
    ≡ (if is_other two_letters esid bob then client json two_letters server bob root else none)
drop_client_example = client-drop_client json two_letters server esid bob root

room_there : get root server.rooms ≡ some rooms
unfolding get
room_there = refl

abbrev unknown : Str
unknown = b'x' ∷ []

undecoded : decode two_letters bob ≢ some unknown
unfolding bytes engine_sid utf8 to_string
undecoded d =
    let five = utf8 (to_string 5) in
    let drawn = decode-generate_engine two_letters two_letters-IsLawful 0 5 in
    let back : bytes (two_letters.encode five) ≡ some five =
      two_letters-IsLawful.decode-encode five (omega arith) in
    let same : some (engine_sid two_letters 5).0 ≡ some unknown = sym drawn ∙ d in
    let unknown_bytes : bytes unknown ≡ none = refl in cc (back, same, unknown_bytes)

only_bob : (sid : Str) → is_addressed server.rooms root (hall ∷ []) sid ≡ true → bob ≡ sid
unfolding is_addressed is_in contains get
only_bob sid e = let f : list_eq bob sid ≡ true = ground (arith, e) in list_eq_sound bob sid f

emit_to_example :
    at
      (emit_to json two_letters server root
        (hall ∷ [])
        Event.message
        (Payload.binary [])).engine_server
      unknown
    ≡ at server.engine_server unknown
emit_to_example =
    emit_to_other json two_letters server unknown root rooms (hall ∷ []) Event.message
      (Payload.binary []) room_there
      (λ sid e d. undecoded (ap (decode two_letters) (only_bob sid e) ∙ d))
