-- ===== src/Socketio/Server.antt =====
-- socketio/src/server/server.rs: the clients of the server, by the id of the engine.io socket, their
-- own id and the namespace. An engine.io socket is shared by its client and the engine.io server:
-- it is kept in the table of the latter, and what a client does to it is done there; the copy in a
-- client is the socket as it was when the client was made. Tasks run by themselves, in any
-- order; the one that polls a new client is not here: the handlers that it calls are in
-- Socketio/Handler.
pub mod Clients
pub mod Opening
pub mod Emission
pub mod Asking
use socket_io.Base.{
  ℕ, ◌+◌, List, [], ◌∷◌, ◌++◌, Bool, true, false, Option, none, some, Str, ok, err, if◌then◌else◌,
  length,
}
use socket_io.Base.Maps.{Map, get, put, erase}
use socket_io.Engineio.External.{Base64}
use socket_io.Engineio.Server as Engine
use socket_io.Engineio.Socket as EngineSocket
use socket_io.Socketio.Error.{Result}
use socket_io.Socketio.Event.{Event}
use socket_io.Socketio.External.{Json}
use socket_io.Socketio.Handler.{handle_connect}
use socket_io.Socketio.Packet.{Packet, PacketType}
use socket_io.Socketio.Payload.{Payload}
use socket_io.Socketio.Rooms.{Rooms, sids_to_emit, drop_sids}
use socket_io.Socketio.Sids.{generate, decode}
use socket_io.Socketio.Socket as Client
use socket_io.Socketio.Socket.{Socket, new_socket}

pub record Server (j : Json) : Type 0 where
  pub on : Str → Option (Event → Option ℕ)
  pub rooms : Rooms
  pub clients : Map (Map (Map (Socket j)))
  pub engine_server : Engine.Server
  pub seq : ℕ

abbrev pub option_bind : {A B : Type 0} → Option A → (A → Option B) → Option B
option_bind none f = none
option_bind (some a) f = f a

-- `or_default` of an entry.
abbrev pub or_default : {A : Type 0} → Option (Map A) → Map A
or_default none = []
or_default (some m) = m

-- The clients of all engine.io sockets, one for each id.
unfoldable pub count_sids : {A : Type 0} → Map (Map A) → ℕ
count_sids [] = 0
count_sids ((esid, sids) ∷ m) = length sids + count_sids m

abbrev pub first_client : {A : Type 0} → Map (Map A) → Option (Str × Str)
first_client ((sid, (nsp, c) ∷ nsps) ∷ sids) = some (sid, nsp)
first_client _ = none

abbrev pub is_connect : PacketType → Bool
is_connect PacketType.connect = true
is_connect _ = false

module _ (j : Json) where
  unfoldable pub client_count : Server j → ℕ
  unfolding count_sids
  client_count server = count_sids server.clients

  -- The first id of an engine.io socket, and its first namespace.
  unfoldable pub client_info : Server j → Str → Option (Str × Str)
  unfolding get
  client_info server esid = option_bind (get esid server.clients) first_client

  -- The entries for the client are made where they are not there.
  unfoldable pub insert_client : Server j → Str → Str → Str → Socket j → Server j
  unfolding get put
  insert_client server esid sid nsp client =
      let sids = or_default (get esid server.clients) in
      record server {
        clients =
            put esid (put sid (put nsp client (or_default (get sid sids))) sids) server.clients;
      }

  module _ (b64 : Base64) where
    unfoldable pub client : Server j → Str → Str → Option (Socket j)
    unfolding decode get
    client server sid nsp = option_bind (decode b64 sid) (λ esid.
        option_bind (get esid server.clients)
          (λ sids. option_bind (get sid sids) (λ nsps. get nsp nsps)))

    -- What a client does to the engine.io socket that it shares.
    unfoldable pub run_client : Server j → Str → Socket j → (Socket j → Client.Outcome j) → Server j
    unfolding Engine.run_socket
    run_client server esid client f = record server {
      engine_server =
          (Engine.run_socket b64 server.engine_server esid
            (λ e. ((f (record client { engine = e })).0.engine, ok tt))).0;
    }

    -- The data of a handshake: `json!({ "sid": sid })`.
    abbrev pub sid_data : Str → j.Value
    sid_data sid = j.object ((b's' ∷ b'i' ∷ b'd' ∷ [], j.string sid) ∷ [])

    abbrev pub new_client : EngineSocket.Socket → Str → (Event → Option ℕ) → Socket j
    new_client engine nsp on = (handle_connect j (new_socket j true engine nsp on) none).0

    unfoldable pub insert_clients :
        Server j → EngineSocket.Socket → Str → Str → Str → Bool → Server j
    unfolding handle_connect new_socket run_client Client.handshake insert_client
    insert_clients server engine nsp esid sid is_handshake = elim (server.on nsp) [
      | none ↦ server
      | some on ↦
          let c = new_client engine nsp on in
          let told =
            if is_handshake
            then run_client server esid c (λ s. Client.handshake j b64 s (sid_data sid))
            else server in
          insert_client told esid sid nsp c
    ]

    -- What `do_handle_connect` comes to: it is done, or it still waits for a packet.
    pub data Connecting : Type 0 where
      done waiting : Server j → Connecting

    -- The loop of `do_handle_connect` over what arrives; the flag says whether the stream ends then.
    unfoldable pub connect_loop :
        Server j → EngineSocket.Socket → Str → Str → List (Result (Packet j)) → Bool → Connecting
    unfolding insert_clients
    connect_loop server engine esid sid [] ended = if ended then done server else waiting server
    connect_loop server engine esid sid (err e ∷ packets) ended = done server
    connect_loop server engine esid sid (ok p ∷ packets) ended =
        let rest = connect_loop server engine esid sid packets ended in
        if is_connect p.ptype then done (insert_clients server engine p.nsp esid sid true) else rest

    unfoldable pub do_handle_connect :
        Server j → EngineSocket.Socket → Str → List (Result (Packet j)) → Bool → Connecting
    unfolding generate connect_loop
    do_handle_connect server engine esid packets ended =
        let (sid, seq) = generate b64 server.seq esid in
        connect_loop (record server { seq = seq }) engine esid sid packets ended

    unfoldable pub drop_client : Server j → Str → Server j
    unfolding Engine.close_socket erase drop_sids
    drop_client server esid = record server {
      engine_server = Engine.close_socket b64 server.engine_server esid;
      clients = erase esid server.clients;
      rooms = drop_sids b64 esid server.rooms;
    }

    -- `handle_connect`, over what arrives within the timeout.
    unfoldable pub handle_connecting :
        Server j → EngineSocket.Socket → Str → List (Result (Packet j)) → Bool → Server j
    unfolding do_handle_connect drop_client
    handle_connecting server engine esid packets ended =
        elim (do_handle_connect server engine esid packets ended) [
          | done server' ↦ server'
          | waiting server' ↦ drop_client server' esid
        ]

    unfoldable pub create_client : Server j → Str → List (Result (Packet j)) → Bool → Server j
    unfolding Engine.socket client_info insert_clients handle_connecting
    create_client server esid packets ended = elim (Engine.socket server.engine_server esid) [
      | none ↦ server
      | some engine ↦ elim (client_info server esid) [
        | some (sid, nsp) ↦ insert_clients server engine nsp esid sid false
        | none ↦ handle_connecting server engine esid packets ended
      ]
    ]

    -- One event of the loop of `recv_event`, with what arrives for a client that is made.
    unfoldable pub recv_event :
        Server j → EngineSocket.Event → List (Result (Packet j)) → Bool → Server j
    unfolding create_client drop_client
    recv_event server (EngineSocket.Event.on_open esid) packets ended =
        create_client server esid packets ended
    recv_event server (EngineSocket.Event.on_close esid) packets ended = drop_client server esid
    recv_event server _ packets ended = server

    abbrev pub emit_client : Server j → Str → Str → Event → Payload j → Server j
    emit_client server nsp sid event payload = elim (decode b64 sid) [
      | none ↦ server
      | some esid ↦ elim (client server sid nsp) [
        | none ↦ server
        | some c ↦ run_client server esid c (λ s. Client.emit j b64 s event payload)
      ]
    ]

    -- The loop of `emit_to`; its tasks, one for each client, are run in their order.
    unfoldable pub emit_each : Server j → Str → List Str → Event → Payload j → Server j
    unfolding client run_client Client.emit decode
    emit_each server nsp [] event payload = server
    emit_each server nsp (sid ∷ sids) event payload =
        emit_each (emit_client server nsp sid event payload) nsp sids event payload

    unfoldable pub emit_to : Server j → Str → List Str → Event → Payload j → Server j
    unfolding sids_to_emit emit_each
    emit_to server nsp names event payload =
        emit_each server nsp (sids_to_emit server.rooms nsp names) event payload
