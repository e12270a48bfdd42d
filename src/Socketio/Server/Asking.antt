-- ===== src/Socketio/Server/Asking.antt =====
-- socketio/src/server/server.rs, `emit_to_with_ack`, and socketio/src/server/client.rs: what a client
-- does by its server. A client of the table shares its acks with the one that asks.
pub mod Waiting
use socket_io.Base.{ℕ, List, [], ◌∷◌, Option, none, some, Str}
use socket_io.Engineio.External.{Base64}
use socket_io.Socketio.Event.{Event}
use socket_io.Socketio.External.{Json}
use socket_io.Socketio.Payload.{Payload}
use socket_io.Socketio.Rooms.{sids_to_emit, join, leave}
use socket_io.Socketio.Sids.{decode}
use socket_io.Socketio.Socket as Client
use socket_io.Socketio.Socket.{Socket, wait_for}
use socket_io.Socketio.Server.{Server, client, run_client, insert_client, emit_to}

module _ (j : Json) (b64 : Base64) (now : ℕ) (event : Event) (payload : Payload j)
    (timeout cb : ℕ) where
  -- `client.emit_with_ack`, on a client of the table: its own state, and the socket that it shares.
  abbrev pub asking : Socket j → Socket j
  asking c = record (Client.emit_with_ack j b64 c now event payload timeout cb).0 {
    engine = c.engine;
  }

  abbrev pub ask_socket : Server j → Str → Str → Str → Socket j → Server j
  ask_socket server esid sid nsp c =
      insert_client j
        (run_client j b64 server esid c
          (λ s. Client.emit_with_ack j b64 s now event payload timeout cb))
        esid sid nsp (asking c)

  unfoldable pub ask_client : Server j → Str → Str → Server j
  unfolding decode client run_client insert_client Client.emit_with_ack
  ask_client server nsp sid = elim (decode b64 sid) [
    | none ↦ server
    | some esid ↦ elim (client j b64 server sid nsp) [
      | none ↦ server
      | some c ↦ ask_socket server esid sid nsp c
    ]
  ]

  -- The loop of `emit_to_with_ack`; its tasks, one for each client, are run in their order.
  unfoldable pub ask_each : Server j → Str → List Str → Server j
  unfolding ask_client
  ask_each server nsp [] = server
  ask_each server nsp (sid ∷ sids) = ask_each (ask_client server nsp sid) nsp sids

  unfoldable pub emit_to_with_ack : Server j → Str → List Str → Server j
  unfolding sids_to_emit ask_each
  emit_to_with_ack server nsp names = ask_each server nsp (sids_to_emit server.rooms nsp names)

-- What a client has of its own; the server is shared.
pub record ServerClient (j : Json) : Type 0 where
  pub socket : Socket j
  pub sid : Str

module _ (j : Json) (b64 : Base64) where
  -- The client's methods that are the server's, for its namespace and its id.
  unfoldable pub client_join : ServerClient j → Server j → List Str → Server j
  unfolding join
  client_join c server rooms = record server { rooms = join server.rooms c.socket.nsp rooms c.sid }

  unfoldable pub client_leave : ServerClient j → Server j → List Str → Server j
  unfolding leave
  client_leave c server rooms = record server {
    rooms = leave server.rooms c.socket.nsp rooms c.sid;
  }

  unfoldable pub client_emit_to :
      ServerClient j → Server j → List Str → Event → Payload j → Server j
  unfolding emit_to
  client_emit_to c server rooms event payload =
      emit_to j b64 server c.socket.nsp rooms event payload

  unfoldable pub client_emit_to_with_ack :
      ServerClient j → Server j → List Str → Event → Payload j → ℕ → ℕ → ℕ → Server j
  unfolding emit_to_with_ack
  client_emit_to_with_ack c server rooms event payload now timeout cb =
      emit_to_with_ack j b64 now event payload timeout cb server c.socket.nsp rooms
