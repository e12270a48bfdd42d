-- ===== src/Socketio/Server/Emission.antt =====
-- socketio/src/server/server.rs, `emit_to`: which engine.io sockets are touched.
pub mod View
pub mod Reached
pub mod Broadcast
use socket_io.Base.{
  ◌≡◌, refl, sym, ap, ◌∙◌, List, [], ◌∷◌, ◌++◌, map, arith, Bool, true, false, Option, none, some,
  Str, ok, if◌then◌else◌, list_eq, list_eq_refl, list_eq_ne, All, ◌≢◌,
}
use socket_io.Base.Maps.{Map, get, put, get_put_other}
use socket_io.Engineio.External.{Base64}
use socket_io.Engineio.Server as Engine
use socket_io.Engineio.Server.{Entry, PollingHandle, run_socket, run_entry, queue, before, after}
use socket_io.Engineio.Transport.{polling_body}
use socket_io.Engineio.Socket as EngineSocket
use socket_io.Socketio.Event.{Event}
use socket_io.Socketio.External.{Json}
use socket_io.Socketio.Payload.{Payload}
use socket_io.Socketio.Rooms.{Set, contains, sids_to_emit}
use socket_io.Socketio.Rooms.Recipients.{is_addressed, contains-sids_to_emit}
use socket_io.Socketio.Sids.{decode}
use socket_io.Socketio.Socket as Client
use socket_io.Socketio.Socket.{Socket}
use socket_io.Socketio.Server.{Server, client, run_client, emit_client, emit_each, emit_to}

-- What a server has for an engine.io socket.
abbrev pub at : Engine.Server → Str → Option Entry × Option PollingHandle
at server esid = (get esid server.sockets, get esid server.polling_handles)

pub contained : (s : Set) (P : Str → Type 0) → ((x : Str) → contains x s ≡ true → P x) → All P s
unfolding contains
contained [] P h = tt
contained (x ∷ s) P h =
    (h x (ground (arith, list_eq_refl x)), contained s P (λ y e. h y (ground (arith, e))))

module _ (b64 : Base64) where
  queue_by :
      (esid other : Str) (is_polling : Bool) (o : Option PollingHandle)
      (f : PollingHandle → PollingHandle) (handles : Map PollingHandle)
      → list_eq esid other ≡ false
      → get other (
          if is_polling
          then (elim o [ none ↦ handles | some h ↦ put esid (f h) handles ])
          else handles)
        ≡ get other handles
  queue_by esid other true none f handles n = refl
  queue_by esid other true (some h) f handles n = get_put_other esid other (f h) handles n
  queue_by esid other false o f handles n = refl

  get_queue_other :
      (server : Engine.Server) (esid other : Str) (e : Entry) (s : EngineSocket.Socket)
      → list_eq esid other ≡ false
      → get other (queue b64 server esid e s) ≡ get other server.polling_handles
  unfolding queue
  get_queue_other server esid other e s n =
      queue_by esid other e.is_polling (get esid server.polling_handles)
        (λ h. record h { outgoing = h.outgoing ++ map (polling_body b64) s.sent })
        server.polling_handles n

  run_by :
      (server : Engine.Server) (esid other : Str) (f : EngineSocket.Socket → EngineSocket.Outcome)
      (o : Option Entry)
      → list_eq esid other ≡ false
      → at
          (elim o as (λ _. Engine.Outcome) [
            | none ↦ (server, ok tt)
            | some e ↦ run_entry b64 server esid e f
          ]).0
          other
        ≡ at server other
  unfolding run_entry
  run_by server esid other f none n = refl
  run_by server esid other f (some e) n = λ i. (
    get_put_other esid other (after e (f (before server esid e)).0) server.sockets n i,
    get_queue_other server esid other e (f (before server esid e)).0 n i,
  )

  -- An operation of one socket leaves the others alone.
  run_other :
      (server : Engine.Server) (esid other : Str) (f : EngineSocket.Socket → EngineSocket.Outcome)
      → list_eq esid other ≡ false
      → at (run_socket b64 server esid f).0 other ≡ at server other
  unfolding run_socket
  run_other server esid other f n = run_by server esid other f (get esid server.sockets) n

module _ (j : Json) (b64 : Base64) where
  emit_client_by :
      (server : Server j) (esid sid nsp : Str) (event : Event) (payload : Payload j)
      (d : Option Str) (o : Option (Socket j))
      → d ≢ some esid
      → at
          (elim d as (λ _. Server j) [
            | none ↦ server
            | some x ↦ elim o as (λ _. Server j) [
              | none ↦ server
              | some c ↦ run_client j b64 server x c (λ s. Client.emit j b64 s event payload)
            ]
          ]).engine_server
          esid
        ≡ at server.engine_server esid
  unfolding run_client
  emit_client_by server esid sid nsp event payload none o n = refl
  emit_client_by server esid sid nsp event payload (some x) none n = refl
  emit_client_by server esid sid nsp event payload (some x) (some c) n =
      run_other b64 server.engine_server x esid
        (λ e. ((Client.emit j b64 (record c { engine = e }) event payload).0.engine, ok tt))
        (list_eq_ne x esid (λ e. n (ap some e)))

  pub emit_each_other :
      (server : Server j) (esid nsp : Str) (sids : List Str) (event : Event) (payload : Payload j)
      → All (λ (sid : Str). decode b64 sid ≢ some esid) sids
      → at (emit_each j b64 server nsp sids event payload).engine_server esid
        ≡ at server.engine_server esid
  unfolding emit_each
  emit_each_other server esid nsp [] event payload h = refl
  emit_each_other server esid nsp (sid ∷ sids) event payload (n, h) =
      emit_each_other (emit_client j b64 server nsp sid event payload) esid nsp sids event payload h
      ∙ emit_client_by server esid sid nsp event payload (decode b64 sid)
          (client j b64 server sid nsp) n

  -- What is emitted to some names of a namespace that has had a room does nothing to an engine.io
  -- socket, and puts nothing in its polling handle, if no id of a client that is made for this
  -- socket is one of the names or in one of the rooms that they name.
  pub emit_to_other :
      (server : Server j) (esid nsp : Str) (rooms : Map Set) (names : List Str) (event : Event)
      (payload : Payload j)
      → get nsp server.rooms ≡ some rooms
      → ((sid : Str) → is_addressed server.rooms nsp names sid ≡ true → decode b64 sid ≢ some esid)
      → at (emit_to j b64 server nsp names event payload).engine_server esid
        ≡ at server.engine_server esid
  unfolding emit_to
  emit_to_other server esid nsp rooms names event payload there h =
      emit_each_other server esid nsp (sids_to_emit server.rooms nsp names) event payload (
        contained _ _
          (λ sid e. h sid (sym (contains-sids_to_emit server.rooms nsp rooms names sid there) ∙ e)))
