-- ===== src/Socketio/Server/Emission/View.antt =====
-- engineio/src/server/server.rs: what a server has for one of its sockets, behind an operation of it.
use socket_io.Base.{
  ◌≡◌, refl, List, [], ◌∷◌, ◌++◌, map, Bool, true, false, Option, none, some, Str, ok,
  if◌then◌else◌,
}
use socket_io.Base.Maps.{Map, get, put, get_put_same}
use socket_io.Engineio.Error.{Error, send_error}
use socket_io.Engineio.External.{Base64}
use socket_io.Engineio.Server as Engine
use socket_io.Engineio.Server.{
  Entry, PollingHandle, run_socket, run_entry, queue, before, after, transport_faults,
}
use socket_io.Engineio.Transport.{polling_body}
use socket_io.Engineio.Socket as EngineSocket
use socket_io.Socketio.Server.Emission.{at}

abbrev pub faults_by : Entry → Option PollingHandle → List (Option Error)
faults_by e h =
    if e.is_polling then (elim h [ none ↦ some send_error ∷ [] | some x ↦ [] ]) else e.socket.faults

abbrev pub queued_by :
    Bool → Option PollingHandle → (PollingHandle → PollingHandle) → Option PollingHandle
queued_by true none f = none
queued_by true (some h) f = some (f h)
queued_by false h f = h

module _ (b64 : Base64) (f : EngineSocket.Socket → EngineSocket.Outcome) where
  abbrev pub done_by : Entry → Option PollingHandle → EngineSocket.Socket
  done_by e h = (f (record e.socket { events = []; sent = []; faults = faults_by e h })).0

  -- What an operation of a socket makes of what the server has for it.
  abbrev pub view : Option Entry × Option PollingHandle → Option Entry × Option PollingHandle
  view (none, h) = (none, h)
  view (some e, h) = (
    some (after e (done_by e h)),
    queued_by e.is_polling h
        (λ x. record x { outgoing = x.outgoing ++ map (polling_body b64) (done_by e h).sent }),
  )

  get_queued :
      (esid : Str) (is_polling : Bool) (g : PollingHandle → PollingHandle)
      (handles : Map PollingHandle) (o : Option PollingHandle)
      → get esid handles ≡ o
      → get esid (
          if is_polling
          then (elim o [ none ↦ handles | some h ↦ put esid (g h) handles ])
          else handles)
        ≡ queued_by is_polling o g
  get_queued esid true g handles none e = e
  get_queued esid true g handles (some h) e = get_put_same esid (g h) handles
  get_queued esid false g handles o e = e

  view_by :
      (server : Engine.Server) (esid : Str) (o : Option Entry)
      → get esid server.sockets ≡ o
      → at
          (elim o as (λ _. Engine.Outcome) [
            | none ↦ (server, ok tt)
            | some e ↦ run_entry b64 server esid e f
          ]).0
          esid
        ≡ view (o, get esid server.polling_handles)
  unfolding run_entry before transport_faults queue
  view_by server esid none e = λ i. (e i, get esid server.polling_handles)
  view_by server esid (some x) e = λ i. (
    get_put_same esid (after x (f (before server esid x)).0) server.sockets i,
    get_queued esid x.is_polling
        (λ h. record h {
          outgoing = h.outgoing ++ map (polling_body b64) (f (before server esid x)).0.sent;
        })
        server.polling_handles (get esid server.polling_handles) refl i,
  )

  pub run-view :
      (server : Engine.Server) (esid : Str)
      → at (run_socket b64 server esid f).0 esid ≡ view (at server esid)
  unfolding run_socket
  run-view server esid = view_by server esid (get esid server.sockets) refl
