-- ===== src/Engineio/Server/Http/Polling.antt =====
-- engineio/src/server/http.rs: polling, from the request that opens a connection to what a client
-- gets of the packets that the server emits.
use socket_io.Base.{
  ◌≡◌, refl, sym, ap, subst, ◌∙◌, List, [], ◌∷◌, ◌++◌, map, append-nil, append_assoc, arith, true,
  Option, some, Bytes, Str, ok, All,
}
use socket_io.Base.Maps.{get, put, get_put_same}
use socket_io.Engineio.External.{Base64, IsLawful}
use socket_io.Engineio.Packet.{Packet}
use socket_io.Engineio.Payload as Payload
use socket_io.Engineio.Payload.{build_polling_payload}
use socket_io.Engineio.Payload.Polling.{IsText, queued, polled_text}
use socket_io.Engineio.Socket as Socket
use socket_io.Engineio.Socket.{Socket, reporting, report, transport_emit, send_event, new_socket}
use socket_io.Engineio.Transport.{packet_data, polling_body}
use socket_io.Engineio.Server.{
  Server, Entry, PollingHandle, Outcome, run_entry, before, after, transport_faults, queue, emit,
}
use socket_io.Engineio.Server.Pings.Silence.{run_socket_entry}
use socket_io.Engineio.Server.Http.{polling_get}

-- A connected polling socket, with what waits to be taken by a request.
abbrev pub IsOpen : Server → Str → List Bytes → Type 0
IsOpen server sid waiting =
    ((e : Entry) × (get sid server.sockets ≡ some e)
      × (e.is_polling ≡ true)
      × (e.socket.connected ≡ true))
    × ((h : PollingHandle) × (get sid server.polling_handles ≡ some h) × (h.outgoing ≡ waiting))

module _ (b64 : Base64) where
  unfoldable pub emit_all : Server → Str → List Packet → Server
  emit_all server sid [] = server
  emit_all server sid (p ∷ ps) = emit_all (emit b64 server sid p).0 sid ps

  -- A packet of an open socket.
  emitted :
      (s : Socket) (p : Packet)
      → s.connected ≡ true
      → s.faults ≡ []
      → s.sent ≡ []
      → ((Socket.emit b64 s p).0.connected ≡ true)
        × ((Socket.emit b64 s p).0.sent ≡ packet_data b64 p ∷ [])
  unfolding Socket.emit reporting report transport_emit send_event
  emitted s p c f e = ground arith

  before_open :
      (server : Server) (sid : Str) (e : Entry) (h : PollingHandle)
      → e.is_polling ≡ true
      → get sid server.polling_handles ≡ some h
      → ((before server sid e).faults ≡ [])
        × ((before server sid e).sent ≡ [])
        × ((before server sid e).connected ≡ e.socket.connected)
  unfolding before transport_faults
  before_open server sid e h w there = ground arith

  queue_open :
      (server : Server) (sid : Str) (e : Entry) (h : PollingHandle) (s : Socket)
      → e.is_polling ≡ true
      → get sid server.polling_handles ≡ some h
      → queue b64 server sid e s
        ≡ put sid
            (record h { outgoing = h.outgoing ++ map (polling_body b64) s.sent })
            server.polling_handles
  unfolding queue
  queue_open server sid e h s w there = ground arith

  entry_handles :
      (server : Server) (sid : Str) (e : Entry) (f : Socket → Socket.Outcome)
      → (run_entry b64 server sid e f).0.polling_handles
        ≡ queue b64 server sid e (f (before server sid e)).0
  unfolding run_entry
  entry_handles server sid e f = refl

  entry_sockets :
      (server : Server) (sid : Str) (e : Entry) (f : Socket → Socket.Outcome)
      → get sid (run_entry b64 server sid e f).0.sockets
        ≡ some (after e (f (before server sid e)).0)
  unfolding run_entry
  entry_sockets server sid e f = get_put_same sid _ server.sockets

  after_open :
      (e : Entry) (s : Socket)
      → ((after e s).is_polling ≡ e.is_polling) × ((after e s).socket.connected ≡ s.connected)
  unfolding after
  after_open e s = (refl, refl)

  emit-IsOpen :
      (server : Server) (sid : Str) (waiting : List Bytes) (p : Packet)
      → IsOpen server sid waiting
      → IsOpen (emit b64 server sid p).0 sid (waiting ++ queued b64 p ∷ [])
  unfolding emit
  emit-IsOpen server sid waiting p ((e, there, w, c), (h, handle, q)) =
      let (faultless, silent, same) = before_open server sid e h w handle in
      let f : Socket → Socket.Outcome = λ s. Socket.emit b64 s p in
      let s' = (f (before server sid e)).0 in
      let (still, sent) = emitted (before server sid e) p (same ∙ c) faultless silent in
      let ran = run_socket_entry b64 server sid e f there in
      let h' : PollingHandle = record h {
        outgoing = h.outgoing ++ map (polling_body b64) s'.sent;
      } in
      (
        (
          after e s',
          ap (λ (o : Outcome). get sid o.0.sockets) ran ∙ entry_sockets server sid e f,
          (after_open e s').0 ∙ w,
          (after_open e s').1 ∙ still,
        ),
        (
          h',
          ap (λ (o : Outcome). get sid o.0.polling_handles) ran
              ∙ ap (get sid) (entry_handles server sid e f ∙ queue_open server sid e h s' w handle)
              ∙ get_put_same sid h' server.polling_handles,
          ap (λ x. h.outgoing ++ map (polling_body b64) x) sent
              ∙ ap (λ x. x ++ queued b64 p ∷ []) q,
        ),
      )

  emit_all-IsOpen :
      (server : Server) (sid : Str) (waiting : List Bytes) (ps : List Packet)
      → IsOpen server sid waiting
      → IsOpen (emit_all server sid ps) sid (waiting ++ map (queued b64) ps)
  unfolding emit_all
  emit_all-IsOpen server sid waiting [] o = subst (IsOpen server sid) (sym (append-nil waiting)) o
  emit_all-IsOpen server sid waiting (p ∷ ps) o =
      subst (IsOpen (emit_all (emit b64 server sid p).0 sid ps) sid)
        (append_assoc waiting (queued b64 p ∷ []) (map (queued b64) ps))
        (emit_all-IsOpen (emit b64 server sid p).0 sid (waiting ++ queued b64 p ∷ []) ps
          (emit-IsOpen server sid waiting p o))

  get_open :
      (server : Server) (sid : Str) (h : PollingHandle)
      → get sid server.polling_handles ≡ some h
      → polling_get b64 server sid ≡ (
        build_polling_payload b64 h.outgoing,
        record server {
          polling_handles = put sid (record h { outgoing = [] }) server.polling_handles;
        },
      )
  unfolding polling_get
  get_open server sid h there = ground arith

  get_waiting :
      (server : Server) (sid : Str) (waiting : List Bytes)
      → IsOpen server sid waiting
      → ((polling_get b64 server sid).0 ≡ build_polling_payload b64 waiting)
        × IsOpen (polling_get b64 server sid).1 sid []
  get_waiting server sid waiting ((e, there, w, c), (h, handle, q)) =
      let step = get_open server sid h handle in
      let taken : PollingHandle = record h { outgoing = [] } in
      (
        ap (λ (o : Option Bytes × Server). o.0) step ∙ ap (build_polling_payload b64) q,
        (
          (e, ap (λ (o : Option Bytes × Server). get sid o.1.sockets) step ∙ there, w, c),
          (
            taken,
            ap (λ (o : Option Bytes × Server). get sid o.1.polling_handles) step
                ∙ get_put_same sid taken server.polling_handles,
            refl,
          ),
        ),
      )

  -- What the server emits over an open polling socket, text packets with nothing waiting before
  -- them, is what a client reads in the answer to its next request for the socket, in order; then
  -- nothing waits, and the socket is open as before.
  pub polling_get-emit_all :
      (server : Server) (sid : Str) (p : Packet) (ps : List Packet)
      → IsLawful b64
      → All IsText (p ∷ ps)
      → IsOpen server sid []
      → let answer = polling_get b64 (emit_all server sid (p ∷ ps)) sid in
        ((bs : Bytes) × (answer.0 ≡ some bs) × (Payload.decode b64 bs ≡ ok (p ∷ ps)))
        × IsOpen answer.1 sid []
  polling_get-emit_all server sid p ps lawful texts o =
      let (bs, built, read) = polled_text b64 lawful p ps texts in
      let (body, open_) =
        get_waiting (emit_all server sid (p ∷ ps)) sid (map (queued b64) (p ∷ ps))
          (emit_all-IsOpen server sid [] (p ∷ ps) o) in
      ((bs, body ∙ built, read), open_)
