-- ===== src/Socketio/Server/Emission/Broadcast.antt =====
-- socketio/src/server/server.rs, `emit_to`, and socketio/src/socket.rs: what a server emits to a room,
-- up to the callback of a client at the other end of a websocket.
use socket_io.Base.{
  ℕ, ◌≡◌, ◌≢◌, refl, ap, ◌∙◌, List, [], ◌∷◌, ◌++◌, true, false, Option, none, some, Str, ok,
  if_false,
}
use socket_io.Base.Maps.{Map, get}
use socket_io.Engineio.Error as Engine
use socket_io.Engineio.External.{Base64}
use socket_io.Engineio.Server.{Entry, PollingHandle, after}
use socket_io.Engineio.Socket as EngineSocket
use socket_io.Engineio.Socket.Wire.{received_stream}
use socket_io.Engineio.Transport.{Data, Message}
use socket_io.Socketio.Attachments.{done, next_packet}
use socket_io.Socketio.Delivery.{IsDeliverable}
use socket_io.Socketio.Delivery.Emit.{IsFit, emit_delivered}
use socket_io.Socketio.Event.{Event, from_string, into_string}
use socket_io.Socketio.External.{Json, IsLawful}
use socket_io.Socketio.Handler.{Texts, finished, handle_socketio_packet}
use socket_io.Socketio.Incoming.{collapse}
use socket_io.Socketio.Incoming.RoundTrip.{raws}
use socket_io.Socketio.Packet.{Packet}
use socket_io.Socketio.Payload.{Payload}
use socket_io.Socketio.Rooms.{Set}
use socket_io.Socketio.Rooms.Recipients.{is_addressed}
use socket_io.Socketio.Sids.{decode}
use socket_io.Socketio.Socket.{Socket, Called}
use socket_io.Socketio.Server.{Server, client, emit_to}
use socket_io.Socketio.Server.Emission.View.{view, done_by}
use socket_io.Socketio.Server.Emission.Reached.{emitting, at-run_client, emit_to_reached}

module _ (j : Json) (b64 : Base64) (lawful : IsLawful j) (texts : Texts j) where
  -- The socket of an entry, as an operation of the server finds it.
  abbrev idle : Entry → EngineSocket.Socket
  idle e = record e.socket { events = []; sent = []; faults = [] }

  -- What the websocket of an entry has sent behind an operation that sends some data.
  sent_after :
      (e : Entry) (h : Option PollingHandle) (f : EngineSocket.Socket → EngineSocket.Outcome)
      (ds : List Data)
      → e.is_polling ≡ false
      → e.socket.faults ≡ []
      → (f (idle e)).0.sent ≡ ds
      → (after e (done_by b64 f e h)).socket.sent ≡ e.socket.sent ++ ds
  unfolding after
  sent_after e h f ds websocket faultless sends =
      if_false e.is_polling [] (e.socket.sent ++ (done_by b64 f e h).sent) websocket
      ∙ ap
          (λ fs.
            e.socket.sent ++ (f (record e.socket { events = []; sent = []; faults = fs })).0.sent)
          (if_false e.is_polling _ e.socket.faults websocket ∙ faultless)
      ∙ ap (λ l. e.socket.sent ++ l) sends

  -- What a server emits to some names of a namespace that has had a room arrives at a client that is
  -- addressed, over a websocket that does not fail: the websocket sends some data, however many of
  -- the names address the client; of that the stream at the other end makes one packet, and a socket
  -- there that handles it calls its callback for the event once, with the payload. The conditions
  -- are those of `emit_to_reached` on the client and the names, and of `emit_delivered` on the
  -- payload.
  pub emit_to_delivered :
      (server : Server j) (esid nsp sid : Str) (rooms : Map Set) (names : List Str) (c b : Socket j)
      (e : Entry) (event : Event) (payload : Payload j) (cb now : ℕ)
      (ms : List (Engine.Result Message))
      → get nsp server.rooms ≡ some rooms
      → is_addressed server.rooms nsp names sid ≡ true
      → decode b64 sid ≡ some esid
      → client j b64 server sid nsp ≡ some c
      → ((x : Str)
          → is_addressed server.rooms nsp names x ≡ true
          → x ≢ sid
          → decode b64 x ≢ some esid)
      → get esid server.engine_server.sockets ≡ some e
      → (e.is_polling ≡ false) × (e.socket.connected ≡ true) × (e.socket.faults ≡ [])
      → c.is_connected ≡ true
      → b.nsp ≡ c.nsp
      → b.on (from_string (into_string event)) ≡ some cb
      → IsFit j payload
      → IsDeliverable j payload (some event) c.nsp none false
      → (ds : List Data) × (p : Packet j) × (e' : Entry) × (get esid
            (emit_to j b64 server nsp names event payload).engine_server.sockets
          ≡ some e')
        × (e'.socket.sent ≡ e.socket.sent ++ ds)
        × (next_packet j (received_stream b64 ds ms) ≡ done (some p) (received_stream b64 [] ms))
        × (handle_socketio_packet j texts b now p
            ≡ finished
                (record b {
                  called =
                      b.called ++ Called.handler cb (some (collapse j (raws j payload))) none ∷ [];
                })
                (ok tt))
  emit_to_delivered server esid nsp sid rooms names c b e event payload cb now ms there asked d held
        alone found (websocket, open_, faultless) ready same on fit deliverable =
      let handle = get esid server.engine_server.polling_handles in
      let (ds, p, sends, arrives, told) =
        emit_delivered j b64 lawful texts (record c { engine = idle e }) b event payload cb now ms
          ready open_ refl same on fit deliverable in
      (
        ds,
        p,
        after e (done_by b64 (emitting j b64 c event payload) e handle),
        ap (λ r. r.0)
              (emit_to_reached j b64 server esid nsp sid rooms names c event payload there asked d
                  held alone
                ∙ at-run_client j b64 server esid c event payload)
            ∙ ap (λ o. (view b64 (emitting j b64 c event payload) (o, handle)).0) found,
        sent_after e handle (emitting j b64 c event payload) ds websocket faultless
            (ap (λ o. o.0.engine.sent) sends),
        arrives,
        told,
      )
