-- ===== src/Socketio/Delivery/Posts.antt =====
-- An event that a client emits over the polling transport, at the server: `emit` of
-- engineio/src/transports/polling.rs posts it, `polling_post` of engineio/src/server/http.rs queues it,
-- and the stream of the server's socket reads what is queued.
use socket_io.Base.{
  ℕ, ◌<◌, ◌≡◌, ◌≢◌, refl, sym, ap, ◌∙◌, List, [], ◌∷◌, ◌++◌, map, append-nil, snoc-append, true,
  false, Bool, Option, none, some, Bytes, Str, ok, length, All, Lacks, IsByte, if_true, inr,
}
use socket_io.Base.Maps.{get, get_put_same}
use socket_io.Engineio.Error as Engine
use socket_io.Engineio.External as EngineLibrary
use socket_io.Engineio.External.{Base64}
use socket_io.Engineio.Packet as EnginePacket
use socket_io.Engineio.Packet.RoundTrip.{decode-encode}
use socket_io.Engineio.Packet.RoundTrip as EngineRoundTrip
use socket_io.Engineio.Payload.{separator}
use socket_io.Engineio.Payload.RoundTrip.{separator_not-IsBase64}
use socket_io.Engineio.Payload.Split.{split_single, decode_all, decode-split}
use socket_io.Engineio.Transport.{Data, packet_data, polling_body}
use socket_io.Engineio.Server as EngineServer
use socket_io.Engineio.Server.{PollingHandle}
use socket_io.Engineio.Server.Http.{polling_post}
use socket_io.Engineio.Socket.Stream.{stream, stream-decode}
use socket_io.Engineio.Socket.Wire.{plain_message, binary_message, decode_single}
use socket_io.Socketio.External.{Json, IsLawful}
use socket_io.Socketio.Event.{Event, from_string, into_string}
use socket_io.Socketio.Payload.{Payload}
use socket_io.Socketio.Packet.{Packet, encode}
use socket_io.Socketio.Raw.{build_packet_for_payload}
use socket_io.Socketio.Incoming.{collapse}
use socket_io.Socketio.Incoming.RoundTrip.{raws}
use socket_io.Socketio.Attachments.{
  done, yielded, message, message_binary, engine_packets, next_packet,
}
use socket_io.Socketio.Attachments.RoundTrip.{IsPortable, built, attached, built_full}
use socket_io.Socketio.Socket.{Socket, Called, emit}
use socket_io.Socketio.Handler.{Texts, finished, handle_socketio_packet}
use socket_io.Socketio.Delivery.{IsClean, encode-Lacks, arrived, handle_arrived, send_all}
use socket_io.Socketio.Delivery.Emit.{IsFit, handle_told, callback_found}

-- What the socket of a polling client reads of posted bodies, in front of other ones.
abbrev pub posted_stream :
    Base64 → List Bytes → List Bytes → List (Engine.Result EnginePacket.Packet)
posted_stream b64 bodies rest = stream b64 (map ok bodies ++ map ok rest)

-- Posts with some bodies, one after the other.
abbrev pub post_all : EngineServer.Server → Str → List Bytes → EngineServer.Server
post_all server sid [] = server
post_all server sid (body ∷ bodies) = post_all (polling_post server sid body) sid bodies

post-handle :
    (server : EngineServer.Server) (sid : Str) (body : Bytes) (h : PollingHandle)
    → get sid server.polling_handles ≡ some h
    → get sid (polling_post server sid body).polling_handles
      ≡ some (record h { incoming = h.incoming ++ body ∷ [] })
unfolding polling_post
post-handle server sid body h e =
    rw (polling_post, e)
      (get_put_same sid (record h { incoming = h.incoming ++ body ∷ [] }) server.polling_handles)

-- Posted bodies are queued for the socket in their order.
post_all-handle :
    (bodies : List Bytes) (server : EngineServer.Server) (sid : Str) (h : PollingHandle)
    → get sid server.polling_handles ≡ some h
    → get sid (post_all server sid bodies).polling_handles
      ≡ some (record h { incoming = h.incoming ++ bodies })
post_all-handle [] server sid h e =
    e ∙ (λ i. some (record h { incoming = sym (append-nil h.incoming) i }))
post_all-handle (body ∷ bodies) server sid h e =
    post_all-handle bodies (polling_post server sid body) sid
      (record h { incoming = h.incoming ++ body ∷ [] }) (post-handle server sid body h e)
    ∙ (λ i. some (record h { incoming = snoc-append h.incoming body bodies i }))

module _ (b64 : Base64) where
  -- The bodies that the client posts for packets.
  abbrev pub bodies_of : List EnginePacket.Packet → List Bytes
  bodies_of ps = map (polling_body b64) (map (packet_data b64) ps)

  posted_plain :
      (c : Bytes) (bodies rest : List Bytes)
      → c ≢ []
      → Lacks separator c
      → posted_stream b64 (bodies_of (plain_message b64 c ∷ []) ++ bodies) rest
        ≡ ok (plain_message b64 c) ∷ posted_stream b64 bodies rest
  unfolding polling_body packet_data EnginePacket.encode EnginePacket.type_to_string
  posted_plain c bodies rest full clean =
      stream-decode b64 (b'4' ∷ c) (plain_message b64 c ∷ []) (map ok bodies ++ map ok rest)
        (decode_single b64 b'4' c (inr refl) full clean)

  posted_binary :
      EngineLibrary.IsLawful b64
      → (c : Bytes) (bodies rest : List Bytes) → All IsByte c
      → posted_stream b64 (bodies_of (binary_message b64 c ∷ []) ++ bodies) rest
        ≡ ok (binary_message b64 c) ∷ posted_stream b64 bodies rest
  unfolding polling_body packet_data EnginePacket.encode
  posted_binary lawful c bodies rest bytes =
      let p = binary_message b64 c in
      stream-decode b64 (EnginePacket.encode b64 p) (p ∷ []) _ (
        decode-split b64 (EnginePacket.encode b64 p)
        ∙ ap (decode_all b64) (
            split_single (EnginePacket.encode b64 p) (
              EngineRoundTrip.encode-Lacks b64 lawful separator p separator_not-IsBase64
                (λ n. absurd (n refl))))
        ∙ (unfold decode_all in rw (decode-encode b64 lawful p bytes (λ e. cc e))))

  posted_attachments :
      EngineLibrary.IsLawful b64
      → (atts : List Bytes) (rest : List Bytes) → All (All IsByte) atts
      → posted_stream b64 (bodies_of (map message_binary atts)) rest
        ≡ map ok (map message_binary atts) ++ posted_stream b64 [] rest
  posted_attachments lawful [] rest h = refl
  posted_attachments lawful (a ∷ as') rest (ha, hs) =
      posted_binary lawful a (bodies_of (map message_binary as')) rest ha
      ∙ ap (◌∷◌ (ok (message_binary a))) (posted_attachments lawful as' rest hs)

module _ (j : Json) (payload : Payload j) (event : Option Event) (nsp : Str) (id : Option ℕ)
    (is_ack : Bool) where
  -- What gets the packet to a server by polling: a packet that is read back, no separator in its
  -- text, attachments of bytes, and less than 256 of them.
  pub record IsPostable : Type 0 where
    pub portable : IsPortable j (built j payload event nsp id is_ack)
    pub clean : IsClean j (built j payload event nsp id is_ack)
    pub bytes : All (All IsByte) (attached j payload event nsp id is_ack)
    pub few : length (attached j payload event nsp id is_ack) < 256

  next_packet-posted :
      (b64 : Base64)
      → EngineLibrary.IsLawful b64
      → (rest : List Bytes) → IsPostable
      → next_packet j (
          posted_stream b64
            (bodies_of b64 (engine_packets j (built j payload event nsp id is_ack)))
            rest)
        ≡ done (some (arrived j payload event nsp id is_ack)) (posted_stream b64 [] rest)
  unfolding next_packet engine_packets build_packet_for_payload
  next_packet-posted b64 lawful rest d =
      let p = built j payload event nsp id is_ack in
      let atts = attached j payload event nsp id is_ack in
      ap (next_packet j) (
        posted_plain b64 (encode j p) (bodies_of b64 (map message_binary atts)) rest
          (built_full j payload event nsp id is_ack d.portable) (encode-Lacks j p d.clean)
        ∙ ap (◌∷◌ (ok (message (encode j p)))) (posted_attachments b64 lawful atts rest d.bytes))
      ∙ ap yielded (
          handle_arrived j payload event nsp id is_ack EnginePacket.PacketType.message_binary
            (posted_stream b64 [] rest) refl d.portable d.few)

module _ (j : Json) (b64 : Base64) (lawful64 : EngineLibrary.IsLawful b64) (lawful : IsLawful j)
    (texts : Texts j) where
  -- A client emits an event by polling, over a transport that does not fail. What it sends is posted
  -- to the server, body by body, and queued in order for the polling handle of the client's socket;
  -- of that, in front of what is posted next, the stream of the server's socket makes one packet. A
  -- socket of the same namespace that handles the packet calls its callback for the event, with the
  -- payload, in which a list of one part is that part, and does nothing else. Base64 is lawful, so
  -- that attachments may have any bytes or none; else the payload is as for a websocket.
  pub emit_posted :
      (a b : Socket j) (event : Event) (payload : Payload j) (c now : ℕ)
      (server : EngineServer.Server) (sid : Str) (h : PollingHandle) (next : List Bytes)
      → (a.is_connected ≡ true) × (a.engine.connected ≡ true) × (a.engine.faults ≡ [])
      → b.nsp ≡ a.nsp
      → b.on (from_string (into_string event)) ≡ some c
      → IsFit j payload
      → IsPostable j payload (some event) a.nsp none false
      → get sid server.polling_handles ≡ some h
      → (ds : List Data) × (p : Packet j) × (emit j b64 a event payload
          ≡ (record a { engine = record a.engine { sent = a.engine.sent ++ ds } }, ok tt))
        × (get sid (post_all server sid (map (polling_body b64) ds)).polling_handles
            ≡ some (record h { incoming = h.incoming ++ map (polling_body b64) ds }))
        × (next_packet j (posted_stream b64 (map (polling_body b64) ds) next)
            ≡ done (some p) (posted_stream b64 [] next))
        × (handle_socketio_packet j texts b now p
            ≡ finished
                (record b {
                  called =
                      b.called ++ Called.handler c (some (collapse j (raws j payload))) none ∷ [];
                })
                (ok tt))
  unfolding emit
  emit_posted a b event payload c now server sid h next (ready, open_, faultless) same on fit d
        there =
      (
        _,
        arrived j payload (some event) a.nsp none false,
        if_true _ _ _ ready
            ∙ send_all j b64 a (built j payload (some event) a.nsp none false) open_ faultless,
        post_all-handle _ server sid h there,
        next_packet-posted j payload (some event) a.nsp none false b64 lawful64 next d,
        handle_told j lawful event payload a.nsp none fit texts b now same
            ∙ ap (λ s. finished s (ok tt)) (callback_found j b _ _ none c on),
      )
