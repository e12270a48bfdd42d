-- ===== src/Socketio/Delivery/Emit.antt =====
-- An event that one end of a connection emits over a websocket, at the other end: `Socket::emit` and
-- `handle_socketio_packet` of socketio/src/socket.rs.
use socket_io.Base.{
  ℕ, ◌<◌, ◌≡◌, ◌≢◌, refl, sym, ap, ◌∙◌, List, [], ◌∷◌, ◌++◌, arith, true, false, Option, none, some,
  Bytes, Str, ok, length, is_empty, All, list_eq, list_eq_refl, if_true,
}
use socket_io.Engineio.External.{Base64}
use socket_io.Engineio.Error as Engine
use socket_io.Engineio.Transport.{Data, Message}
use socket_io.Engineio.Socket.Wire.{received_stream}
use socket_io.Socketio.Attachments.{done, next_packet}
use socket_io.Socketio.External.{Json, IsLawful}
use socket_io.Socketio.Event.{Event, from_string, into_string}
use socket_io.Socketio.Payload.{Payload}
use socket_io.Socketio.Packet.{Packet}
use socket_io.Socketio.Raw.{encode_data, event_values, build_packet_for_payload, packet_type}
use socket_io.Socketio.Incoming.{
  decode_binary_payload, decode_event_payload, collapse, event_of_contents,
}
use socket_io.Socketio.Incoming.RoundTrip.{
  raws, binaries, placed, IsPlain, encode_data-placed, decode-encode_data,
}
use socket_io.Socketio.Attachments.RoundTrip.{attached, built}
use socket_io.Socketio.Socket.{Socket, Called, callback, emit}
use socket_io.Socketio.Handler.{
  Texts, finished, handle_event, handle_binary_event, handle_by_type, handle_socketio_packet,
  event_error,
}
use socket_io.Socketio.Delivery.{
  arrived, none_if_empty, IsDeliverable, send_all, next_packet-arrived,
}
use socket_io.Socketio.Delivery.Payloads.{
  decode_event_payload-encode_data, event_of_contents-encode_data, event_of_binary-encode_data,
}

-- What the receiver needs of a payload: some part, no object with the key of the placeholders, and
-- less than 256 attachments.
pub record IsFit (j : Json) (payload : Payload j) : Type 0 where
  pub some_part : raws j payload ≢ []
  pub plain : All (IsPlain j) (raws j payload)
  pub few : length (binaries j (raws j payload)) < 256

module _ (j : Json) where
  pub callback_found :
      (s : Socket j) (e : Event) (p : Option (Payload j)) (i : Option ℕ) (c : ℕ)
      → s.on e ≡ some c
      → callback j s e p i ≡ record s { called = s.called ++ Called.handler c p i ∷ [] }
  unfolding callback
  callback_found s e p i c h =
      ap
        (λ o. elim o [
          | none ↦ s
          | some c ↦ record s { called = s.called ++ Called.handler c p i ∷ [] }
        ])
        h

module _ (j : Json) (lawful : IsLawful j) where
  handle_event_array :
      (s : Socket j) (q : Packet j) (vs : List j.Value)
      → q.content ≡ some (j.array vs)
      → handle_event j s q ≡ (
        callback j s (event_of_contents j vs) (decode_event_payload j q.content true) q.id,
        ok tt,
      )
  unfolding handle_event
  handle_event_array s q vs h =
      rw (handle_event, h, lawful.as_array-array)
        (λ i.
          (callback j s (event_of_contents j vs) (decode_event_payload j (h i) true) q.id, ok tt))

module _ (j : Json) (lawful : IsLawful j) (e : Event) (payload : Payload j) (nsp : Str)
    (id : Option ℕ) (fit : IsFit j payload) where
  abbrev p : Packet j
  p = arrived j payload (some e) nsp id false

  abbrev files : List Bytes
  files = attached j payload (some e) nsp id false

  -- What the handlers of both types of packets ask for.
  abbrev told : Socket j → Socket j
  told s = callback j s (from_string (into_string e)) (some (collapse j (raws j payload))) id

  placed_data : encode_data j (some e) payload ≡ (
    j.array (event_values j (some e) ++ placed j 0 (raws j payload)),
    binaries j (raws j payload),
  )
  placed_data = encode_data-placed j (some e) payload

  files-binaries : files ≡ binaries j (raws j payload)
  files-binaries = ap (λ r. r.1) placed_data

  event_told : (s : Socket j) → files ≡ [] → handle_event j s p ≡ (told s, ok tt)
  unfolding build_packet_for_payload
  event_told s empty = handle_event_array j lawful s p _ (ap (λ r. some r.0) placed_data) ∙ (λ i. (
    callback j s (event_of_contents-encode_data j lawful e payload fit.some_part i)
        (decode_event_payload-encode_data j lawful (some e) payload fit.some_part empty i) id,
    ok tt,
  ))

  binary_event_told :
      (s : Socket j)
      → none_if_empty files ≡ some files
      → handle_binary_event j s p ≡ (told s, ok tt)
  unfolding handle_binary_event build_packet_for_payload
  binary_event_told s some_files = λ i. (
    callback j s (event_of_binary-encode_data j lawful e payload i)
        ((ap (λ atts. decode_binary_payload j p.content atts true) some_files
            ∙ decode-encode_data j lawful (some e) payload fit.plain (omega (arith, fit.few)))
          i)
        id,
    ok tt,
  )

  -- The packet of an event, as it arrives, is told to the callback for the event.
  pub handle_told :
      (texts : Texts j) (s : Socket j) (now : ℕ)
      → s.nsp ≡ nsp
      → handle_socketio_packet j texts s now p ≡ finished (told s) (ok tt)
  unfolding handle_socketio_packet handle_by_type build_packet_for_payload
  handle_told texts s now h =
      if_true (list_eq p.nsp s.nsp) _ (finished s (ok tt)) (rw h (list_eq_refl nsp))
      ∙ by_files files refl
    where
      by_files :
          (atts : List Bytes)
          → files ≡ atts
          → handle_by_type j texts s now p p.ptype ≡ finished (told s) (ok tt)
      by_files [] empty =
          ap (λ l. handle_by_type j texts s now p (packet_type (is_empty l) false)) empty
          ∙ ap (event_error j texts) (event_told s empty)
      by_files (a ∷ as') full =
          ap (λ l. handle_by_type j texts s now p (packet_type (is_empty l) false)) full
          ∙ ap (event_error j texts)
              (binary_event_told s (ap none_if_empty full ∙ ap some (sym full)))

module _ (j : Json) (b64 : Base64) (lawful : IsLawful j) (texts : Texts j) where
  -- One end of a connection over a websocket emits an event, and its transport does not fail: the
  -- event is sent, and of what is sent the other end's stream makes one packet and nothing else, in
  -- front of whatever follows. A socket of the same namespace that handles the packet calls its
  -- callback for the event, with the payload, in which a list of one part is that part, and does
  -- nothing else. The payload has a part, no object with the key of the placeholders and less than
  -- 256 attachments, none of them empty; there is no separator of payloads in an attachment or in
  -- the text of the packet, which is read back; its namespace begins with a slash and has no comma.
  pub emit_delivered :
      (a b : Socket j) (event : Event) (payload : Payload j) (c now : ℕ)
      (ms : List (Engine.Result Message))
      → a.is_connected ≡ true
      → a.engine.connected ≡ true
      → a.engine.faults ≡ []
      → b.nsp ≡ a.nsp
      → b.on (from_string (into_string event)) ≡ some c
      → IsFit j payload
      → IsDeliverable j payload (some event) a.nsp none false
      → (ds : List Data) × (p : Packet j) × (emit j b64 a event payload
          ≡ (record a { engine = record a.engine { sent = a.engine.sent ++ ds } }, ok tt))
        × (next_packet j (received_stream b64 ds ms) ≡ done (some p) (received_stream b64 [] ms))
        × (handle_socketio_packet j texts b now p
            ≡ finished
                (record b {
                  called =
                      b.called ++ Called.handler c (some (collapse j (raws j payload))) none ∷ [];
                })
                (ok tt))
  unfolding emit
  emit_delivered a b event payload c now ms ready open_ faultless same on fit d = (
    _,
    arrived j payload (some event) a.nsp none false,
    if_true _ _ _ ready
        ∙ send_all j b64 a (built j payload (some event) a.nsp none false) open_ faultless,
    next_packet-arrived j payload (some event) a.nsp none false b64 ms d,
    handle_told j lawful event payload a.nsp none fit texts b now same
        ∙ ap (λ s. finished s (ok tt)) (callback_found j b _ _ none c on),
  )
