-- ===== src/Socketio/Delivery/Answers.antt =====
-- An event that asks for an answer, and the answer, over a websocket: `Socket::emit_with_ack`,
-- `Socket::ack` and `handle_ack` of socketio/src/socket.rs.
use socket_io.Base.{
  ℕ, ◌≡◌, refl, sym, ap, ◌∙◌, List, [], ◌∷◌, ◌++◌, append-nil, subst, arith, Bool, true, false, not,
  none, some, Bytes, Str, ok, is_empty, list_eq, list_eq_refl, if_true,
}
use socket_io.Engineio.External.{Base64}
use socket_io.Engineio.Error as Engine
use socket_io.Engineio.Transport.{Data, Message}
use socket_io.Engineio.Socket.Wire.{received_stream}
use socket_io.Socketio.External.{Json, IsLawful}
use socket_io.Socketio.Event.{Event, from_string, into_string}
use socket_io.Socketio.Payload.{Payload}
use socket_io.Socketio.Packet.{Packet}
use socket_io.Socketio.Raw.{build_packet_for_payload, packet_type}
use socket_io.Socketio.Incoming.{decode_binary_payload, collapse}
use socket_io.Socketio.Incoming.RoundTrip.{raws, decode-encode_data}
use socket_io.Socketio.Acks.{Ack, generate}
use socket_io.Socketio.Acks.Removal.{LacksId, DistinctIds}
use socket_io.Socketio.Attachments.{done, next_packet}
use socket_io.Socketio.Attachments.RoundTrip.{attached, built}
use socket_io.Socketio.Socket.{Socket, Called, emit_with_ack, ack, wait_for}
use socket_io.Socketio.Handler.{
  Texts, finished, ack_payload, handle_ack, handle_by_type, handle_socketio_packet, ack_error,
}
use socket_io.Socketio.Handler.Ack.{called_for, handle_ack_once}
use socket_io.Socketio.Handler.Ready.{Distinct-snoc}
use socket_io.Socketio.Delivery.{
  arrived, none_if_empty, IsDeliverable, send_all, next_packet-arrived,
}
use socket_io.Socketio.Delivery.Payloads.{decode_event_payload-encode_data}
use socket_io.Socketio.Delivery.Emit.{IsFit, callback_found, handle_told}

module _ (j : Json) (lawful : IsLawful j) (texts : Texts j) (payload : Payload j) (nsp : Str)
    (id : ℕ) (fit : IsFit j payload) where
  abbrev q : Packet j
  q = arrived j payload none nsp (some id) true

  abbrev files : List Bytes
  files = attached j payload none nsp (some id) true

  -- The payload is found by the type of the packet.
  ack_payload_arrived : ack_payload j q (not (is_empty files)) ≡ some (collapse j (raws j payload))
  unfolding ack_payload build_packet_for_payload
  ack_payload_arrived = by_files files refl
    where
      by_files :
          (atts : List Bytes)
          → files ≡ atts
          → ack_payload j q (not (is_empty files)) ≡ some (collapse j (raws j payload))
      by_files [] empty =
          ap (λ l. ack_payload j q (not (is_empty l))) empty
          ∙ decode_event_payload-encode_data j lawful none payload fit.some_part empty
      by_files (a ∷ as') full =
          ap (λ l. ack_payload j q (not (is_empty l))) full
          ∙ ap (λ atts. decode_binary_payload j q.content atts false)
              (ap none_if_empty full ∙ ap some (sym full))
          ∙ decode-encode_data j lawful none payload fit.plain (omega (arith, fit.few))

  handle_answer :
      (s : Socket j) (now : ℕ)
      → s.nsp ≡ nsp
      → handle_socketio_packet j texts s now q
        ≡ ack_error j texts (handle_ack j s now q (not (is_empty files)))
  unfolding handle_socketio_packet handle_by_type build_packet_for_payload packet_type
  handle_answer s now h =
      if_true (list_eq q.nsp s.nsp) _ (finished s (ok tt)) (rw h (list_eq_refl nsp))
      ∙ by_type (is_empty files)
    where
      by_type :
          (b : Bool)
          → handle_by_type j texts s now q (packet_type b true)
            ≡ ack_error j texts (handle_ack j s now q (not b))
      by_type true = refl
      by_type false = refl

  -- A socket that waits for the answer, behind other acks, waits for those only, and calls back.
  pub answer_told :
      (s : Socket j) (now : ℕ) (acks : List Ack) (a : Ack)
      → s.nsp ≡ nsp
      → s.outstanding_acks ≡ acks ++ a ∷ []
      → DistinctIds (acks ++ a ∷ [])
      → a.id ≡ id
      → handle_socketio_packet j texts s now q
        ≡ finished
            (record s {
              outstanding_acks = acks;
              called = s.called ++ called_for j now (some (collapse j (raws j payload))) a;
            })
            (ok tt)
  unfolding build_packet_for_payload
  answer_told s now acks a h e distinct eid =
      handle_answer s now h
      ∙ ap (ack_error j texts) (
          (handle_ack_once j s now now q q b b acks a [] e (subst DistinctIds (sym e) distinct)
            (ap some (sym eid)) (ap some (sym eid))).0
          ∙ (λ i.
              finished
                (record s {
                  outstanding_acks = append-nil acks i;
                  called = s.called ++ called_for j now (ack_payload_arrived i) a;
                })
                (ok tt)))
    where
      b : Bool
      b = not (is_empty files)

module _ (j : Json) (b64 : Base64) (lawful : IsLawful j) (texts : Texts j) where
  -- Two ends of a connection over a websocket, with sockets of one namespace that are connected over
  -- transports that do not fail. One emits an event and asks for an answer, with an id that none of
  -- the acks has that it waits for, which have distinct ids. The other gets one packet for it, calls
  -- its callback with the payload and the id, and, whenever it acknowledges the id, sends what
  -- arrives as one packet. On that, the first calls back with the payload of the answer, if its time
  -- is not over, and waits for the same acks as before it asked. The payloads are those that get
  -- over a websocket (`IsFit`, `IsDeliverable`).
  pub emit_with_ack_answered :
      (a b : Socket j) (event : Event) (payload answer : Payload j)
      (c cb now then later timeout : ℕ) (ms ns : List (Engine.Result Message))
      → (a.is_connected ≡ true) × (a.engine.connected ≡ true) × (a.engine.faults ≡ [])
      → (b.is_connected ≡ true) × (b.engine.connected ≡ true) × (b.engine.faults ≡ [])
      → b.nsp ≡ a.nsp
      → b.on (from_string (into_string event)) ≡ some c
      → DistinctIds a.outstanding_acks
      → LacksId a.seq a.outstanding_acks
      → IsFit j payload
      → IsFit j answer
      → IsDeliverable j payload (some event) a.nsp (some a.seq) false
      → IsDeliverable j answer none b.nsp (some a.seq) true
      → (a' b' b'' : Socket j) × (ds es : List Data) × (p q : Packet j) × (emit_with_ack j b64 a now
            event payload timeout cb
          ≡ (a', ok tt))
        × (a'.engine.sent ≡ a.engine.sent ++ ds)
        × (next_packet j (received_stream b64 ds ms) ≡ done (some p) (received_stream b64 [] ms))
        × (handle_socketio_packet j texts b then p ≡ finished b' (ok tt))
        × (b'.called
            ≡ b.called ++ Called.handler c (some (collapse j (raws j payload))) (some a.seq) ∷ [])
        × (ack j b64 b' a.seq answer ≡ (b'', ok tt))
        × (b''.engine.sent ≡ b.engine.sent ++ es)
        × (next_packet j (received_stream b64 es ns) ≡ done (some q) (received_stream b64 [] ns))
        × (handle_socketio_packet j texts a' later q
            ≡ finished
                (record a' {
                  outstanding_acks = a.outstanding_acks;
                  called =
                      a.called
                      ++ called_for j later (some (collapse j (raws j answer))) (record {
                        id = a.seq;
                        timeout = timeout;
                        time_started = now;
                        callback = cb;
                      });
                })
                (ok tt))
  unfolding emit_with_ack ack wait_for generate
  emit_with_ack_answered a b event payload answer c cb now then later timeout ms ns (ra, ca, fa)
        (rb, cb', fb) same on distinct fresh fit fit' d d' =
      let pending : Ack = record {
        id = a.seq;
        timeout = timeout;
        time_started = now;
        callback = cb;
      } in
      let b' : Socket j = record b {
        called =
            b.called ++ Called.handler c (some (collapse j (raws j payload))) (some a.seq) ∷ [];
      } in
      (
        _,
        b',
        _,
        _,
        _,
        arrived j payload (some event) a.nsp (some a.seq) false,
        arrived j answer none b.nsp (some a.seq) true,
        if_true _ _ _ ra
            ∙ send_all j b64 (wait_for j b64 a now timeout cb)
                (built j payload (some event) a.nsp (some a.seq) false) ca fa,
        refl,
        next_packet-arrived j payload (some event) a.nsp (some a.seq) false b64 ms d,
        handle_told j lawful event payload a.nsp (some a.seq) fit texts b then same
            ∙ ap (λ s. finished s (ok tt)) (callback_found j b _ _ (some a.seq) c on),
        refl,
        if_true _ _ _ rb ∙ send_all j b64 b' (built j answer none b.nsp (some a.seq) true) cb' fb,
        refl,
        next_packet-arrived j answer none b.nsp (some a.seq) true b64 ns d',
        answer_told j lawful texts answer b.nsp a.seq fit' _ later a.outstanding_acks pending
            (sym same) refl (Distinct-snoc a.outstanding_acks pending distinct fresh) refl,
      )
