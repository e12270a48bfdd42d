-- ===== src/Socketio/Delivery.antt =====
-- What one end of a connection over a websocket sends with socketio/src/socket.rs, as the other end
-- reads it: `RawSocket::send` on the one side, the streams of the engine.io socket and of the
-- `RawSocket` on the other.
pub mod Payloads
pub mod Emit
pub mod Answers
pub mod Posts
use socket_io.Base.{
  ℕ, ◌%◌, ◌<◌, ◌≡◌, ◌≢◌, refl, sym, ap, ◌∙◌, List, [], ◌∷◌, ◌++◌, map, arith, Bool, true, Option,
  none, some, Bytes, Str, ok, length, length-map, append-nil, is_empty, All, All-append, Lacks,
  if_true,
}
use socket_io.Base.Utf8.{from_utf8, from_utf8-utf8, utf8, utf8-append}
use socket_io.Engineio.External.{Base64}
use socket_io.Engineio.Error.{Result}
use socket_io.Engineio.Packet as EnginePacket
use socket_io.Engineio.Payload.{separator}
use socket_io.Engineio.Transport.{Data, Message, packet_data}
use socket_io.Engineio.Socket.Emit.{with_sent, emit_all, emit_multi_all}
use socket_io.Engineio.Socket.Wire.{
  received_stream, plain_message, binary_message, received_plain, received_bytes_of_binary,
}
use socket_io.Socketio.External.{Json}
use socket_io.Socketio.Event.{Event}
use socket_io.Socketio.Packet.{Packet, header, content_text, encode}
use socket_io.Socketio.Packet.Text.{header-All, utf8-Lacks}
use socket_io.Socketio.Packet.RoundTrip.{IsReadable}
use socket_io.Socketio.Payload.{Payload}
use socket_io.Socketio.Raw.{build_packet_for_payload}
use socket_io.Socketio.Attachments.{
  Stream, done, yielded, is_attachment, message, message_binary, with_binaries, engine_packets,
  handle_engineio_packet, next_packet,
}
use socket_io.Socketio.Attachments.Collect.{contents, IsAttachment}
use socket_io.Socketio.Attachments.RoundTrip.{
  IsPortable, built, attached, built_attachments, built_text, built_full, handle_built,
  handle_built_uncounted,
}
use socket_io.Socketio.Socket.{Socket, lift, send, send_packets}
use socket_io.Socketio.Socket.Send.{send_open}

-- An attachment that gets over a websocket.
abbrev pub IsWhole : Bytes → Type 0
IsWhole c = (c ≢ []) × Lacks separator c

-- The text of a packet has no separator of payloads.
pub record IsClean (j : Json) (p : Packet j) : Type 0 where
  pub nsp : Lacks separator p.nsp
  pub text : Lacks separator (content_text j p.content)

module _ (j : Json) where
  pub encode-Lacks : (p : Packet j) → IsClean j p → Lacks separator (encode j p)
  unfolding encode
  encode-Lacks p h =
      All-append (λ c. c ≢ separator) _ _
        (utf8-Lacks separator (header j p) (omega arith) (
          header-All j (λ c. c ≢ separator) (λ c d. omega arith) (omega arith) (omega arith) p
            h.nsp))
        (utf8-Lacks separator (content_text j p.content) (omega arith) h.text)

module _ (j : Json) (b64 : Base64) where
  received_attachments :
      (atts : List Bytes) (ms : List (Result Message))
      → All IsWhole atts
      → received_stream b64 (map (packet_data b64) (map message_binary atts)) ms
        ≡ map ok (map message atts) ++ received_stream b64 [] ms
  received_attachments [] ms h = refl
  received_attachments (a ∷ as') ms ((full, clean), hs) =
      received_bytes_of_binary b64 a _ ms full clean
      ∙ ap (◌∷◌ (ok (message a))) (received_attachments as' ms hs)

  -- A socket whose engine.io socket has sent some more packets.
  abbrev pub with_engine_sent : Socket j → List EnginePacket.Packet → Socket j
  with_engine_sent s ps = record s { engine = with_sent b64 s.engine ps }

  pub send_all :
      (s : Socket j) (p : Packet j)
      → s.engine.connected ≡ true
      → s.engine.faults ≡ []
      → send j b64 s p ≡ (with_engine_sent s (engine_packets j p), ok tt)
  unfolding engine_packets
  send_all s p c f = send_open j b64 s p c ∙ ap (lift j s) (all_sent p.attachments)
    where
      all_sent :
          (atts : Option (List Bytes))
          → send_packets j b64 s.engine (message (encode j p)) atts
            ≡ (with_sent b64 s.engine (with_binaries (message (encode j p)) atts), ok tt)
      all_sent none = emit_all b64 s.engine (message (encode j p)) c f
      all_sent (some []) = emit_all b64 s.engine (message (encode j p)) c f
      all_sent (some (a ∷ as')) =
          emit_multi_all b64 s.engine (message (encode j p) ∷ map message_binary (a ∷ as')) c f

-- Attachments as packets of a type.
abbrev pub of_type : EnginePacket.PacketType → Bytes → EnginePacket.Packet
of_type t b = record { ptype = t; content = b }

contents-of_type :
    (t : EnginePacket.PacketType) (atts : List Bytes) → contents (map (of_type t) atts) ≡ atts
contents-of_type t [] = refl
contents-of_type t (a ∷ as') = ap (◌∷◌ a) (contents-of_type t as')

of_type-IsAttachment :
    (t : EnginePacket.PacketType) (atts : List Bytes)
    → is_attachment t ≡ true
    → All IsAttachment (map (of_type t) atts)
of_type-IsAttachment t [] h = tt
of_type-IsAttachment t (a ∷ as') h = (h, of_type-IsAttachment t as' h)

-- No attachments are none.
abbrev pub none_if_empty : List Bytes → Option (List Bytes)
none_if_empty [] = none
none_if_empty (a ∷ as') = some (a ∷ as')

module _ (j : Json) (payload : Payload j) (event : Option Event) (nsp : Str) (id : Option ℕ)
    (is_ack : Bool) where
  abbrev whole : Packet j
  whole = built j payload event nsp id is_ack

  abbrev files : List Bytes
  files = attached j payload event nsp id is_ack

  -- The packet that the sender builds, as it arrives.
  abbrev pub arrived : Packet j
  arrived = record whole { attachments = none_if_empty files }

  -- What gets the packet over a websocket: a packet that is read back, no separator in its text or
  -- an attachment, no empty attachment, and less than 256 of them.
  pub record IsDeliverable : Type 0 where
    pub portable : IsPortable j whole
    pub clean : IsClean j whole
    pub files_whole : All IsWhole files
    pub few : length files < 256

  -- The attachments may be packets of either type of message.
  pub handle_arrived :
      (t : EnginePacket.PacketType) (rest : Stream)
      → is_attachment t ≡ true
      → IsPortable j whole
      → length files < 256
      → handle_engineio_packet j (message (encode j whole)) (map ok (map (of_type t) files) ++ rest)
        ≡ done arrived rest
  handle_arrived t rest kind portable few = from files refl
    where
      from :
          (atts : List Bytes)
          → files ≡ atts
          → handle_engineio_packet j
              (message (encode j whole))
              (map ok (map (of_type t) files) ++ rest)
            ≡ done arrived rest
      from [] e =
          ap
            (λ l.
              handle_engineio_packet j (message (encode j whole))
                (map ok (map (of_type t) l) ++ rest))
            e
          ∙ handle_built_uncounted j payload event nsp id is_ack rest portable
              (ap (λ l. length l % 256) e)
          ∙ (λ i. done (record whole { attachments = none_if_empty (sym e i) }) rest)
      from (a ∷ as') e =
          handle_built j payload event nsp id is_ack (map (of_type t) files) rest portable
            (contents-of_type t files) (omega (arith, length-map files (of_type t), ap length e))
            (omega (arith, length-map files (of_type t), few)) (of_type-IsAttachment t files kind)
          ∙ (λ i.
              done
                (record whole {
                  attachments =
                      (built_attachments j payload event nsp id is_ack
                          ∙ ap some e
                          ∙ ap none_if_empty (sym e))
                        i;
                })
                rest)

  -- The stream of the packets that were sent, and the packet that is found there.
  pub next_packet-arrived :
      (b64 : Base64) (ms : List (Result Message))
      → IsDeliverable
      → next_packet j (received_stream b64 (map (packet_data b64) (engine_packets j whole)) ms)
        ≡ done (some arrived) (received_stream b64 [] ms)
  unfolding next_packet engine_packets build_packet_for_payload
  next_packet-arrived b64 ms d =
      let (t, e) = built_text j payload event nsp id is_ack d.portable in
      ap (next_packet j) (
        received_plain b64 (encode j whole) t _ ms e
          (built_full j payload event nsp id is_ack d.portable) (encode-Lacks j whole d.clean)
        ∙ ap (◌∷◌ (ok (message (encode j whole))))
            (received_attachments j b64 files ms d.files_whole))
      ∙ ap yielded (
          handle_arrived EnginePacket.PacketType.message (received_stream b64 [] ms) refl d.portable
            d.few)
