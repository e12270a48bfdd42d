-- ===== src/Socketio/Attachments/RoundTrip.antt =====
-- socketio/src/socket.rs: what the receiver makes of the engine.io packets that `send` emits, for
-- packets that were built from payloads.
use socket_io.Base.{
  ℕ, ◌%◌, ◌<◌, ◌≡◌, ◌≢◌, refl, sym, ap, ◌∙◌, List, [], ◌∷◌, ◌++◌, map, arith, Bool, true, false,
  Bytes, Str, ok, Option, none, some, lt→ltb, length, length-map, is_empty, All, Lacks,
}
use socket_io.Base.Utf8.{IsScalar, from_utf8}
use socket_io.Engineio.Packet as EnginePacket
use socket_io.Socketio.External.{Json}
use socket_io.Socketio.Event.{Event}
use socket_io.Socketio.Packet.{Packet, is_binary, header, encode, decode, decode_text}
use socket_io.Socketio.Packet.Scan.{CountFits, IdFits}
use socket_io.Socketio.Packet.RoundTrip.{
  IsReadable, IsSendable, from_utf8-encode, decode-encode_content,
}
use socket_io.Socketio.Payload.{Payload}
use socket_io.Socketio.Raw.{build_packet_for_payload, packet_type, encode_data}
use socket_io.Socketio.Attachments.{Stream, done, message, handle_engineio_packet}
use socket_io.Socketio.Attachments.Collect.{contents, IsAttachment, collect_all}

-- What the sender needs of the namespace, the id and the data of a packet that it builds.
pub record IsPortable (j : Json) (p : Packet j) : Type 0 where
  pub path : Str
  pub nsp_path : p.nsp ≡ b'/' ∷ path
  pub no_comma : Lacks b',' path
  pub scalars : All IsScalar path
  pub id_fits : IdFits p.id
  pub value : j.Value
  pub has_value : p.content ≡ some value
  pub readable : IsReadable j value

CountFits-packet_type :
    (atts : List Bytes) (is_ack : Bool)
    → CountFits (is_binary (packet_type (is_empty atts) is_ack)) (length atts % 256)
unfolding packet_type
CountFits-packet_type [] true = omega arith
CountFits-packet_type [] false = omega arith
CountFits-packet_type (a ∷ atts) true = omega arith
CountFits-packet_type (a ∷ atts) false = omega arith

module _ (j : Json) where
  -- The bytes do not depend on the attachments.
  encode_bare : (p : Packet j) → encode j p ≡ encode j (record p { attachments = none })
  unfolding encode header
  encode_bare p = refl

  portable-IsSendable :
      (p : Packet j)
      → IsPortable j p
      → CountFits (is_binary p.ptype) p.attachment_count
      → IsSendable j (record p { attachments = none })
  portable-IsSendable p s fits = record {
    path = s.path;
    nsp_path = s.nsp_path;
    no_comma = s.no_comma;
    scalars = s.scalars;
    count_fits = fits;
    id_fits = s.id_fits;
    bare = refl;
  }

  decode_portable :
      (p : Packet j)
      → IsPortable j p
      → CountFits (is_binary p.ptype) p.attachment_count
      → decode j (encode j p) ≡ ok (record p { attachments = none })
  decode_portable p s fits =
      ap (decode j) (encode_bare p)
      ∙ decode-encode_content j (record p { attachments = none }) s.value s.has_value
          (portable-IsSendable p s fits) s.readable

  encode_text_portable :
      (p : Packet j)
      → IsPortable j p
      → CountFits (is_binary p.ptype) p.attachment_count
      → (t : Str) × (from_utf8 (encode j p) ≡ some t)
  encode_text_portable p s fits = (
    _,
    ap from_utf8 (encode_bare p)
        ∙ from_utf8-encode j (record p { attachments = none }) (portable-IsSendable p s fits)
            (rw s.has_value s.readable.scalars),
  )

  -- A packet that is read back has some bytes.
  encode_full :
      (p : Packet j)
      → IsPortable j p
      → CountFits (is_binary p.ptype) p.attachment_count
      → encode j p ≢ []
  unfolding decode decode_text from_utf8
  encode_full p s fits e =
      let h : decode j [] ≡ ok (record p { attachments = none }) =
        ap (decode j) (sym e) ∙ decode_portable p s fits in
      cc h

  -- The receiver takes as many attachments as the count in the header says.
  handle_counted :
      (p : Packet j) (ws : List EnginePacket.Packet) (rest : Stream)
      → IsPortable j p
      → CountFits (is_binary p.ptype) p.attachment_count
      → p.attachment_count ≡ length ws
      → 0 < length ws
      → All IsAttachment ws
      → handle_engineio_packet j (message (encode j p)) (map ok ws ++ rest)
        ≡ done (record p { attachments = some (contents ws) }) rest
  unfolding handle_engineio_packet
  handle_counted p ws rest s fits e pos h =
      rw (decode_portable p s fits, e, lt→ltb 0 (length ws) pos, collect_all ws [] rest h)

  handle_uncounted :
      (p : Packet j) (stream : Stream)
      → IsPortable j p
      → CountFits (is_binary p.ptype) p.attachment_count
      → p.attachment_count ≡ 0
      → handle_engineio_packet j (message (encode j p)) stream
        ≡ done (record p { attachments = none }) stream
  unfolding handle_engineio_packet
  handle_uncounted p stream s fits e = rw (decode_portable p s fits, e)

module _ (j : Json) (payload : Payload j) (event : Option Event) (nsp : Str) (id : Option ℕ)
    (is_ack : Bool) where
  -- The packet that the sender builds, and its attachments.
  abbrev pub built : Packet j
  built = build_packet_for_payload j payload event nsp id is_ack

  abbrev pub attached : List Bytes
  attached = (encode_data j event payload).1

  built-CountFits : CountFits (is_binary built.ptype) built.attachment_count
  unfolding build_packet_for_payload
  built-CountFits = CountFits-packet_type attached is_ack

  built_count : built.attachment_count ≡ length attached % 256
  unfolding build_packet_for_payload
  built_count = refl

  pub built_attachments : built.attachments ≡ some attached
  unfolding build_packet_for_payload
  built_attachments = refl

  -- The packet as text with some bytes.
  pub built_text : IsPortable j built → (t : Str) × (from_utf8 (encode j built) ≡ some t)
  built_text s = encode_text_portable j built s built-CountFits

  pub built_full : IsPortable j built → encode j built ≢ []
  built_full s = encode_full j built s built-CountFits

  -- A packet that is built from a payload with 1 to 255 attachments arrives as it was sent,
  -- attachments included, when they follow it as message packets of either type; the packets
  -- behind them stay in the stream. Its namespace begins with a slash and has no comma, its id fits
  -- a `usize`, and its data is read back.
  pub handle_built :
      (ws : List EnginePacket.Packet) (rest : Stream)
      → IsPortable j built
      → contents ws ≡ attached
      → 0 < length ws
      → length ws < 256
      → All IsAttachment ws
      → handle_engineio_packet j (message (encode j built)) (map ok ws ++ rest) ≡ done built rest
  handle_built ws rest s e pos few h =
      handle_counted j built ws rest s built-CountFits
        (omega (arith, built_count, ap length e, length-map ws (λ p. p.content))) pos h
      ∙ (λ i. done (record built { attachments = (ap some e ∙ sym built_attachments) i }) rest)

  -- When the number of attachments is a multiple of 256, which includes none at all, the count in
  -- the header is zero: the packet arrives without attachments, and the receiver takes nothing
  -- from the stream.
  pub handle_built_uncounted :
      (stream : Stream)
      → IsPortable j built
      → length attached % 256 ≡ 0
      → handle_engineio_packet j (message (encode j built)) stream
        ≡ done (record built { attachments = none }) stream
  handle_built_uncounted stream s e =
      handle_uncounted j built stream s built-CountFits (built_count ∙ e)
