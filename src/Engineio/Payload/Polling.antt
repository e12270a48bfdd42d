-- ===== src/Engineio/Payload/Polling.antt =====
-- engineio/src/packet.rs, `build_polling_payload`: the polling response against the payload that
-- the client reads, for text packets and for binary ones.
use socket_io.Base.{
  ℕ, ◌≡◌, ◌≢◌, refl, ap, ◌∙◌, List, [], ◌∷◌, ◌++◌, map, append_assoc, append-nil, arith, some,
  Bytes, Str, ok, err, All, All-imp, ==_ne, Lacks,
}
use mathlib.Core.List.{cons-ne-nil}
use socket_io.Base.Utf8.{from_utf8}
use socket_io.Engineio.Error.{invalid_packet_type}
use socket_io.Engineio.External.{Base64, IsLawful, IsBase64}
use socket_io.Engineio.Packet.{Packet, PacketType}
use socket_io.Engineio.Packet
use socket_io.Engineio.Packet.RoundTrip.{avoid}
use socket_io.Engineio.Transport.{polling_body, packet_data}
use socket_io.Engineio.Transport.Delivery.{encode_utf8, packet_data_text}
use socket_io.Engineio.Payload.{
  separator, decode, polling_text, polling_loop, some_text, build_polling_payload,
}
use socket_io.Engineio.Payload.Split.{join, decode_all, split-join, split_single, decode-split}
use socket_io.Engineio.Payload.RoundTrip.{
  IsSendable, separator_not-IsBase64, map-Lacks, decode_all-map,
}

-- Text that the response takes over: UTF-8, not empty, and not with a `b` in front.
abbrev IsFrame : Bytes → Type 0
IsFrame [] = ⊥
IsFrame (c ∷ bs) = (c ≢ b'b') × ((s : Str) × (from_utf8 (c ∷ bs) ≡ some s))

module _ (b64 : Base64) where
  polling_text_frame : (c : ℕ) (bs : Bytes) → IsFrame (c ∷ bs) → polling_text b64 (c ∷ bs) ≡ c ∷ bs
  unfolding polling_text
  polling_text_frame c bs (n, (s, e)) = rw (==_ne c b'b' n, e)

  polling_loop-join :
      (f : Bytes) (fs : List Bytes) (buf : Bytes)
      → All IsFrame (f ∷ fs)
      → polling_loop b64 (f ∷ fs) buf ≡ some (buf ++ join (f ∷ fs))
  unfolding polling_loop join
  polling_loop-join [] fs buf (h, _) = absurd h
  polling_loop-join (c ∷ bs) [] buf (h, _) = rw (polling_text_frame c bs h, append-nil)
  polling_loop-join (c ∷ bs) (g ∷ fs) buf (h, hs) = rw (polling_text_frame c bs h) (
      polling_loop-join g fs ((buf ++ c ∷ bs) ++ separator ∷ []) hs
      ∙ ap some (append_assoc (buf ++ c ∷ bs) (separator ∷ []) _ ∙ append_assoc buf _ _))

  some_text-join :
      (c : ℕ) (bs : Bytes) (fs : List Bytes)
      → some_text (join ((c ∷ bs) ∷ fs)) ≡ some (join ((c ∷ bs) ∷ fs))
  unfolding join some_text
  some_text-join c bs [] = refl
  some_text-join c bs (g ∷ fs) = refl

  -- The response to frames of text is the frames with a separator between them.
  build_frames :
      (f : Bytes) (fs : List Bytes)
      → All IsFrame (f ∷ fs)
      → build_polling_payload b64 (f ∷ fs) ≡ some (join (f ∷ fs))
  unfolding build_polling_payload
  build_frames [] fs (h, _) = absurd h
  build_frames (c ∷ bs) fs h =
      rw (build_polling_payload, polling_loop-join (c ∷ bs) fs [] h) (some_text-join c bs fs)

-- A packet of UTF-8 text.
pub record IsText (p : Packet) : Type 0 where
  pub sendable : IsSendable p
  pub plain : p.ptype ≢ PacketType.message_binary
  pub content_utf8 : (s : Str) × (from_utf8 p.content ≡ some s)

-- The bytes that the server's polling transport queues for a packet.
abbrev pub queued : Base64 → Packet → Bytes
queued b64 p = polling_body b64 (packet_data b64 p)

queued_text :
    (b64 : Base64) (p : Packet)
    → p.ptype ≢ PacketType.message_binary
    → queued b64 p ≡ Packet.encode b64 p
unfolding polling_body
queued_text b64 p n = rw (packet_data_text b64 p.ptype p.content n)

encode_head :
    (b64 : Base64) (t : PacketType) (c : Bytes)
    → t ≢ PacketType.message_binary
    → (d : ℕ) × (d ≢ b'b') × (Packet.encode b64 (record { ptype = t; content = c }) ≡ d ∷ c)
unfolding Packet.encode
encode_head b64 PacketType.open_ c n = (b'0', ground arith, refl)
encode_head b64 PacketType.close c n = (b'1', ground arith, refl)
encode_head b64 PacketType.ping c n = (b'2', ground arith, refl)
encode_head b64 PacketType.pong c n = (b'3', ground arith, refl)
encode_head b64 PacketType.message c n = (b'4', ground arith, refl)
encode_head b64 PacketType.message_binary c n = absurd (n refl)
encode_head b64 PacketType.upgrade c n = (b'5', ground arith, refl)
encode_head b64 PacketType.noop c n = (b'6', ground arith, refl)

encode-IsFrame : (b64 : Base64) (p : Packet) → IsText p → IsFrame (Packet.encode b64 p)
encode-IsFrame b64 p t =
    let (d, n, e) = encode_head b64 p.ptype p.content t.plain in
    let (s, e') = t.content_utf8 in
    let (s', u) = encode_utf8 b64 p s t.plain e' in rw e (n, (s', rw e at u))

map-queued :
    (b64 : Base64) (ps : List Packet)
    → All IsText ps
    → map (queued b64) ps ≡ map (Packet.encode b64) ps
map-queued b64 [] h = refl
map-queued b64 (p ∷ ps) (hp, hs) = rw (queued_text b64 p hp.plain, map-queued b64 ps hs)

map-IsFrame :
    (b64 : Base64) (ps : List Packet) → All IsText ps → All IsFrame (map (Packet.encode b64) ps)
map-IsFrame b64 [] h = tt
map-IsFrame b64 (p ∷ ps) (hp, hs) = (encode-IsFrame b64 p hp, map-IsFrame b64 ps hs)

-- Over a lawful base64, when the server has queued one or more packets of UTF-8 text for polling,
-- each of bytes, with some text if it is a message and with no separator, there is a response, and
-- its payload is these packets in order.
pub polled_text :
    (b64 : Base64)
    → IsLawful b64
    → (p : Packet) (ps : List Packet) → All IsText (p ∷ ps)
    → (bs : Bytes) × (build_polling_payload b64 (map (queued b64) (p ∷ ps)) ≡ some bs)
      × (decode b64 bs ≡ ok (p ∷ ps))
polled_text b64 lawful p ps h = (
  join (map (Packet.encode b64) (p ∷ ps)),
  rw (map-queued b64 (p ∷ ps) h) (build_frames b64 _ _ (map-IsFrame b64 (p ∷ ps) h)),
  rw
      (
        decode-split,
        split-join (map (Packet.encode b64) (p ∷ ps)) (cons-ne-nil _ _)
            (map-Lacks b64 lawful (p ∷ ps) sendable),
      )
      (decode_all-map b64 lawful (p ∷ ps) sendable),
)
  where
    sendable : All IsSendable (p ∷ ps)
    sendable = All-imp IsText IsSendable (λ q t. t.sendable) (p ∷ ps) h

-- What base64 makes of a byte string with a `b` in front begins with a `Y`, by its first six bits.
abbrev pub BeginsY : Base64 → Type 0
BeginsY b64 = (bs : Bytes) → (s : Str) × (b64.encode (b'b' ∷ bs) ≡ b'Y' ∷ s)

decode_Y :
    (b64 : Base64) (s : Bytes) → Packet.decode b64 (b'Y' ∷ s) ≡ err (invalid_packet_type b'Y')
unfolding Packet.decode
decode_Y b64 s = refl

decode_all_Y :
    (b64 : Base64) (s : Bytes) → decode_all b64 ((b'Y' ∷ s) ∷ []) ≡ err (invalid_packet_type b'Y')
unfolding decode_all
decode_all_Y b64 s = rw (decode_Y b64 s)

-- A binary packet that is polled is encoded as base64 twice: over a lawful base64 that gives `Y`
-- for a leading `b`, the response holds the encoding of the already encoded packet, and its first
-- piece, so the whole payload, is refused as a packet of type `Y`.
pub polled_binary :
    (b64 : Base64)
    → IsLawful b64
    → BeginsY b64
    → (c : Bytes)
    → let p : Packet = record { ptype = PacketType.message_binary; content = c } in
      let response : Str = b64.encode (b'b' ∷ b64.encode c) in
      (build_polling_payload b64 (queued b64 p ∷ []) ≡ some response)
      × (decode b64 response ≡ err (invalid_packet_type b'Y'))
unfolding build_polling_payload polling_body packet_data
polled_binary b64 lawful begins c =
    let (s, e) = begins (b64.encode c) in
    let clean : Lacks separator (b64.encode (b'b' ∷ b64.encode c)) =
      All-imp IsBase64 (λ d. d ≢ separator) (λ d. avoid separator d separator_not-IsBase64) _
        (lawful.alphabet (b'b' ∷ b64.encode c)) in
    (
      rw e (ap some (ap (◌∷◌ b'Y') (append-nil s))),
      rw (decode-split, e) (rw (split_single (b'Y' ∷ s) (rw e at clean)) (decode_all_Y b64 s)),
    )
