-- ===== src/Engineio/Payload/RoundTrip.antt =====
-- engineio/src/packet.rs: the bytes of a payload are decoded to its packets.
use socket_io.Base.{
  ℕ, suc, ◌≡◌, ◌≢◌, refl, ap, ◌∙◌, List, [], ◌∷◌, ◌++◌, map, append_assoc, arith, some, none, Bytes,
  ok, length, take-append, length-append, Lacks, All, IsByte,
}
use mathlib.Core.List.{cons-ne-nil}
use socket_io.Engineio.External.{Base64, IsLawful, IsBase64}
use socket_io.Engineio.Packet.{Packet, PacketType}
use socket_io.Engineio.Packet
use socket_io.Engineio.Packet.RoundTrip.{encode-Lacks, decode-encode}
use socket_io.Engineio.Payload.{separator, encode, encode_loop, drop_last, decode}
use socket_io.Engineio.Payload.Split.{join, decode_all, split-join, decode-split}

-- What a packet needs to be sent in a payload: bytes, some text in a text message, and no
-- separator in a text.
pub record IsSendable (p : Packet) : Type 0 where
  pub bytes : All IsByte p.content
  pub full : p.ptype ≡ PacketType.message → p.content ≢ []
  pub clean : p.ptype ≢ PacketType.message_binary → Lacks separator p.content

pub separator_not-IsBase64 : ¬ IsBase64 separator
separator_not-IsBase64 h = omega arith

module _ (b64 : Base64) where
  encode_loop-join :
      (p : Packet) (ps : List Packet) (buf : Bytes)
      → encode_loop b64 (p ∷ ps) buf
        ≡ (buf ++ join (map (Packet.encode b64) (p ∷ ps))) ++ separator ∷ []
  unfolding encode_loop join
  encode_loop-join p [] buf = refl
  encode_loop-join p (q ∷ ps) buf =
      encode_loop-join q ps ((buf ++ Packet.encode b64 p) ++ separator ∷ [])
      ∙ ap (λ s. s ++ separator ∷ [])
          (append_assoc (buf ++ Packet.encode b64 p) (separator ∷ []) _ ∙ append_assoc buf _ _)

  drop_last-snoc : (bs : Bytes) (b : ℕ) → drop_last (bs ++ b ∷ []) ≡ some bs
  unfolding drop_last
  drop_last-snoc [] b = refl
  drop_last-snoc (c ∷ bs) b =
      let e : length (bs ++ b ∷ []) ≡ suc (length bs) = omega (arith, length-append bs (b ∷ [])) in
      rw e (ap some (ap (◌∷◌ c) (take-append bs (b ∷ []))))

  -- A payload with a packet is the encodings of its packets with a separator between them.
  pub encode-join :
      (p : Packet) (ps : List Packet)
      → encode b64 (p ∷ ps) ≡ some (join (map (Packet.encode b64) (p ∷ ps)))
  unfolding encode
  encode-join p ps = rw (encode_loop-join p ps []) (drop_last-snoc _ separator)

module _ (b64 : Base64) (lawful : IsLawful b64) where
  pub map-Lacks :
      (ps : List Packet) → All IsSendable ps → All (Lacks separator) (map (Packet.encode b64) ps)
  map-Lacks [] h = tt
  map-Lacks (p ∷ ps) (hp, hs) =
      (encode-Lacks b64 lawful separator p separator_not-IsBase64 hp.clean, map-Lacks ps hs)

  pub decode_all-map :
      (ps : List Packet) → All IsSendable ps → decode_all b64 (map (Packet.encode b64) ps) ≡ ok ps
  unfolding decode_all
  decode_all-map [] h = refl
  decode_all-map (p ∷ ps) (hp, hs) =
      rw (decode-encode b64 lawful p hp.bytes hp.full, decode_all-map ps hs)

  -- Over a lawful base64, a payload of at least one packet, each of bytes, with some text if it is
  -- a text message and with no separator in a text, is encoded, and decoded to the same packets in
  -- the same order.
  pub decode-encode_packets :
      (ps : List Packet)
      → ps ≢ []
      → All IsSendable ps
      → (bs : Bytes) × (encode b64 ps ≡ some bs) × (decode b64 bs ≡ ok ps)
  decode-encode_packets [] ne h = absurd (ne refl)
  decode-encode_packets (p ∷ ps) ne h = (
    join (map (Packet.encode b64) (p ∷ ps)),
    encode-join b64 p ps,
    rw
        (
          decode-split,
          split-join (map (Packet.encode b64) (p ∷ ps)) (cons-ne-nil _ _) (map-Lacks (p ∷ ps) h),
        )
        (decode_all-map (p ∷ ps) h),
  )

-- The empty payload cannot be encoded: cutting off the last separator panics.
pub encode_empty : (b64 : Base64) → encode b64 [] ≡ none
unfolding encode
encode_empty b64 = refl
