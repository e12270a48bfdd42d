-- ===== src/Engineio/Packet/RoundTrip.antt =====
-- engineio/src/packet.rs: what decoding and encoding a packet have to do with one another.
use socket_io.Base.{
  ℕ, ◌≤◌, ◌≡◌, ◌≢◌, ◌⊎◌, ◌↔◌, refl, [], ◌∷◌, arith, Bytes, ok, err, All, All-imp, Lacks, subst,
  IsByte, inl,
}
use socket_io.Engineio.Error.{incomplete_packet}
use socket_io.Engineio.External.{Base64, IsLawful, IsBase64}
use socket_io.Engineio.Packet.{PacketType, Packet, decode, encode}

pub avoid : (s d : ℕ) → ¬ IsBase64 s → IsBase64 d → d ≢ s
avoid s d n h e = n (subst IsBase64 e h)

module _ (b64 : Base64) (lawful : IsLawful b64) where
  decode-encode_fields :
      (t : PacketType) (c : Bytes)
      → All IsByte c
      → (t ≡ PacketType.message → c ≢ [])
      → decode b64 (encode b64 (record { ptype = t; content = c }))
        ≡ ok (record { ptype = t; content = c })
  unfolding decode encode
  decode-encode_fields PacketType.open_ c h f = ground arith
  decode-encode_fields PacketType.message [] h f = absurd (f refl refl)
  decode-encode_fields PacketType.message (x ∷ c) h f = ground arith
  decode-encode_fields PacketType.message_binary c h f =
      rw (lawful.decode-encode c h) (ground arith)
  decode-encode_fields _ c h f = ground arith

  -- Over a lawful base64, every packet of bytes is decoded from its own encoding, unless it is a
  -- text message with no text.
  pub decode-encode :
      (p : Packet)
      → All IsByte p.content
      → (p.ptype ≡ PacketType.message → p.content ≢ [])
      → decode b64 (encode b64 p) ≡ ok p
  decode-encode p = decode-encode_fields p.ptype p.content

  encode-Lacks_fields :
      (s : ℕ) (t : PacketType) (c : Bytes)
      → ¬ IsBase64 s
      → (t ≢ PacketType.message_binary → Lacks s c)
      → Lacks s (encode b64 (record { ptype = t; content = c }))
  unfolding encode
  encode-Lacks_fields s PacketType.open_ c n h = (ground arith, h (λ e. cc))
  encode-Lacks_fields s PacketType.message_binary c n h =
      (ground arith, All-imp _ _ (λ d hd. avoid s d n hd) (b64.encode c) (lawful.alphabet c))
  encode-Lacks_fields s _ c n h = (ground arith, h (λ e. cc))

  -- A byte outside the base64 alphabet is in the encoding of a packet only if it is in its text.
  pub encode-Lacks :
      (s : ℕ) (p : Packet)
      → ¬ IsBase64 s
      → (p.ptype ≢ PacketType.message_binary → Lacks s p.content)
      → Lacks s (encode b64 p)
  encode-Lacks s p = encode-Lacks_fields s p.ptype p.content

module _ (b64 : Base64) where
  -- A packet of text is encoded as the bytes that it was decoded from, if these begin with the
  -- digit and not with its value.
  pub encode-decode :
      (b : ℕ) (rest : Bytes) (p : Packet)
      → b'0' ≤ b
      → b ≢ b'b'
      → decode b64 (b ∷ rest) ≡ ok p
      → encode b64 p ≡ b ∷ rest
  unfolding decode encode
  encode-decode b rest p digit text h = ground arith

  -- Exactly three byte strings are refused as incomplete.
  pub decode_incomplete_iff :
      (bs : Bytes)
      → (decode b64 bs ≡ err incomplete_packet) ↔ ((bs ≡ []) ⊎ (bs ≡ 4 ∷ []) ⊎ (bs ≡ b'4' ∷ []))
  unfolding decode
  decode_incomplete_iff [] = (λ h. inl refl, λ h. refl)
  decode_incomplete_iff (b ∷ []) = (λ h. ground arith, λ h. ground arith)
  decode_incomplete_iff (b ∷ c ∷ bs) = (λ h. ground arith, λ h. ground arith)
