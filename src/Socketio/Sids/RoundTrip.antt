-- ===== src/Socketio/Sids/RoundTrip.antt =====
-- socketio/src/server/server.rs: the engine.io id is found in the id of a socket.
use socket_io.Base.{
  ℕ, ◌<◌, ◌≡◌, ◌≢◌, refl, ap, ◌∙◌, [], ◌∷◌, ◌++◌, arith, some, Str, ==_ne, All, All-imp, All-append,
  IsByte, Lacks, inl,
}
use socket_io.Base.Utf8.{IsScalar, utf8, encode_char, from_utf8-utf8}
use socket_io.Base.Decimal.{to_string, IsDigit, to_string-IsDigit}
use socket_io.Engineio.External.{Base64, IsBase64, IsLawful}
use socket_io.Socketio.Sids.{first_token, engine_sid, generate, decode}

encode_char-IsByte : (c : ℕ) → IsScalar c → All IsByte (encode_char c)
unfolding encode_char
encode_char-IsByte c h = ground arith

utf8-IsByte : (s : Str) → All IsScalar s → All IsByte (utf8 s)
unfolding utf8
utf8-IsByte [] h = tt
utf8-IsByte (c ∷ s) (hc, h) =
    All-append IsByte (encode_char c) (utf8 s) (encode_char-IsByte c hc) (utf8-IsByte s h)

utf8_ascii : (s : Str) → All (λ c. c < 128) s → utf8 s ≡ s
unfolding utf8 encode_char
utf8_ascii [] h = refl
utf8_ascii (c ∷ s) (hc, h) = rw (utf8_ascii s h) (ground arith)

first_token-append : (esid rest : Str) → Lacks b'-' esid → first_token (esid ++ b'-' ∷ rest) ≡ esid
unfolding first_token
first_token-append [] rest h = refl
first_token-append (c ∷ esid) rest (hc, h) =
    rw (==_ne c b'-' hc, first_token-append esid rest h) refl

module _ (b64 : Base64) (lawful : IsLawful b64) where
  decode_text : (s : Str) → All IsScalar s → decode b64 (b64.encode (utf8 s)) ≡ some (first_token s)
  unfolding decode
  decode_text s h =
      let ascii : utf8 (b64.encode (utf8 s)) ≡ b64.encode (utf8 s) =
        utf8_ascii _
          (All-imp IsBase64 (λ c. c < 128) (λ c hc. omega arith) _ (lawful.alphabet (utf8 s))) in
      rw (decode, ascii, lawful.decode-encode (utf8 s) (utf8-IsByte s h), from_utf8-utf8 s h) refl

  generate_scalars : (n : ℕ) → All IsScalar (to_string n)
  generate_scalars n = All-imp IsDigit IsScalar (λ c h. inl (omega arith)) _ (to_string-IsDigit n)

  -- Over a lawful base64, the id of a socket is decoded to the id of the engine.io socket that it
  -- was made for, if this is text with no dash.
  pub decode-generate :
      (seq : ℕ) (esid : Str)
      → All IsScalar esid
      → Lacks b'-' esid
      → decode b64 (generate b64 seq esid).0 ≡ some esid
  unfolding generate
  decode-generate seq esid h clean =
      decode_text (esid ++ b'-' ∷ to_string seq)
        (All-append IsScalar esid _ h (inl (omega arith), generate_scalars seq))
      ∙ ap some (first_token-append esid (to_string seq) clean)

  -- Over a lawful base64, the id of a socket is decoded to the id that the engine.io server drew
  -- for the socket below it, whatever the two numbers that they are made of.
  pub decode-generate_engine :
      (seq n : ℕ) → decode b64 (generate b64 seq (engine_sid b64 n).0).0 ≡ some (engine_sid b64 n).0
  unfolding engine_sid
  decode-generate_engine seq n =
      let alphabet = lawful.alphabet (utf8 (to_string n)) in
      decode-generate seq (b64.encode (utf8 (to_string n)))
        (All-imp IsBase64 IsScalar (λ c h. inl (omega arith)) _ alphabet)
        (All-imp IsBase64 (λ c. c ≢ b'-') (λ c h e. omega arith) _ alphabet)
