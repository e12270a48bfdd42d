-- ===== src/Socketio/Packet/RoundTrip.antt =====
-- socketio/src/packet.rs: a packet is decoded from its own bytes, which keep all of it but the
-- attachments, and the id where there is no data.
use socket_io.Base.{
  ℕ, ◌≡◌, ◌≢◌, refl, sym, ap, ◌∙◌, [], ◌∷◌, ◌++◌, append_assoc, arith, false, Option, none, some,
  Str, ok, Lacks, All, All-append, inl,
}
use socket_io.Base.Utf8.{IsScalar, from_utf8, utf8-append, from_utf8-utf8}
use socket_io.Base.Decimal.{to_string, is_ascii_digit, IsDigit, to_string-IsDigit}
use socket_io.Socketio.External.{Json}
use socket_io.Socketio.Packet.{
  PacketType, Packet, count_text, nsp_text, id_text, is_binary, type_to_u8, decode_content,
  decode_id, decode_count, decode_text, decode, header, content_text, encode,
}
use socket_io.Socketio.Packet.Text.{header-All}
use socket_io.Socketio.Packet.Scan.{
  HeadNot, CountFits, IdFits, counted, decode_count-text, decode_nsp-text, decode_id-text,
  decode_id_end, some_content_lem,
}

-- What the writer needs of a packet, apart from its data: a namespace with a slash in front and no
-- comma, numbers that fit their types, a count of zero unless the packet is binary, and
-- attachments left to the socket.
pub record IsSendable (j : Json) (p : Packet j) : Type 0 where
  pub path : Str
  pub nsp_path : p.nsp ≡ b'/' ∷ path
  pub no_comma : Lacks b',' path
  pub scalars : All IsScalar path
  pub count_fits : CountFits (is_binary p.ptype) p.attachment_count
  pub id_fits : IdFits p.id
  pub bare : p.attachments ≡ none

-- A value whose text is read back, and is no number, nor the empty array.
pub record IsReadable (j : Json) (v : j.Value) : Type 0 where
  pub first : ℕ
  pub rest : Str
  pub text : j.to_string v ≡ first ∷ rest
  pub not_digit : is_ascii_digit first ≡ false
  pub not_slash : first ≢ b'/'
  pub scalars : All IsScalar (j.to_string v)
  pub read : j.from_str (j.to_string v) ≡ some v
  pub not_empty : j.as_array v ≢ some []

module _ (j : Json) where
  header-IsScalar : (p : Packet j) → IsSendable j p → All IsScalar (header j p)
  header-IsScalar p s =
      header-All j IsScalar (λ c h. inl (omega arith)) (inl (omega arith)) (inl (omega arith)) p
        (rw s.nsp_path (inl (omega arith), s.scalars))

  -- The bytes are those of one text, which is read back.
  pub from_utf8-encode :
      (p : Packet j)
      → IsSendable j p
      → All IsScalar (content_text j p.content)
      → from_utf8 (encode j p) ≡ some (header j p ++ content_text j p.content)
  unfolding encode
  from_utf8-encode p s h =
      rw (← utf8-append (header j p) (content_text j p.content))
        (from_utf8-utf8 _ (All-append IsScalar _ _ (header-IsScalar p s) h))

  decode-encode_text :
      (p : Packet j)
      → IsSendable j p
      → All IsScalar (content_text j p.content)
      → decode j (encode j p) ≡ decode_text j (header j p ++ content_text j p.content)
  unfolding decode
  decode-encode_text p s h = rw (from_utf8-encode p s h)

  decode_type :
      (t : PacketType) (s : Str)
      → decode_text j (to_string (type_to_u8 t) ++ s) ≡ decode_count j t s
  unfolding decode_text type_to_u8 to_string
  decode_type PacketType.connect s = refl
  decode_type _ s = refl

  decode_header :
      (p : Packet j) (s : IsSendable j p) (d : Str)
      → HeadNot b'/' (id_text p.id ++ d)
      → decode_text j (header j p ++ d)
        ≡ decode_id j
            (record (counted j p.ptype p.attachment_count) { nsp = p.nsp })
            (id_text p.id ++ d)
  unfolding header
  decode_header p s d h =
      rw
        (
          append_assoc (to_string (type_to_u8 p.ptype)) _ d,
          append_assoc (count_text p.ptype p.attachment_count) _ d,
          append_assoc (nsp_text p.nsp) (id_text p.id) d,
          decode_type p.ptype _,
          decode_count-text j p.ptype p.attachment_count _ s.count_fits,
          s.nsp_path,
        )
        (decode_nsp-text j p.ptype p.attachment_count s.path _ s.no_comma h)

  id_text-HeadNot : (id : Option ℕ) (d : Str) → HeadNot b'/' d → HeadNot b'/' (id_text id ++ d)
  id_text-HeadNot none d h = h
  id_text-HeadNot (some n) d h = digits-HeadNot (to_string n) d (to_string-IsDigit n) h
    where
      digits-HeadNot : (ds d : Str) → All IsDigit ds → HeadNot b'/' d → HeadNot b'/' (ds ++ d)
      digits-HeadNot [] d _ h = h
      digits-HeadNot (c ∷ ds) d (hc, _) h = λ e. omega arith

  decode_content-text :
      (p : Packet j) (v : j.Value)
      → IsReadable j v
      → decode_content j p (j.to_string v) ≡ ok (record p { content = some v })
  unfolding decode_content
  decode_content-text p v r = rw (r.read, some_content_lem j v r.not_empty)

  -- A packet with data is decoded from its own bytes, if its namespace begins with a slash and has
  -- no comma, its numbers fit their types, its count is zero unless it is binary, its attachments
  -- are left to the socket, and its data is read back from a text that begins with no digit and no
  -- slash, and is not the empty array.
  pub decode-encode_content :
      (p : Packet j) (v : j.Value)
      → p.content ≡ some v
      → IsSendable j p
      → IsReadable j v
      → decode j (encode j p) ≡ ok p
  decode-encode_content p v e s r =
      decode-encode_text p s (rw e r.scalars)
      ∙ ap (λ d. decode_text j (header j p ++ d)) (ap (content_text j) e ∙ r.text)
      ∙ decode_header p s (r.first ∷ r.rest) (id_text-HeadNot p.id (r.first ∷ r.rest) r.not_slash)
      ∙ decode_id-text j _ p.id r.first r.rest s.id_fits r.not_digit
      ∙ ap (decode_content j _) (sym r.text)
      ∙ decode_content-text _ v r
      ∙ (λ i. ok (record p { content = sym e i; attachments = sym s.bare i }))

  -- Without data, all of such a packet is decoded from its bytes, but the id, which is dropped.
  pub decode-encode_no_content :
      (p : Packet j)
      → p.content ≡ none
      → IsSendable j p
      → decode j (encode j p) ≡ ok (record p { id = none })
  decode-encode_no_content p e s =
      decode-encode_text p s (rw e tt)
      ∙ ap (λ d. decode_text j (header j p ++ d)) (ap (content_text j) e)
      ∙ decode_header p s [] (id_text-HeadNot p.id [] tt)
      ∙ decode_id_end j _ p.id
      ∙ (λ i. ok (record p { content = sym e i; id = none; attachments = sym s.bare i }))
