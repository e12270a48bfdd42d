-- ===== src/Socketio/Packet/Text.antt =====
-- socketio/src/packet.rs: the characters that the writer puts in front of the data of a packet, and
-- the bytes of the whole.
use socket_io.Base.{
  ℕ, ◌<◌, ◌≢◌, [], ◌∷◌, arith, Option, none, some, Str, Lacks, All, All-imp, All-append, Bool-cases,
  inl, inr, list_eq,
}
use socket_io.Base.Utf8.{encode_char, utf8}
use socket_io.Base.Decimal.{to_string, IsDigit, to_string-IsDigit}
use socket_io.Socketio.External.{Json}
use socket_io.Socketio.Packet.{
  PacketType, Packet, root, count_text, nsp_text, id_text, is_binary, type_to_u8, header,
}

-- A predicate of digits, the dash and the comma is one of all that stands in front of the data, if
-- it is one of the namespace.
module _ (j : Json) (P : ℕ → Type 0) (digit : (c : ℕ) → IsDigit c → P c) (dash : P b'-')
    (comma : P b',') where
  to_string-All : (n : ℕ) → All P (to_string n)
  to_string-All n = All-imp IsDigit P digit _ (to_string-IsDigit n)

  count_text-All : (t : PacketType) (n : ℕ) → All P (count_text t n)
  count_text-All t n = elim (Bool-cases (is_binary t)) [
    | inl b ↦ rw b (All-append P (to_string n) _ (to_string-All n) (dash, tt))
    | inr b ↦ rw b tt
  ]

  nsp_text-All : (nsp : Str) → All P nsp → All P (nsp_text nsp)
  nsp_text-All nsp h = elim (Bool-cases (list_eq nsp root)) [
    | inl b ↦ rw b tt
    | inr b ↦ rw b (All-append P nsp _ h (comma, tt))
  ]

  id_text-All : (id : Option ℕ) → All P (id_text id)
  id_text-All none = tt
  id_text-All (some n) = to_string-All n

  pub header-All : (p : Packet j) → All P p.nsp → All P (header j p)
  unfolding header
  header-All p h = All-append P _ _ (to_string-All (type_to_u8 p.ptype)) (
      All-append P _ _ (count_text-All p.ptype p.attachment_count)
        (All-append P _ _ (nsp_text-All p.nsp h) (id_text-All p.id)))

-- The bytes of a text with no control character `b` have none either.
encode_char-Lacks : (b c : ℕ) → b < 0x80 → c ≢ b → Lacks b (encode_char c)
unfolding encode_char
encode_char-Lacks b c l n = ground arith

pub utf8-Lacks : (b : ℕ) (s : Str) → b < 0x80 → Lacks b s → Lacks b (utf8 s)
unfolding utf8
utf8-Lacks b [] l h = tt
utf8-Lacks b (c ∷ s) l (hc, hs) =
    All-append (λ d. d ≢ b) (encode_char c) (utf8 s) (encode_char-Lacks b c l hc)
      (utf8-Lacks b s l hs)
