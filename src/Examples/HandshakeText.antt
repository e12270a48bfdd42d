-- ===== src/Examples/HandshakeText.antt =====
-- A stand-in for the text of a handshake: its fields, character by character, with an end for each.
use socket_io.Base.{
  ℕ, ◌≡◌, sym, ap, ◌∙◌, List, [], ◌∷◌, ◌++◌, append_assoc, append-nil, arith, Option, none, some,
  Bytes, Str, ◌==◌, if◌then◌else◌, All, All-imp,
}
use socket_io.Base.Decimal.{to_string, parse, parse-to_string, to_string-IsDigit, IsDigit}
use socket_io.Base.Utf8.{IsScalar, from_utf8, utf8, from_utf8-utf8}
use socket_io.Engineio.External.{max_usize}
use socket_io.Engineio.Handshake.{HandshakePacket, HandshakeJson, IsHandshake, IsLawful}

put_text : Str → Str → Str
put_text [] rest = 2 ∷ rest
put_text (c ∷ s) rest = 1 ∷ c ∷ put_text s rest

put_texts : List Str → Str
unfolding put_text
put_texts [] = []
put_texts (t ∷ ts) = put_text t (put_texts ts)

get_texts : Str → Str → List Str → List Str
get_texts [] so_far ts = ts
get_texts (m ∷ []) so_far ts = ts ++ so_far ∷ []
get_texts (m ∷ c ∷ rest) so_far ts =
    let next = get_texts (c ∷ rest) [] (ts ++ so_far ∷ []) in
    let more = get_texts rest (so_far ++ c ∷ []) ts in if m == 2 then next else more

get_texts-put_text :
    (s rest so_far : Str) (ts : List Str)
    → get_texts (put_text s rest) so_far ts ≡ get_texts rest [] (ts ++ (so_far ++ s) ∷ [])
unfolding get_texts put_text
get_texts-put_text [] [] so_far ts = ap (λ t. ts ++ t ∷ []) (sym (append-nil so_far))
get_texts-put_text [] (c ∷ rest) so_far ts =
    ap (λ t. get_texts (c ∷ rest) [] (ts ++ t ∷ [])) (sym (append-nil so_far))
get_texts-put_text (c ∷ s) rest so_far ts =
    get_texts-put_text s rest (so_far ++ c ∷ []) ts
    ∙ ap (λ t. get_texts rest [] (ts ++ t ∷ [])) (append_assoc so_far (c ∷ []) s)

get_texts-put_texts : (us ts : List Str) → get_texts (put_texts us) [] ts ≡ ts ++ us
unfolding get_texts put_texts
get_texts-put_texts [] ts = sym (append-nil ts)
get_texts-put_texts (u ∷ us) ts =
    get_texts-put_text u (put_texts us) [] ts
    ∙ get_texts-put_texts us (ts ++ u ∷ [])
    ∙ append_assoc ts (u ∷ []) us

put_text_scalars :
    (s rest : Str) → All IsScalar s → All IsScalar rest → All IsScalar (put_text s rest)
unfolding put_text
put_text_scalars [] rest h r = (omega arith, r)
put_text_scalars (c ∷ s) rest (hc, hs) r = (omega arith, (hc, put_text_scalars s rest hs r))

put_texts_scalars : (ts : List Str) → All (All IsScalar) ts → All IsScalar (put_texts ts)
unfolding put_texts
put_texts_scalars [] h = tt
put_texts_scalars (t ∷ ts) (ht, hs) = put_text_scalars t (put_texts ts) ht (put_texts_scalars ts hs)

-- The fields of a handshake, and the handshake of some fields.
fields : HandshakePacket → List Str
fields h =
    to_string h.ping_interval
    ∷ to_string h.ping_timeout
    ∷ to_string h.max_payload
    ∷ h.sid
    ∷ h.upgrades

from_numbers : Str → List Str → Option ℕ → Option ℕ → Option ℕ → Option HandshakePacket
from_numbers sid upgrades (some i) (some t) (some p) = some (record {
  sid = sid;
  upgrades = upgrades;
  ping_interval = i;
  ping_timeout = t;
  max_payload = p;
})
from_numbers sid upgrades _ _ _ = none

from_fields : List Str → Option HandshakePacket
unfolding from_numbers
from_fields (i ∷ t ∷ p ∷ sid ∷ upgrades) =
    from_numbers sid upgrades (parse max_usize i) (parse max_usize t) (parse max_usize p)
from_fields _ = none

unfoldable pub print : HandshakePacket → Str
unfolding put_texts fields
print h = put_texts (fields h)

read_text : Option Str → Option HandshakePacket
unfolding get_texts from_fields
read_text none = none
read_text (some s) = from_fields (get_texts s [] [])

unfoldable pub read : Bytes → Option HandshakePacket
unfolding read_text
read bs = read_text (from_utf8 bs)

digits_scalars : (n : ℕ) → All IsScalar (to_string n)
digits_scalars n = All-imp IsDigit IsScalar (λ c d. omega arith) (to_string n) (to_string-IsDigit n)

fields_scalars : (h : HandshakePacket) → IsHandshake h → All (All IsScalar) (fields h)
unfolding fields
fields_scalars h fits = (
  digits_scalars h.ping_interval,
  (
    digits_scalars h.ping_timeout,
    (digits_scalars h.max_payload, (fits.sid_scalars, fits.upgrade_scalars)),
  ),
)

from_fields_lem : (h : HandshakePacket) → IsHandshake h → from_fields (fields h) ≡ some h
unfolding from_fields fields from_numbers
from_fields_lem h fits = rw (
  parse-to_string max_usize h.ping_interval fits.interval_fits,
  parse-to_string max_usize h.ping_timeout fits.timeout_fits,
  parse-to_string max_usize h.max_payload fits.payload_fits,
)

read-print : (h : HandshakePacket) → IsHandshake h → read (utf8 (print h)) ≡ some h
unfolding read print read_text
read-print h fits =
    ap read_text
      (from_utf8-utf8 (put_texts (fields h)) (put_texts_scalars (fields h) (fields_scalars h fits)))
    ∙ ap from_fields (get_texts-put_texts (fields h) [])
    ∙ from_fields_lem h fits

abbrev pub plain : HandshakeJson
plain = record { to_string = print; from_slice = read }

pub plain-IsLawful : IsLawful plain
plain-IsLawful = read-print
