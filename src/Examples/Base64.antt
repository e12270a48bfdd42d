-- ===== src/Examples/Base64.antt =====
-- A stand-in for the library base64: two letters for each byte, from the same alphabet.
use socket_io.Base.{
  ℕ, ◌+◌, ◌-◌, ◌*◌, ◌/◌, ◌%◌, ◌<◌, ◌≡◌, refl, [], ◌∷◌, arith, Option, none, some, Bytes, Str, ltb,
  if◌then◌else◌, All, IsByte,
}
use mathlib.Core.Option
use socket_io.Engineio.External.{Base64, IsLawful, IsBase64}

letter : ℕ → ℕ
letter h = if ltb h 8 then b'S' + h else b'a' + (h - 8)

value : ℕ → ℕ
value c = if ltb c b'a' then c - b'S' else c - b'a' + 8

unfoldable pub letters : Bytes → Str
unfolding letter
letters [] = []
letters (b ∷ bs) = letter (b / 16 % 16) ∷ letter (b % 16) ∷ letters bs

unfoldable pub bytes : Str → Option Bytes
unfolding value
bytes [] = some []
bytes (c ∷ []) = none
bytes (c ∷ d ∷ s) = Option.map (λ bs. (value c * 16 + value d) ∷ bs) (bytes s)

value-letter : (h : ℕ) → h < 16 → value (letter h) ≡ h
unfolding value letter
value-letter h l = ground arith

letter-IsBase64 : (h : ℕ) → h < 16 → IsBase64 (letter h)
unfolding letter
letter-IsBase64 h l = ground arith

abbrev pub two_letters : Base64
two_letters = record { encode = letters; decode = bytes }

bytes-letters : (bs : Bytes) → All IsByte bs → bytes (letters bs) ≡ some bs
unfolding bytes letters
bytes-letters [] h = refl
bytes-letters (b ∷ bs) (hb, hs) =
    rw (bytes-letters bs hs) (
      ground (arith, value-letter (b / 16 % 16) (omega arith), value-letter (b % 16) (omega arith)))

letters-IsBase64 : (bs : Bytes) → All IsBase64 (letters bs)
unfolding letters
letters-IsBase64 [] = tt
letters-IsBase64 (b ∷ bs) = (
  letter-IsBase64 (b / 16 % 16) (omega arith),
  (letter-IsBase64 (b % 16) (omega arith), letters-IsBase64 bs),
)

pub two_letters-IsLawful : IsLawful two_letters
two_letters-IsLawful = record { decode-encode = bytes-letters; alphabet = letters-IsBase64 }
