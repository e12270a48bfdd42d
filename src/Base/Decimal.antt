-- ===== src/Base/Decimal.antt =====
-- The decimal texts of unsigned integers: Rust's `to_string`, and `parse` with its overflow check
-- and its optional plus sign.
use socket_io.Base.Tests.{ltb, leb, if◌then◌else◌, ◌==◌, Bool-cases}
use socket_io.Base.Lists.{Str, All, All-append}
use Prim.Native.Nat.{ℕ, zero, suc, ◌+◌, ◌-◌, ◌*◌, ◌/◌, ◌%◌, ◌≤◌, ◌<◌}
use mathlib.Core.Path.{◌≡◌, refl}
use mathlib.Core.Logic.{◌≢◌, inl, inr}
use mathlib.Core.Bool.{Bool, true, false, ◌&&◌}
use mathlib.Core.Option.{Option, none, some}
use mathlib.Core.List.{[], ◌∷◌, ◌++◌, concat-ne-nil}
use native.Mathlib.Omega.{arith}

-- `char::is_ascii_digit`.
abbrev pub is_ascii_digit : ℕ → Bool
is_ascii_digit c = leb b'0' c && leb c b'9'

abbrev pub IsDigit : ℕ → Type 0
IsDigit c = (b'0' ≤ c) × (c ≤ b'9')

digits : ℕ → ℕ → Str
digits zero n = []
digits (suc f) n = elim (ltb n 10) [
  | true ↦ (b'0' + n) ∷ []
  | false ↦ digits f (n / 10) ++ (b'0' + n % 10) ∷ []
]

-- `n + 1` rounds are enough, since a round at least halves a positive number.
unfoldable pub to_string : ℕ → Str
unfolding digits
to_string n = digits (suc n) n

scan : ℕ → Str → ℕ → Option ℕ
scan largest [] n = some n
scan largest (c ∷ s) n =
    let m = n * 10 + (c - b'0') in
    elim (is_ascii_digit c && leb m largest) [ true ↦ scan largest s m | false ↦ none ]

parse_signless : ℕ → Str → Option ℕ
parse_signless largest [] = none
parse_signless largest (c ∷ s) = scan largest (c ∷ s) 0

-- `str::parse` for the unsigned type whose largest value is given.
unfoldable pub parse : ℕ → Str → Option ℕ
unfolding scan parse_signless
parse largest [] = none
parse largest (c ∷ s) =
    if c == b'+' then parse_signless largest s else parse_signless largest (c ∷ s)

digits-IsDigit : (f n : ℕ) → All IsDigit (digits f n)
unfolding digits
digits-IsDigit zero n = tt
digits-IsDigit (suc f) n = elim (Bool-cases (ltb n 10)) [
  | inl e ↦ rw (e, digits) (ground arith, tt)
  | inr e ↦
      rw (e, digits)
        (All-append _ (digits f (n / 10)) _ (digits-IsDigit f (n / 10)) (omega arith, tt))
]

pub to_string-IsDigit : (n : ℕ) → All IsDigit (to_string n)
unfolding to_string
to_string-IsDigit n = digits-IsDigit (suc n) n

scan-append :
    (largest : ℕ) (s : Str) (c n r : ℕ)
    → scan largest s n ≡ some r
    → scan largest (s ++ c ∷ []) n ≡ scan largest (c ∷ []) r
unfolding scan
scan-append largest [] c n r h = ground arith
scan-append largest (d ∷ s) c n r h =
    ground (arith, scan-append largest s c (n * 10 + (d - b'0')) r)

scan-digits : (largest f n : ℕ) → n < f → n ≤ largest → scan largest (digits f n) 0 ≡ some n
unfolding digits
scan-digits largest zero n h fits = elim h [ ]
scan-digits largest (suc f) n h fits = elim (Bool-cases (ltb n 10)) [
  | inl e ↦ rw (e, digits) (unfold scan in ground arith)
  | inr e ↦
      rw
        (
          e,
          digits,
          scan-append largest (digits f (n / 10)) (b'0' + n % 10) 0 (n / 10)
              (scan-digits largest f (n / 10) (ground arith) (omega arith)),
        )
        (unfold scan in ground arith)
]

digits-ne-nil : (f n : ℕ) → digits (suc f) n ≢ []
unfolding digits
digits-ne-nil f n = elim (Bool-cases (ltb n 10)) [
  | inl e ↦ rw (e, digits) (λ h. cc)
  | inr e ↦ rw (e, digits) (concat-ne-nil (b'0' + n % 10) (digits f (n / 10)))
]

pub to_string-ne-nil : (n : ℕ) → to_string n ≢ []
unfolding to_string
to_string-ne-nil n = digits-ne-nil n n

parse-scan :
    (largest n : ℕ) (s : Str)
    → s ≢ []
    → All IsDigit s
    → scan largest s 0 ≡ some n
    → parse largest s ≡ some n
unfolding parse
parse-scan largest n [] ne ds h = absurd (ne refl)
parse-scan largest n (c ∷ s) ne ds h = ground arith

-- A number that fits is read back from its decimal text.
pub parse-to_string : (largest n : ℕ) → n ≤ largest → parse largest (to_string n) ≡ some n
unfolding to_string
parse-to_string largest n fits =
    parse-scan largest n (digits (suc n) n) (digits-ne-nil n n) (digits-IsDigit (suc n) n)
      (scan-digits largest (suc n) n (omega arith) fits)
