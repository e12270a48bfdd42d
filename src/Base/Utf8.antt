-- ===== src/Base/Utf8.antt =====
-- The UTF-8 of Rust's `String`: `String::from_utf8` and the bytes of a text.
use Prim.Native.Nat.{ℕ, zero, suc, ◌+◌, ◌-◌, ◌*◌, ◌/◌, ◌%◌, ◌≤◌, ◌<◌}
use mathlib.Core.Path.{◌≡◌, refl, sym, subst, ◌∙◌}
use mathlib.Core.Logic.{◌⊎◌, inl, inr}
use mathlib.Core.Bool.{Bool, ◌&&◌, ◌||◌}
use mathlib.Core.Option.{Option, none, some}
use mathlib.Core.Option
use mathlib.Core.List.{[], ◌∷◌, ◌++◌, append_assoc}
use native.Mathlib.Omega.{arith}
use socket_io.Base.Tests.{ltb, leb, if◌then◌else◌, Bool-cases}
use socket_io.Base.Lists.{Bytes, Str, All}

-- A Unicode scalar value, the values of `char`.
abbrev pub IsScalar : ℕ → Type 0
IsScalar c = (c < 0xd800) ⊎ ((0xe000 ≤ c) × (c < 0x110000))

abbrev is_scalar : ℕ → Bool
is_scalar c = ltb c 0xd800 || (leb 0xe000 c && ltb c 0x110000)

-- Between two characters, or `more` bytes from the end of one that must be `least` or above.
pub data State : Type 0 where
  idle : State
  more : (left so_far least : ℕ) → State

-- One byte: a character that it completes, and the state behind it.
step : State → ℕ → Option (Option ℕ × State)
step idle b =
    if ltb b 0x80
    then some (some b, idle)
    else if ltb b 0xc0
    then none
    else if ltb b 0xe0
    then some (none, more 0 (b - 0xc0) 0x80)
    else if ltb b 0xf0
    then some (none, more 1 (b - 0xe0) 0x800)
    else if ltb b 0xf8
    then some (none, more 2 (b - 0xf0) 0x10000)
    else none
step (more zero so_far least) b =
    let c = so_far * 64 + (b - 0x80) in
    if leb 0x80 b && ltb b 0xc0 && leb least c && is_scalar c then some (some c, idle) else none
step (more (suc k) so_far least) b =
    if leb 0x80 b && ltb b 0xc0 then some (none, more k (so_far * 64 + (b - 0x80)) least) else none

abbrev emit : Option ℕ → Option Str → Option Str
emit none r = r
emit (some c) r = Option.map (λ s. c ∷ s) r

run : State → Bytes → Option Str
run idle [] = some []
run (more k a l) [] = none
run st (b ∷ bs) = elim (step st b) [ none ↦ none | some (o, st') ↦ emit o (run st' bs) ]

-- `String::from_utf8`: the characters, or `none` at an ill-formed sequence.
unfoldable pub from_utf8 : Bytes → Option Str
unfolding run step
from_utf8 = run idle

unfoldable pub encode_char : ℕ → Bytes
encode_char c =
    if ltb c 0x80
    then c ∷ []
    else if ltb c 0x800
    then (0xc0 + c / 64) ∷ (0x80 + c % 64) ∷ []
    else if ltb c 0x10000
    then (0xe0 + c / 4096) ∷ (0x80 + c / 64 % 64) ∷ (0x80 + c % 64) ∷ []
    else (0xf0 + c / 262144) ∷ (0x80 + c / 4096 % 64) ∷ (0x80 + c / 64 % 64) ∷ (0x80 + c % 64) ∷ []

-- `String::as_bytes`.
unfoldable pub utf8 : Str → Bytes
unfolding encode_char
utf8 [] = []
utf8 (c ∷ s) = encode_char c ++ utf8 s

step_two : (x : ℕ) → x < 32 → step idle (0xc0 + x) ≡ some (none, more 0 x 0x80)
unfolding step
step_two x h = ground arith

step_three : (x : ℕ) → x < 16 → step idle (0xe0 + x) ≡ some (none, more 1 x 0x800)
unfolding step
step_three x h = ground arith

step_four : (x : ℕ) → x < 8 → step idle (0xf0 + x) ≡ some (none, more 2 x 0x10000)
unfolding step
step_four x h = ground arith

step_more :
    (k a l y : ℕ) → y < 64 → step (more (suc k) a l) (0x80 + y) ≡ some (none, more k (a * 64 + y) l)
unfolding step
step_more k a l y h = ground arith

step_last :
    (a l y : ℕ)
    → y < 64
    → l ≤ a * 64 + y
    → IsScalar (a * 64 + y)
    → step (more 0 a l) (0x80 + y) ≡ some (some (a * 64 + y), idle)
unfolding step
step_last a l y h m s = ground arith

-- The steps of a run, whatever the state.
run_next :
    (st st' : State) (b : ℕ) (bs : Bytes) (o : Option ℕ)
    → step st b ≡ some (o, st')
    → run st (b ∷ bs) ≡ emit o (run st' bs)
unfolding run
run_next idle st' b bs o e = rw (e, run)
run_next (more k a l) st' b bs o e = rw (e, run)

-- The last byte of a character.
last :
    (a l c : ℕ) (bs : Bytes)
    → a * 64 + c % 64 ≡ c
    → l ≤ c
    → IsScalar c
    → run (more 0 a l) ((0x80 + c % 64) ∷ bs) ≡ emit (some c) (run idle bs)
last a l c bs e m s =
    run_next _ idle _ _ (some c)
      (step_last a l (c % 64) (omega arith) (omega arith) (subst IsScalar (sym e) s) ∙ rw e)

-- A character of two bytes or more: its first byte, its middle bytes and its last.
encode_two :
    (c : ℕ) (bs : Bytes)
    → 0x80 ≤ c
    → c < 0x800
    → run idle ((0xc0 + c / 64) ∷ (0x80 + c % 64) ∷ bs) ≡ emit (some c) (run idle bs)
encode_two c bs l h =
    run_next _ _ _ _ _ (step_two (c / 64) (omega arith))
    ∙ last (c / 64) 0x80 c bs (omega arith) l (inl (omega arith))

encode_three :
    (c : ℕ) (bs : Bytes)
    → 0x800 ≤ c
    → c < 0x10000
    → IsScalar c
    → run idle ((0xe0 + c / 4096) ∷ (0x80 + c / 64 % 64) ∷ (0x80 + c % 64) ∷ bs)
      ≡ emit (some c) (run idle bs)
encode_three c bs l h s =
    run_next _ _ _ _ _ (step_three (c / 4096) (omega arith))
    ∙ run_next _ _ _ _ _ (step_more 0 (c / 4096) 0x800 (c / 64 % 64) (omega arith))
    ∙ last (c / 4096 * 64 + c / 64 % 64) 0x800 c bs (omega arith) l s

encode_four :
    (c : ℕ) (bs : Bytes)
    → 0x10000 ≤ c
    → IsScalar c
    → run idle
        ((0xf0 + c / 262144) ∷ (0x80 + c / 4096 % 64) ∷ (0x80 + c / 64 % 64) ∷ (0x80 + c % 64) ∷ bs)
      ≡ emit (some c) (run idle bs)
encode_four c bs l s =
    run_next _ _ _ _ _ (step_four (c / 262144) (omega arith))
    ∙ run_next _ _ _ _ _ (step_more 1 (c / 262144) 0x10000 (c / 4096 % 64) (omega arith))
    ∙ run_next _ _ _ _ _
        (step_more 0 (c / 262144 * 64 + c / 4096 % 64) 0x10000 (c / 64 % 64) (omega arith))
    ∙ last ((c / 262144 * 64 + c / 4096 % 64) * 64 + c / 64 % 64) 0x10000 c bs (omega arith) l s

run-encode_char :
    (c : ℕ) (bs : Bytes) → IsScalar c → run idle (encode_char c ++ bs) ≡ emit (some c) (run idle bs)
unfolding encode_char
run-encode_char c bs s = elim (Bool-cases (ltb c 0x80)) [
  | inl e ↦ rw e (run_next idle idle c bs (some c) (unfold step in ground arith))
  | inr e ↦ elim (Bool-cases (ltb c 0x800)) [
    | inl e' ↦ rw (e, e') (encode_two c bs (ground arith) (ground arith))
    | inr e' ↦ elim (Bool-cases (ltb c 0x10000)) [
      | inl e'' ↦ rw (e, e', e'') (encode_three c bs (ground arith) (ground arith) s)
      | inr e'' ↦ rw (e, e', e'') (encode_four c bs (ground arith) s)
    ]
  ]
]

-- A text is read back from its bytes.
pub from_utf8-utf8 : (s : Str) → All IsScalar s → from_utf8 (utf8 s) ≡ some s
unfolding from_utf8 utf8
from_utf8-utf8 [] h = refl
from_utf8-utf8 (c ∷ s) (hc, hs) = rw (run-encode_char c (utf8 s) hc, from_utf8-utf8 s hs)

pub from_utf8_ascii :
    (c : ℕ) (bs : Bytes) (s : Str)
    → c < 0x80
    → from_utf8 bs ≡ some s
    → from_utf8 (c ∷ bs) ≡ some (c ∷ s)
unfolding from_utf8
from_utf8_ascii c bs s h e = run_next idle idle c bs (some c) (unfold step in ground arith) ∙ rw e

pub utf8-append : (s t : Str) → utf8 (s ++ t) ≡ utf8 s ++ utf8 t
unfolding utf8
utf8-append [] t = refl
utf8-append (c ∷ s) t = rw (utf8-append s t) (sym (append_assoc (encode_char c) (utf8 s) (utf8 t)))
