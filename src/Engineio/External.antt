-- ===== src/Engineio/External.antt =====
-- Libraries that the code only calls: what it uses of them, and what their documentation
-- says. First base64, with its two functions.
use socket_io.Base.{ℕ, ◌-◌, ◌^◌, ◌≡◌, ◌⊎◌, ◌≤◌, List, Option, some, Bytes, Str, All, IsByte}

-- The characters of the standard alphabet, with the padding.
abbrev pub IsBase64 : ℕ → Type 0
IsBase64 c =
    ((b'A' ≤ c) × (c ≤ b'Z'))
    ⊎ ((b'a' ≤ c) × (c ≤ b'z'))
    ⊎ ((b'0' ≤ c) × (c ≤ b'9'))
    ⊎ (c ≡ b'+')
    ⊎ (c ≡ b'/')
    ⊎ (c ≡ b'=')

pub record Base64 : Type 0 where
  pub encode : Bytes → Str
  pub decode : Bytes → Option Bytes

-- Decoding inverts encoding, and an encoding is ASCII text in the alphabet.
pub record IsLawful (b : Base64) : Type 0 where
  pub decode-encode : (bs : Bytes) → All IsByte bs → b.decode (b.encode bs) ≡ some bs
  pub alphabet : (bs : Bytes) → All IsBase64 (b.encode bs)

-- The largest `usize` of a 64-bit target.
abbrev pub max_usize : ℕ
max_usize = 2 ^ 64 - 1

-- What the code reads of httparse's `Request`.
pub record Request : Type 0 where
  pub method : Option Str
  pub path : Option Str
  pub headers : List (Str × Bytes)

-- The libraries httparse and url: a complete request with at most 124 headers, with the length of
-- its head, and the decoded pairs in the query of a URL.
pub record HttpLibrary : Type 0 where
  pub parse : Bytes → Option (Request × ℕ)
  pub query_pairs : Str → Option (List (Str × Str))
