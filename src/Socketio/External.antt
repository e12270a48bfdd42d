-- ===== src/Socketio/External.antt =====
-- The library serde_json, which the code only calls: the values and functions that it uses, and
-- what the documentation says of them.
use socket_io.Base.{
  ℕ, ◌-◌, ◌^◌, ◌≤◌, ◌≡◌, List, [], ◌∷◌, Option, none, some, Bool, Str, list_eq, if◌then◌else◌,
}

-- The largest `u64`, and the largest `usize` of a 64-bit target.
abbrev pub max_u64 : ℕ
max_u64 = 2 ^ 64 - 1

-- `as_array` and `as_str` are the patterns `Value::Array` and `Value::String`.
pub record Json : Type 1 where
  pub Value : Type 0
  pub null : Value
  pub bool : Bool → Value
  pub number : ℕ → Value
  pub string : Str → Value
  pub array : List Value → Value
  pub object : List (Str × Value) → Value
  pub as_array : Value → Option (List Value)
  pub as_str : Value → Option Str
  pub as_u64 : Value → Option ℕ
  pub get : Value → Str → Option Value
  pub to_string : Value → Str
  pub from_str : Str → Option Value

abbrev pub lookup : {A : Type 0} → Str → List (Str × A) → Option A
lookup k [] = none
lookup k ((j, v) ∷ fs) = if list_eq j k then some v else lookup k fs

-- Constructors are told apart and give back what they hold, and an array is written in brackets.
pub record IsLawful (j : Json) : Type 0 where
  pub as_array-array : (vs : List j.Value) → j.as_array (j.array vs) ≡ some vs
  pub as_str-array : (vs : List j.Value) → j.as_str (j.array vs) ≡ none
  pub as_str-string : (s : Str) → j.as_str (j.string s) ≡ some s
  pub as_u64-number : (n : ℕ) → n ≤ max_u64 → j.as_u64 (j.number n) ≡ some n
  pub get-object : (k : Str) (fs : List (Str × j.Value)) → j.get (j.object fs) k ≡ lookup k fs
  pub to_string-array : (vs : List j.Value) → (s : Str) × (j.to_string (j.array vs) ≡ b'[' ∷ s)
