-- ===== src/Engineio/Payload.antt =====
-- engineio/src/packet.rs: a payload, several packets with a separator between them, and the
-- polling response that the server builds from queued packets.
pub mod Split
pub mod RoundTrip
pub mod Polling
use socket_io.Base.{
  ℕ, zero, suc, ◌+◌, ◌-◌, ◌≡◌, refl, List, [], ◌∷◌, ◌++◌, Bool, true, false, Option, none, some,
  Bytes, ◌==◌, if◌then◌else◌, ok, err, ◌>>=◌, length, take, drop, get_elem?, is_empty,
}
use socket_io.Base.Utf8.{from_utf8}
use socket_io.Engineio.Error.{Result}
use socket_io.Engineio.External.{Base64}
use socket_io.Engineio.Packet.{Packet}
use socket_io.Engineio.Packet

abbrev pub separator : ℕ
separator = 0x1e

-- `bytes.slice(from..to)`, within bounds.
abbrev pub slice : ℕ → ℕ → Bytes → Bytes
slice from to bs = take (to - from) (drop from bs)

-- The test of the loop; the index is below the length, so there is a byte.
abbrev pub at_separator : Option ℕ → Bool
at_separator none = false
at_separator (some c) = c == separator

abbrev pub is_separator : Bytes → ℕ → Bool
is_separator bs i = at_separator (get_elem? bs i)

-- `buf.split_off(buf.len() - 1)`; `none` is the panic at an empty buffer.
drop_last : Bytes → Option Bytes
drop_last [] = none
drop_last (b ∷ bs) = some (take (length bs) (b ∷ bs))

some_text : Bytes → Option Bytes
some_text [] = none
some_text (b ∷ bs) = some (b ∷ bs)

module _ (b64 : Base64) where
  -- The `for` loop with its last packet. The first argument counts the rounds left.
  decode_loop : ℕ → ℕ → ℕ → List Packet → Bytes → Result (List Packet)
  decode_loop zero i last vec payload =
      Packet.decode b64 (slice last (length payload) payload) >>= λ p. ok (vec ++ p ∷ [])
  decode_loop (suc k) i last vec payload = elim (is_separator payload i) [
    | true ↦ Packet.decode b64 (slice last i payload) >>= λ p.
        decode_loop k (i + 1) (i + 1) (vec ++ p ∷ []) payload
    | false ↦ decode_loop k (i + 1) last vec payload
  ]

  -- `impl TryFrom<Bytes> for Payload`.
  unfoldable pub decode : Bytes → Result (List Packet)
  unfolding decode_loop
  decode payload = decode_loop (length payload) 0 0 [] payload

  encode_loop : List Packet → Bytes → Bytes
  encode_loop [] buf = buf
  encode_loop (p ∷ ps) buf = encode_loop ps ((buf ++ Packet.encode b64 p) ++ separator ∷ [])

  -- `impl TryFrom<Payload> for Bytes`.
  unfoldable pub encode : List Packet → Option Bytes
  unfolding encode_loop drop_last
  encode ps = drop_last (encode_loop ps [])

  -- What one round of `build_polling_payload` appends.
  unfoldable pub polling_text : Bytes → Bytes
  polling_text [] = []
  polling_text (b ∷ bs) =
      if b == b'b'
      then b64.encode (b ∷ bs)
      else elim (from_utf8 (b ∷ bs)) [ some s ↦ b ∷ bs | none ↦ [] ]

  polling_loop : List Bytes → Bytes → Option Bytes
  unfolding polling_text
  polling_loop [] payload = some payload
  polling_loop ([] ∷ rest) payload = none
  polling_loop ((b ∷ bs) ∷ rest) payload =
      polling_loop rest
        ((payload ++ polling_text (b ∷ bs)) ++ (if is_empty rest then [] else separator ∷ []))

  -- `build_polling_payload`: the text's bytes.
  unfoldable pub build_polling_payload : List Bytes → Option Bytes
  unfolding polling_loop some_text
  build_polling_payload byte_vec = elim (polling_loop byte_vec []) [
    | none ↦ none
    | some payload ↦ some_text payload
  ]
