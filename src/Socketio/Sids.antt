-- ===== src/Socketio/Sids.antt =====
-- socketio/src/server/server.rs, `SidGenerator`, and engineio/src/server/server.rs, `SidGenerator`:
-- the ids of sockets, which hold the id of the engine.io socket below.
pub mod RoundTrip
use socket_io.Base.{ℕ, ◌+◌, ◌%◌, ◌^◌, [], ◌∷◌, ◌++◌, Option, none, some, Str, ◌==◌, if◌then◌else◌}
use socket_io.Base.Utf8.{from_utf8, utf8}
use socket_io.Base.Decimal.{to_string}
use socket_io.Engineio.External.{Base64}

-- `split('-')` has a first token, which ends at the first dash.
unfoldable pub first_token : Str → Str
first_token [] = []
first_token (c ∷ s) = let rest = first_token s in if c == b'-' then [] else c ∷ rest

module _ (b64 : Base64) where
  -- The id, and the next value of `seq`.
  unfoldable pub engine_sid : ℕ → Str × ℕ
  engine_sid seq = (b64.encode (utf8 (to_string seq)), (seq + 1) % 2 ^ 64)

  unfoldable pub generate : ℕ → Str → Str × ℕ
  generate seq esid = (b64.encode (utf8 (esid ++ b'-' ∷ to_string seq)), (seq + 1) % 2 ^ 64)

  unfoldable pub decode : Str → Option Str
  unfolding first_token
  decode sid = elim (b64.decode (utf8 sid)) [
    | none ↦ none
    | some sid_vec ↦ elim (from_utf8 sid_vec) [
      | none ↦ none
      | some esid_sid ↦ some (first_token esid_sid)
    ]
  ]
