-- ===== src/Socketio/Payload.antt =====
-- socketio/src/payload.rs: the data that a user sends or receives.
use socket_io.Base.{List, [], ◌∷◌, map, Option, none, some, Bytes}
use socket_io.Socketio.External.{Json}

pub data RawPayload (j : Json) : Type 0 where
  binary : Bytes → RawPayload j
  json : j.Value → RawPayload j

pub data Payload (j : Json) : Type 0 where
  binary : Bytes → Payload j
  json : j.Value → Payload j
  multi : List (RawPayload j) → Payload j

module _ (j : Json) where
  -- `impl From<Value> for Payload`, and that of bytes in their three types.
  unfoldable pub from_value : j.Value → Payload j
  from_value value = Payload.json value

  unfoldable pub from_bytes : Bytes → Payload j
  from_bytes bytes = Payload.binary bytes

  -- `impl From<Value> for RawPayload`, and that of bytes.
  unfoldable pub raw_from_value : j.Value → RawPayload j
  raw_from_value value = RawPayload.json value

  unfoldable pub raw_from_bytes : Bytes → RawPayload j
  raw_from_bytes bytes = RawPayload.binary bytes

  -- `impl From<RawPayload> for Payload`.
  unfoldable pub from_raw : RawPayload j → Payload j
  from_raw (RawPayload.json v) = Payload.json v
  from_raw (RawPayload.binary b) = Payload.binary b

  -- `impl From<Option<Value>> for Payload`.
  unfoldable pub from_option : Option j.Value → Payload j
  from_option none = Payload.json j.null
  from_option (some v) = Payload.json v

  -- `impl From<Vec<Value>> for Payload`.
  unfoldable pub from_values : List j.Value → Payload j
  unfolding raw_from_value
  from_values [] = Payload.multi []
  from_values (v ∷ []) = Payload.json v
  from_values (v ∷ w ∷ vs) = Payload.multi (map raw_from_value (v ∷ w ∷ vs))
