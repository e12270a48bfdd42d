-- ===== src/Socketio/Incoming.antt =====
-- socketio/src/socket.rs: the payload that a callback gets, from the data of a packet and from its
-- attachments.
pub mod RoundTrip
use socket_io.Base.{
  ℕ, zero, suc, ◌+◌, ◌≡◌, List, [], ◌∷◌, ◌++◌, map, Bool, true, false, ◌&&◌, Option, none, some,
  Bytes, Str, ◌==◌, if◌then◌else◌, ok, err, ok_or, ◌>>=◌, length, get_elem?, drop,
}
use socket_io.Socketio.Error.{Result, invalid_packet}
use socket_io.Socketio.External.{Json}
use socket_io.Socketio.Event.{Event, from_string, message_text}
use socket_io.Socketio.Payload.{Payload, RawPayload, from_raw}
use socket_io.Socketio.Packet.{Packet}
use socket_io.Socketio.Raw.{placeholder_key, num_key}

module _ (j : Json) where
  -- What the loop pushes for a placeholder.
  unfoldable pub decode_place_holder : j.Value → Option (List Bytes) → Result (RawPayload j)
  decode_place_holder value attachments = ok_or (j.get value num_key) invalid_packet >>= λ num.
      ok_or (j.as_u64 num) invalid_packet >>= λ index. elim attachments [
        | some atts ↦ ok_or (get_elem? atts index) invalid_packet >>= λ b. ok (RawPayload.binary b)
        | none ↦ err invalid_packet
      ]

  unfoldable pub decode_value : j.Value → Option (List Bytes) → Result (RawPayload j)
  unfolding decode_place_holder
  decode_value value attachments = elim (j.get value placeholder_key) [
    | some x ↦ decode_place_holder value attachments
    | none ↦ ok (RawPayload.json value)
  ]

  -- The loop over the values, with their index.
  unfoldable pub decode_loop :
      List j.Value
      → ℕ
      → Option (List Bytes)
      → Bool
      → List (RawPayload j)
      → Result (List (RawPayload j))
  decode_loop [] index attachments skip_event vec = ok vec
  decode_loop (v ∷ vs) index attachments skip_event vec =
      let next = decode_value v attachments >>= λ p.
      decode_loop vs (index + 1) attachments skip_event (vec ++ p ∷ []) in
      let skip = decode_loop vs (index + 1) attachments skip_event vec in
      if skip_event && index == 0 then skip else next

  -- One payload stands for itself.
  unfoldable pub collapse : List (RawPayload j) → Payload j
  unfolding from_raw
  collapse [] = Payload.multi []
  collapse (p ∷ []) = from_raw j p
  collapse (p ∷ q ∷ ps) = Payload.multi (p ∷ q ∷ ps)

  unfoldable pub decode_binary : List j.Value → Option (List Bytes) → Bool → Result (Payload j)
  unfolding decode_loop collapse
  decode_binary vec attachments skip_event =
      decode_loop vec 0 attachments skip_event [] >>= λ ps. ok (collapse ps)

  abbrev ok_value : {A : Type 0} → Result A → Option A
  ok_value (ok a) = some a
  ok_value (err e) = none

  unfoldable pub decode_binary_payload :
      Option j.Value → Option (List Bytes) → Bool → Option (Payload j)
  unfolding decode_binary
  decode_binary_payload content attachments skip_event = elim content [
    | none ↦ none
    | some v ↦ elim (j.as_array v) [
      | none ↦ none
      | some vec ↦ ok_value (decode_binary vec attachments skip_event)
    ]
  ]

  unfoldable pub decode_contents : List j.Value → Bool → Option (Payload j)
  decode_contents [] skip_event = none
  decode_contents (v ∷ []) skip_event = some (Payload.json v)
  decode_contents (v ∷ w ∷ []) true = some (Payload.json w)
  decode_contents (v ∷ w ∷ []) false = some (Payload.multi (map RawPayload.json (v ∷ w ∷ [])))
  decode_contents (v ∷ w ∷ x ∷ vs) skip_event =
      some (Payload.multi (map RawPayload.json (if skip_event then w ∷ x ∷ vs else v ∷ w ∷ x ∷ vs)))

  unfoldable pub decode_event_payload : Option j.Value → Bool → Option (Payload j)
  unfolding decode_contents
  decode_event_payload content skip_event = elim content [
    | none ↦ none
    | some v ↦ elim (j.as_array v) [
      | none ↦ none
      | some contents ↦ decode_contents contents skip_event
    ]
  ]

  -- The event that `handle_event` finds: the first of at least two values, if it is a text.
  unfoldable pub event_of_contents : List j.Value → Event
  event_of_contents [] = Event.message
  event_of_contents (v ∷ []) = Event.message
  event_of_contents (v ∷ w ∷ vs) = elim (j.as_str v) [
    | some e ↦ from_string e
    | none ↦ from_string message_text
  ]

  -- The event that `handle_binary_event` finds: the value or the first value, if it is a text.
  abbrev pub event_of_first : List j.Value → Event
  event_of_first [] = Event.message
  event_of_first (v ∷ vs) = elim (j.as_str v) [ some e ↦ from_string e | none ↦ Event.message ]

  unfoldable pub event_of_binary : Option j.Value → Event
  event_of_binary none = Event.message
  event_of_binary (some v) = elim (j.as_str v) [
    | some e ↦ from_string e
    | none ↦ elim (j.as_array v) [ some vs ↦ event_of_first vs | none ↦ Event.message ]
  ]
