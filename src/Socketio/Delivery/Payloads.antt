-- ===== src/Socketio/Delivery/Payloads.antt =====
-- What the other end of a connection makes of the events that an end emits over it.
use socket_io.Base.{ℕ, ◌≡◌, ◌≢◌, refl, sym, ap, ◌∙◌, List, [], ◌∷◌, ◌++◌, map, Option, none, some}
use socket_io.Socketio.External.{Json, IsLawful}
use socket_io.Socketio.Event.{Event, from_string, into_string}
use socket_io.Socketio.Payload.{Payload, RawPayload, from_raw}
use socket_io.Socketio.Raw.{encode_data, event_values}
use socket_io.Socketio.Incoming.{
  decode_event_payload, decode_contents, collapse, event_of_contents, event_of_binary,
}
use socket_io.Socketio.Incoming.RoundTrip.{is_some, raws, binaries, placed, encode_data-placed}

module _ (j : Json) where
  -- Parts without bytes are their values.
  values_of_parts :
      (n : ℕ) (ps : List (RawPayload j))
      → binaries j ps ≡ []
      → (vs : List j.Value) × (ps ≡ map RawPayload.json vs) × (placed j n ps ≡ vs)
  values_of_parts n [] e = ([], refl, refl)
  values_of_parts n (RawPayload.binary b ∷ ps) e = cc e
  values_of_parts n (RawPayload.json v ∷ ps) e =
      let (vs, f, g) = values_of_parts n ps e in
      (v ∷ vs, ap (◌∷◌ (RawPayload.json v)) f, ap (◌∷◌ v) g)

  decode_contents_parts :
      (event : Option Event) (vs : List j.Value)
      → vs ≢ []
      → decode_contents j (event_values j event ++ vs) (is_some event)
        ≡ some (collapse j (map RawPayload.json vs))
  unfolding decode_contents collapse from_raw
  decode_contents_parts event [] n = absurd (n refl)
  decode_contents_parts none (v ∷ []) n = refl
  decode_contents_parts none (v ∷ w ∷ []) n = refl
  decode_contents_parts none (v ∷ w ∷ x ∷ vs) n = refl
  decode_contents_parts (some e) (v ∷ []) n = refl
  decode_contents_parts (some e) (v ∷ w ∷ vs) n = refl

module _ (j : Json) (lawful : IsLawful j) where
  -- A payload of some parts, none of them bytes, is found in a packet of text.
  pub decode_event_payload-encode_data :
      (event : Option Event) (payload : Payload j)
      → raws j payload ≢ []
      → (encode_data j event payload).1 ≡ []
      → decode_event_payload j (some (encode_data j event payload).0) (is_some event)
        ≡ some (collapse j (raws j payload))
  unfolding decode_event_payload
  decode_event_payload-encode_data event payload n e =
      let (vs, f, g) = values_of_parts j 0 (raws j payload) (ap (λ r. r.1) (sym placed_data) ∙ e) in
      ap (λ r. decode_event_payload j (some r.0) (is_some event)) placed_data
      ∙ rw (decode_event_payload, lawful.as_array-array, g)
          (decode_contents_parts j event vs (λ h. n (f ∙ ap (map RawPayload.json) h))
            ∙ ap (λ ps. some (collapse j ps)) (sym f))
    where
      placed_data : encode_data j event payload ≡ (
        j.array (event_values j event ++ placed j 0 (raws j payload)),
        binaries j (raws j payload),
      )
      placed_data = encode_data-placed j event payload

  -- The event is found too, in a packet of text and in one with attachments.
  pub event_of_contents-encode_data :
      (e : Event) (payload : Payload j)
      → raws j payload ≢ []
      → event_of_contents j (event_values j (some e) ++ placed j 0 (raws j payload))
        ≡ from_string (into_string e)
  unfolding event_of_contents
  event_of_contents-encode_data e payload n = from (raws j payload) n
    where
      from :
          (ps : List (RawPayload j))
          → ps ≢ []
          → event_of_contents j (event_values j (some e) ++ placed j 0 ps)
            ≡ from_string (into_string e)
      from [] n = absurd (n refl)
      from (RawPayload.binary b ∷ ps) n = rw (lawful.as_str-string)
      from (RawPayload.json v ∷ ps) n = rw (lawful.as_str-string)

  pub event_of_binary-encode_data :
      (e : Event) (payload : Payload j)
      → event_of_binary j (some (encode_data j (some e) payload).0) ≡ from_string (into_string e)
  unfolding event_of_binary
  event_of_binary-encode_data e payload =
      ap (λ r. event_of_binary j (some r.0)) (encode_data-placed j (some e) payload)
      ∙ rw (event_of_binary, lawful.as_str-array, lawful.as_array-array, lawful.as_str-string)
