-- ===== src/Socketio/Incoming/RoundTrip.antt =====
-- socketio/src/socket.rs: the receiver finds the payload that the sender took apart.
use socket_io.Base.{
  ℕ, suc, ◌+◌, ◌≤◌, ◌≡◌, refl, ap, ◌∙◌, List, [], ◌∷◌, ◌++◌, append-nil, arith, Bool, true, false,
  ◌&&◌, Option, none, some, Bytes, ◌==◌, ok, length, length-append, get_elem?, get_elem?-append,
  snoc-append, All,
}
use socket_io.Socketio.External.{Json, IsLawful, max_u64}
use socket_io.Socketio.Event.{Event}
use socket_io.Socketio.Payload.{Payload, RawPayload}
use socket_io.Socketio.Raw.{
  Buffers, placeholder_key, num_key, place_holder, process_multi, process_payload, event_values,
  encode_data,
}
use socket_io.Socketio.Incoming.{
  decode_place_holder, decode_value, decode_loop, collapse, decode_binary, decode_binary_payload,
}

length_snoc {ℓ} : {A : Type ℓ} (xs : List A) (x : A) → length (xs ++ x ∷ []) ≡ suc (length xs)
length_snoc xs x = omega (arith, length-append xs (x ∷ []))

later : (skip : Bool) (index : ℕ) → (skip && index + 1 == 0) ≡ false
later skip index = ground arith

abbrev pub is_some {ℓ} : {A : Type ℓ} → Option A → Bool
is_some none = false
is_some (some a) = true

module _ (j : Json) where
  -- The parts of a payload, in order.
  abbrev pub raws : Payload j → List (RawPayload j)
  raws (Payload.binary b) = RawPayload.binary b ∷ []
  raws (Payload.json v) = RawPayload.json v ∷ []
  raws (Payload.multi ps) = ps

  abbrev pub binaries : List (RawPayload j) → List Bytes
  binaries [] = []
  binaries (RawPayload.binary b ∷ ps) = b ∷ binaries ps
  binaries (RawPayload.json v ∷ ps) = binaries ps

  -- No object of the payload has the key by which placeholders are known.
  abbrev pub IsPlain : RawPayload j → Type 0
  IsPlain (RawPayload.binary b) = Unit {0}
  IsPlain (RawPayload.json v) = j.get v placeholder_key ≡ none

  -- The values of the parts, behind `n` attachments.
  abbrev pub placed : ℕ → List (RawPayload j) → List j.Value
  placed n [] = []
  placed n (RawPayload.binary b ∷ ps) = place_holder j n ∷ placed (suc n) ps
  placed n (RawPayload.json v ∷ ps) = v ∷ placed n ps

  process_multi-placed :
      (ps : List (RawPayload j)) (vs : List j.Value) (atts : List Bytes)
      → process_multi j (vs, atts) ps ≡ (vs ++ placed (length atts) ps, atts ++ binaries ps)
  unfolding process_multi
  process_multi-placed [] vs atts = rw (append-nil vs, append-nil atts)
  process_multi-placed (RawPayload.binary b ∷ ps) vs atts =
      process_multi-placed ps (vs ++ place_holder j (length atts) ∷ []) (atts ++ b ∷ [])
      ∙ rw (
        length_snoc atts b,
        snoc-append vs (place_holder j (length atts)) (placed (suc (length atts)) ps),
        snoc-append atts b (binaries ps),
      )
  process_multi-placed (RawPayload.json v ∷ ps) vs atts =
      process_multi-placed ps (vs ++ v ∷ []) atts ∙ rw (snoc-append vs v (placed (length atts) ps))

  process_payload-multi :
      (b : Buffers j) (p : Payload j) → process_payload j b p ≡ process_multi j b (raws p)
  unfolding process_payload
  process_payload-multi b (Payload.binary bin) = refl
  process_payload-multi b (Payload.json v) = refl
  process_payload-multi b (Payload.multi ps) = refl

  -- What the sender makes of a payload: the values of its parts behind the event, and its
  -- attachments.
  pub encode_data-placed :
      (event : Option Event) (payload : Payload j)
      → encode_data j event payload
        ≡ (j.array (event_values j event ++ placed 0 (raws payload)), binaries (raws payload))
  unfolding encode_data
  encode_data-placed event payload = rw (
    process_payload-multi (event_values j event, []) payload,
    process_multi-placed (raws payload) (event_values j event) [],
  )

module _ (j : Json) (lawful : IsLawful j) where
  get_placeholder : (n : ℕ) → j.get (place_holder j n) placeholder_key ≡ some (j.bool true)
  unfolding place_holder
  get_placeholder n = lawful.get-object placeholder_key _

  get_num : (n : ℕ) → j.get (place_holder j n) num_key ≡ some (j.number n)
  unfolding place_holder
  get_num n = lawful.get-object num_key _

  decode_value-place_holder :
      (n : ℕ) (atts : List Bytes) (b : Bytes)
      → n ≤ max_u64
      → get_elem? atts n ≡ some b
      → decode_value j (place_holder j n) (some atts) ≡ ok (RawPayload.binary b)
  unfolding decode_value
  decode_value-place_holder n atts b fits e =
      rw
        (
          decode_value,
          get_placeholder n,
          decode_place_holder,
          get_num n,
          lawful.as_u64-number n fits,
          e,
        )
        refl

  decode_value-json :
      (v : j.Value) (atts : Option (List Bytes))
      → j.get v placeholder_key ≡ none
      → decode_value j v atts ≡ ok (RawPayload.json v)
  unfolding decode_value
  decode_value-json v atts e = rw (decode_value, e)

  decode_loop-cons :
      (v : j.Value) (vs : List j.Value) (index : ℕ) (atts : Option (List Bytes)) (skip : Bool)
      (vec : List (RawPayload j)) (p : RawPayload j)
      → (skip && index == 0) ≡ false
      → decode_value j v atts ≡ ok p
      → decode_loop j (v ∷ vs) index atts skip vec
        ≡ decode_loop j vs (index + 1) atts skip (vec ++ p ∷ [])
  unfolding decode_loop
  decode_loop-cons v vs index atts skip vec p e d = rw (decode_loop, e, d) refl

  decode_loop-placed :
      (ps : List (RawPayload j)) (pre : List Bytes) (index : ℕ) (skip : Bool)
      (vec : List (RawPayload j))
      → (skip && index == 0) ≡ false
      → All (IsPlain j) ps
      → length (pre ++ binaries j ps) ≤ max_u64
      → decode_loop j (placed j (length pre) ps) index (some (pre ++ binaries j ps)) skip vec
        ≡ ok (vec ++ ps)
  decode_loop-placed [] pre index skip vec e plain fits = unfold decode_loop in rw (append-nil vec)
  decode_loop-placed (RawPayload.binary b ∷ ps) pre index skip vec e (_, plain) fits =
      decode_loop-cons _ _ index _ skip vec (RawPayload.binary b) e (
        decode_value-place_holder (length pre) _ b
          (omega (arith, length-append pre (b ∷ binaries j ps)))
          (get_elem?-append pre (b ∷ binaries j ps)))
      ∙ rw (← length_snoc pre b, ← snoc-append pre b (binaries j ps))
          (decode_loop-placed ps (pre ++ b ∷ []) (index + 1) skip (vec ++ RawPayload.binary b ∷ [])
              (later skip index) plain (rw (snoc-append pre b (binaries j ps)) fits)
            ∙ ap ok (snoc-append vec (RawPayload.binary b) ps))
  decode_loop-placed (RawPayload.json v ∷ ps) pre index skip vec e (hv, plain) fits =
      decode_loop-cons v _ index _ skip vec (RawPayload.json v) e (decode_value-json v _ hv)
      ∙ decode_loop-placed ps pre (index + 1) skip (vec ++ RawPayload.json v ∷ [])
          (later skip index) plain fits
      ∙ ap ok (snoc-append vec (RawPayload.json v) ps)

  decode_array :
      (vs : List j.Value) (atts : Option (List Bytes)) (skip : Bool) (ps : List (RawPayload j))
      → decode_loop j vs 0 atts skip [] ≡ ok ps
      → decode_binary_payload j (some (j.array vs)) atts skip ≡ some (collapse j ps)
  unfolding decode_binary_payload decode_binary
  decode_array vs atts skip ps e =
      rw (decode_binary_payload, lawful.as_array-array vs, decode_binary, e) refl

  decode_loop_skip :
      (v : j.Value) (vs : List j.Value) (atts : Option (List Bytes))
      → decode_loop j (v ∷ vs) 0 atts true [] ≡ decode_loop j vs 1 atts true []
  unfolding decode_loop
  decode_loop_skip v vs atts = refl

  decode_loop_event :
      (event : Option Event) (ps : List (RawPayload j))
      → All (IsPlain j) ps
      → length (binaries j ps) ≤ max_u64
      → decode_loop j
          (event_values j event ++ placed j 0 ps)
          0
          (some (binaries j ps))
          (is_some event)
          []
        ≡ ok ps
  decode_loop_event none ps plain fits = decode_loop-placed ps [] 0 false [] refl plain fits
  decode_loop_event (some e) ps plain fits =
      decode_loop_skip _ (placed j 0 ps) (some (binaries j ps))
      ∙ decode_loop-placed ps [] 1 true [] refl plain fits

  -- Over a lawful JSON library: from the data and the attachments that the sender made of a
  -- payload, with or without an event, the receiver makes the same payload, with a single part in
  -- place of a list of one. The payload has no object with the key of the placeholders, and its
  -- attachments can be counted.
  pub decode-encode_data :
      (event : Option Event) (payload : Payload j)
      → All (IsPlain j) (raws j payload)
      → length (binaries j (raws j payload)) ≤ max_u64
      → let (content, attachments) = encode_data j event payload in
        decode_binary_payload j (some content) (some attachments) (is_some event)
        ≡ some (collapse j (raws j payload))
  decode-encode_data event payload plain fits = rw (encode_data-placed j event payload) (
      decode_array _ _ (is_some event) (raws j payload)
        (decode_loop_event event (raws j payload) plain fits))
