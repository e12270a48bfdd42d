-- ===== src/Engineio/Socket/Wire.antt =====
-- Two engine.io sockets at the ends of a websocket: engineio/src/socket/socket.rs and
-- engineio/src/transports/websocket.rs. What one emits, as the stream of the other yields it.
use socket_io.Base.{
  ℕ, suc, ◌≡◌, ◌≢◌, ◌↔◌, ◌⊎◌, refl, sym, ap, ◌∙◌, List, [], ◌∷◌, ◌++◌, map, arith, Option, none,
  some, Bytes, Str, ok, err, ◌==◌, ◌>>=◌, length, Lacks, Bool-cases, inl, inr, if_true, if_false,
}
use socket_io.Base.Utf8.{from_utf8, from_utf8_ascii}
use socket_io.Engineio.Error.{Result}
use socket_io.Engineio.External.{Base64}
use socket_io.Engineio.Packet.{Packet, PacketType, decode, encode, type_try_from, type_to_string}
use socket_io.Engineio.Payload.{separator}
use socket_io.Engineio.Payload as Payload
use socket_io.Engineio.Payload.Split.{
  split, split_single, split-ne-nil, push_front, decode_all, decode-split,
}
use socket_io.Engineio.Transport.{Data, Message, packet_data, to_message, poll_next, discriminant}
use socket_io.Engineio.Socket.Stream.{stream, parsed, stream-decode}

-- All that `WebsocketTransport` yields.
unfoldable pub items : List (Result Message) → List (Result Bytes)
unfolding poll_next
items [] = []
items (m ∷ rest) = elim (poll_next (m ∷ [])).0 [ none ↦ items rest | some r ↦ r ∷ items rest ]

abbrev behind_item : Option (Result Bytes) × List (Result Message) → List (Result Bytes)
behind_item (none, rest) = []
behind_item (some r, rest) = r ∷ items rest

-- They are what `poll_next` returns, again and again until it returns `none`.
items-poll_next : (ms : List (Result Message)) → items ms ≡ behind_item (poll_next ms)
unfolding items poll_next
items-poll_next [] = refl
items-poll_next (ok (Message.text s) ∷ rest) = refl
items-poll_next (ok (Message.binary d) ∷ rest) = refl
items-poll_next (ok (Message.other d) ∷ rest) = items-poll_next rest
items-poll_next (err e ∷ rest) = refl

module _ (b64 : Base64) where
  -- What the other end's stream yields for what was emitted, in front of other messages.
  abbrev pub received_stream : List Data → List (Result Message) → List (Result Packet)
  received_stream ds rest = stream b64 (items (map to_message ds ++ rest))

  abbrev pub plain_message : Bytes → Packet
  plain_message c = record { ptype = PacketType.message; content = c }

  abbrev pub binary_message : Bytes → Packet
  binary_message c = record { ptype = PacketType.message_binary; content = c }

  decode_message :
      (t : ℕ) (c : Bytes)
      → (t ≡ 4) ⊎ (t ≡ b'4')
      → c ≢ []
      → decode b64 (t ∷ c) ≡ ok (plain_message c)
  unfolding decode type_try_from
  decode_message t [] h full = absurd (full refl)
  decode_message t (x ∷ c) (inl e) full = rw e refl
  decode_message t (x ∷ c) (inr e) full = rw e refl

  pub decode_single :
      (t : ℕ) (c : Bytes)
      → (t ≡ 4) ⊎ (t ≡ b'4')
      → c ≢ []
      → Lacks separator c
      → Payload.decode b64 (t ∷ c) ≡ ok (plain_message c ∷ [])
  decode_single t c h full clean =
      decode-split b64 (t ∷ c)
      ∙ ap (decode_all b64) (split_single (t ∷ c) (omega (arith, h), clean))
      ∙ (unfold decode_all in rw (decode_message t c h full))

  received_bytes :
      (d : Data) (bytes c : Bytes) (ds : List Data) (rest : List (Result Message))
      → ((ms : List (Result Message)) → items (to_message d ∷ ms) ≡ ok bytes ∷ items ms)
      → Payload.decode b64 bytes ≡ ok (plain_message c ∷ [])
      → received_stream (d ∷ ds) rest ≡ ok (plain_message c) ∷ received_stream ds rest
  received_bytes d bytes c ds rest e f =
      ap (stream b64) (e (map to_message ds ++ rest))
      ∙ stream-decode b64 bytes (plain_message c ∷ []) (items (map to_message ds ++ rest)) f

  items_text :
      (d : Bytes) (s : Str) (ms : List (Result Message))
      → from_utf8 d ≡ some s
      → items (to_message (Data.text d) ∷ ms) ≡ ok d ∷ items ms
  unfolding items to_message poll_next
  items_text d s ms e = rw (to_message, e, items)

  items_binary :
      (d : Bytes) (ms : List (Result Message))
      → items (to_message (Data.binary d) ∷ ms) ≡ ok (4 ∷ d) ∷ items ms
  unfolding items to_message poll_next discriminant
  items_binary d ms = refl

  packet_data-plain : (c : Bytes) → packet_data b64 (plain_message c) ≡ Data.text (b'4' ∷ c)
  unfolding packet_data encode type_to_string
  packet_data-plain c = refl

  packet_data-binary : (c : Bytes) → packet_data b64 (binary_message c) ≡ Data.binary c
  unfolding packet_data
  packet_data-binary c = refl

  -- A message of text arrives as it was sent: one of some text, with no separator in it.
  pub received_plain :
      (c : Bytes) (s : Str) (ds : List Data) (rest : List (Result Message))
      → from_utf8 c ≡ some s
      → c ≢ []
      → Lacks separator c
      → received_stream (packet_data b64 (plain_message c) ∷ ds) rest
        ≡ ok (plain_message c) ∷ received_stream ds rest
  received_plain c s ds rest e full clean = rw (packet_data-plain c) (
      received_bytes (Data.text (b'4' ∷ c)) (b'4' ∷ c) c ds rest
        (λ ms. items_text (b'4' ∷ c) (b'4' ∷ s) ms (from_utf8_ascii b'4' c s (omega arith) e))
        (decode_single b'4' c (inr refl) full clean))

  -- A binary message with some bytes and no separator among them arrives as a plain one.
  pub received_bytes_of_binary :
      (c : Bytes) (ds : List Data) (rest : List (Result Message))
      → c ≢ []
      → Lacks separator c
      → received_stream (packet_data b64 (binary_message c) ∷ ds) rest
        ≡ ok (plain_message c) ∷ received_stream ds rest
  received_bytes_of_binary c ds rest full clean = rw (packet_data-binary c) (
      received_bytes (Data.binary c) (4 ∷ c) c ds rest (items_binary c)
        (decode_single 4 c (inl refl) full clean))

length-push_front : (c : ℕ) (ps : List Bytes) → ps ≢ [] → length (push_front c ps) ≡ length ps
unfolding push_front
length-push_front c [] h = absurd (h refl)
length-push_front c (p ∷ ps) h = refl

-- There is one piece only where there is no separator.
split_one : (c : Bytes) → length (split c) ≡ 1 → Lacks separator c
unfolding split
split_one [] h = tt
split_one (x ∷ c) h = elim (Bool-cases (x == separator)) [
  | inl e ↦ absurd (two_pieces (split c) (split-ne-nil c) (ap length (sym (if_true _ _ _ e)) ∙ h))
  | inr e ↦ (
    ground arith,
    split_one c (
        sym (length-push_front x (split c) (split-ne-nil c))
        ∙ ap length (sym (if_false _ _ _ e))
        ∙ h),
  )
]
  where
    two_pieces : (ps : List Bytes) → ps ≢ [] → ¬ (length ([] ∷ ps) ≡ 1)
    two_pieces [] n e = n refl
    two_pieces (p ∷ ps) n e = omega arith

length-decode_all :
    (b64 : Base64) (bs : List Bytes) (ps : List Packet)
    → decode_all b64 bs ≡ ok ps
    → length ps ≡ length bs
length-decode_all b64 [] ps h = unfold decode_all in cc h
length-decode_all b64 (b ∷ bs) ps h =
    let (q, qs, e, f) = found (decode b64 b) (decode_all b64 bs) ps (unfold decode_all in h) in
    ap length f ∙ ap suc (length-decode_all b64 bs qs e)
  where
    found :
        (r : Result Packet) (rs : Result (List Packet)) (ps : List Packet)
        → (r >>= λ p. rs >>= λ ps. ok (p ∷ ps)) ≡ ok ps
        → (q : Packet) × (qs : List Packet) × (rs ≡ ok qs) × (ps ≡ q ∷ qs)
    found (ok p) (ok qs) ps h = (p, qs, refl, cc h)
    found (ok p) (err e) ps h = cc h
    found (err e) rs ps h = cc h

-- The bytes of a stream that yields one packet are a payload with just that one.
stream_one :
    (b64 : Base64) (bytes : Bytes) (p : Packet)
    → stream b64 (ok bytes ∷ []) ≡ ok p ∷ []
    → Payload.decode b64 bytes ≡ ok (p ∷ [])
stream_one b64 bytes p h = from (Payload.decode b64 bytes) (unfold stream in h)
  where
    from : (r : Result (List Packet)) → parsed b64 r [] ≡ ok p ∷ [] → r ≡ ok (p ∷ [])
    from (ok (q ∷ [])) h = cc h
    from (ok []) h = cc h
    from (ok (q ∷ r ∷ ps)) h = cc h
    from (err e) h = cc h

empty_fails :
    (b64 : Base64) (c : Bytes) (ps : List Packet) → decode_all b64 (split (4 ∷ c)) ≡ ok ps → c ≢ []
unfolding decode_all split push_front decode type_try_from
empty_fails b64 [] ps h = cc h
empty_fails b64 (x ∷ c) ps h = λ e. cc

-- A binary message arrives at the other end of a websocket, as a plain message with its bytes and
-- nothing else, exactly if it has some bytes and none of them is the separator of payloads.
pub binary_arrives_iff :
    (b64 : Base64) (c : Bytes)
    → (received_stream b64 (packet_data b64 (binary_message b64 c) ∷ []) []
        ≡ ok (plain_message b64 c) ∷ [])
      ↔ ((c ≢ []) × Lacks separator c)
unfolding items stream
binary_arrives_iff b64 c =
    (arrived, λ (full, clean). received_bytes_of_binary b64 c [] [] full clean)
  where
    arrived :
        received_stream b64 (packet_data b64 (binary_message b64 c) ∷ []) []
          ≡ ok (plain_message b64 c) ∷ []
        → (c ≢ []) × Lacks separator c
    arrived h =
        let d =
          stream_one b64 (4 ∷ c) (plain_message b64 c)
            (sym (ap (stream b64) (items_binary b64 c [])) ∙ rw (← packet_data-binary b64 c) h) in
        let e = sym (decode-split b64 (4 ∷ c)) ∙ d in
        (empty_fails b64 c _ e, (split_one (4 ∷ c) (sym (length-decode_all b64 _ _ e))).1)
