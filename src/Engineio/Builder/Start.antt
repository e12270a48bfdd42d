-- ===== src/Engineio/Builder/Start.antt =====
-- How the handshake of engineio/src/socket/builder.rs ends, and what a build goes on with.
use socket_io.Base.{
  ◌≡◌, refl, ◌∙◌, ◌⊎◌, inl, inr, arith, Option, none, some, Bytes, ok, err, ◌>>=◌, ok_or,
}
use socket_io.Engineio.Error.{Error, Result, incomplete_packet}
use socket_io.Engineio.External.{Base64}
use socket_io.Engineio.Handshake.{HandshakeJson, HandshakePacket, read_handshake}
use socket_io.Engineio.Polling.{new_client}
use socket_io.Engineio.Builder.{
  SocketBuilder, Network, over_polling, Made, Built, built, failed, panicked, fault_or, flatten,
  keep_handshake, handshake_with_transport, handshake, finish, and_build, second_polling,
  build_polling,
}

-- A build does not panic, and what it makes is as stated.
abbrev pub Makes : Built → (Made → Type 0) → Type 0
Makes (built m) P = P m
Makes (failed e) P = Unit {0}
Makes panicked P = ⊥

pub and_build-Makes :
    {A : Type 0} (r : Result A) (f : A → Built) (P : Made → Type 0)
    → ((a : A) → Makes (f a) P)
    → Makes (and_build r f) P
and_build-Makes (ok a) f P rest = rest a
and_build-Makes (err e) f P rest = tt

module _ (b64 : Base64) (json : HandshakeJson) where
  pub handshake_again :
      (b : SocketBuilder) (net : Network) (h : HandshakePacket)
      → handshake b64 json (keep_handshake b h) net ≡ ok (keep_handshake b h)
  unfolding handshake
  handshake_again b net h = refl

  -- What is left of a handshake where none was made yet.
  abbrev start :
      SocketBuilder → Option Error → Option Error → Option (Result Bytes) → Result SocketBuilder
  start b header_fault polling_fault first = fault_or header_fault >>= λ _.
      fault_or polling_fault >>= λ _. flatten (ok_or first incomplete_packet) >>= λ bytes.
      read_handshake json b64 bytes >>= λ h. ok (keep_handshake b h)

  handshake_start :
      (b : SocketBuilder) (net : Network)
      → b.handshake ≡ none
      → handshake b64 json b net ≡ start b b.header_fault net.polling_fault net.polling_first
  unfolding handshake handshake_with_transport
  handshake_start b net e = ground arith

  start_read :
      (b : SocketBuilder) (r : Result HandshakePacket)
      → ((e : Error) × ((r >>= λ h. ok (keep_handshake b h)) ≡ err e))
        ⊎ ((h : HandshakePacket) × ((r >>= λ h. ok (keep_handshake b h)) ≡ ok (keep_handshake b h)))
  start_read b (ok h) = inr (h, refl)
  start_read b (err e) = inl (e, refl)

  start_cases :
      (b : SocketBuilder) (f g : Option Error) (first : Option (Result Bytes))
      → ((e : Error) × (start b f g first ≡ err e))
        ⊎ ((h : HandshakePacket) × (start b f g first ≡ ok (keep_handshake b h)) × (f ≡ none))
  start_cases b (some e) g first = inl (e, refl)
  start_cases b none (some e) first = inl (e, refl)
  start_cases b none none none = inl (incomplete_packet, refl)
  start_cases b none none (some (err e)) = inl (e, refl)
  start_cases b none none (some (ok bs)) = elim (start_read b (read_handshake json b64 bs)) [
    | inl (e, p) ↦ inl (e, p)
    | inr (h, p) ↦ inr (h, p, refl)
  ]

  pub handshake_cases :
      (b : SocketBuilder) (net : Network)
      → b.handshake ≡ none
      → ((e : Error) × (handshake b64 json b net ≡ err e))
        ⊎ ((h : HandshakePacket) × (handshake b64 json b net ≡ ok (keep_handshake b h))
            × (b.header_fault ≡ none))
  handshake_cases b net e =
      elim (start_cases b b.header_fault net.polling_fault net.polling_first) [
        | inl (x, p) ↦ inl (x, handshake_start b net e ∙ p)
        | inr (h, p, q) ↦ inr (h, handshake_start b net e ∙ p, q)
      ]

  pub polled :
      (b : SocketBuilder) (net : Network) (h : HandshakePacket)
      → b.header_fault ≡ none
      → let b' = keep_handshake b h in
        second_polling b' net
        ≡ and_build
            (fault_or net.polling_again_fault)
            (λ _. finish b' (over_polling (new_client b'.url)))
  unfolding second_polling
  polled b net h e = ground arith

  pub polling_made :
      (b : SocketBuilder) (net : Network) (h : HandshakePacket)
      → handshake b64 json b net ≡ ok (keep_handshake b h)
      → build_polling b64 json b net ≡ second_polling (keep_handshake b h) net
  unfolding build_polling
  polling_made b net h e = ground arith
