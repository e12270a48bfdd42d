-- ===== src/Socketio/Socket/Send.antt =====
-- socketio/src/socket.rs: what `send` hands to the engine.io socket.
use socket_io.Base.{
  ℕ, ◌≤◌, ◌≡◌, refl, sym, ◌∙◌, List, [], ◌∷◌, ◌++◌, map, arith, Bool, true, false, none, some, ok,
  err, take, length, ◌==◌, append-nil, if_true, if_false, Bool-cases, Option, Bytes, inl, inr,
}
use socket_io.Engineio.External.{Base64}
use socket_io.Engineio.Socket as Engine
use socket_io.Engineio.Socket.Emit.{is_ok, emit_sent, emit_multi_prefix}
use socket_io.Engineio.Packet as EnginePacket
use socket_io.Engineio.Transport.{packet_data}
use socket_io.Socketio.Error.{illegal_action_before_open}
use socket_io.Socketio.External.{Json}
use socket_io.Socketio.Packet.{Packet, encode}
use socket_io.Socketio.Attachments.{engine_packets, with_binaries, message, message_binary}
use socket_io.Socketio.Socket.{Socket, Outcome, lift, send, send_packets}

abbrev pub succeeds : {j : Json} → Outcome j → Bool
succeeds (s, ok u) = true
succeeds (s, err e) = false

-- An outcome of the engine.io socket that has sent the first of some packets.
abbrev SentPrefix : Base64 → Engine.Socket → Engine.Outcome → List EnginePacket.Packet → Type 0
SentPrefix b64 s o ps =
    (n : ℕ) × (n ≤ length ps)
    × (is_ok o.1 ≡ (n == length ps))
    × (o.0.sent ≡ s.sent ++ map (packet_data b64) (take n ps))

emit-SentPrefix :
    (b64 : Base64) (s : Engine.Socket) (p : EnginePacket.Packet)
    → SentPrefix b64 s (Engine.emit b64 s p) (p ∷ [])
emit-SentPrefix b64 s p = from (is_ok (Engine.emit b64 s p).1) refl
  where
    from :
        (b : Bool)
        → is_ok (Engine.emit b64 s p).1 ≡ b
        → SentPrefix b64 s (Engine.emit b64 s p) (p ∷ [])
    from true e = (1, omega arith, e, (emit_sent b64 s p).0 ∙ rw e refl)
    from false e = (0, omega arith, e, (emit_sent b64 s p).0 ∙ rw e (sym (append-nil s.sent)))

module _ (j : Json) (b64 : Base64) where
  lift-SentPrefix :
      (s : Socket j) (o : Engine.Outcome) (ps : List EnginePacket.Packet)
      → SentPrefix b64 s.engine o ps
      → (n : ℕ) × (n ≤ length ps)
        × (succeeds (lift j s o) ≡ (n == length ps))
        × ((lift j s o).0.engine.sent ≡ s.engine.sent ++ map (packet_data b64) (take n ps))
  lift-SentPrefix s (e, ok u) ps h = h
  lift-SentPrefix s (e, err x) ps h = h

  send_packets-SentPrefix :
      (s : Engine.Socket) (first : EnginePacket.Packet) (atts : Option (List Bytes))
      → s.connected ≡ true
      → SentPrefix b64 s (send_packets j b64 s first atts) (with_binaries first atts)
  send_packets-SentPrefix s first none c = emit-SentPrefix b64 s first
  send_packets-SentPrefix s first (some []) c = emit-SentPrefix b64 s first
  send_packets-SentPrefix s first (some (a ∷ as')) c =
      emit_multi_prefix b64 s (first ∷ map message_binary (a ∷ as')) c

  pub send_open :
      (s : Socket j) (p : Packet j)
      → s.engine.connected ≡ true
      → send j b64 s p ≡ lift j s (send_packets j b64 s.engine (message (encode j p)) p.attachments)
  unfolding send
  send_open s p c = if_true s.engine.connected _ _ c

  send_closed :
      (s : Socket j) (p : Packet j)
      → s.engine.connected ≡ false
      → send j b64 s p ≡ (s, err illegal_action_before_open)
  unfolding send
  send_closed s p c = if_false s.engine.connected _ _ c

  -- The engine.io socket gets the packet and then its attachments, each as one engine.io packet:
  -- a prefix of these in order, which is all of them exactly when `send` returns no error.
  pub send_prefix :
      (s : Socket j) (p : Packet j)
      → (n : ℕ) × (n ≤ length (engine_packets j p))
        × (succeeds (send j b64 s p) ≡ (n == length (engine_packets j p)))
        × ((send j b64 s p).0.engine.sent
            ≡ s.engine.sent ++ map (packet_data b64) (take n (engine_packets j p)))
  send_prefix s p = elim (Bool-cases s.engine.connected) [
    | inl c ↦ rw (send_open s p c) (
        unfold engine_packets in
        lift-SentPrefix s _ _
          (send_packets-SentPrefix s.engine (message (encode j p)) p.attachments c))
    | inr c ↦ rw (send_closed s p c) (
        unfold engine_packets in
        (
          0,
          omega arith,
          no_packet (message (encode j p)) p.attachments,
          sym (append-nil s.engine.sent),
        ))
  ]
    where
      no_packet :
          (first : EnginePacket.Packet) (atts : Option (List Bytes))
          → false ≡ (0 == length (with_binaries first atts))
      no_packet first none = refl
      no_packet first (some atts) = ground arith
