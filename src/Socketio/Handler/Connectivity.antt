-- ===== src/Socketio/Handler/Connectivity.antt =====
-- socketio/src/socket.rs: which packets a socket reads, and which of them open and close it.
use socket_io.Base.{
  ℕ, ◌≡◌, ◌≢◌, refl, sym, ap, ◌∙◌, List, [], ◌∷◌, ◌++◌, map, arith, Bool, true, false, Option, some,
  ok, err, if◌then◌else◌, list_eq, list_eq_sound, list_eq_refl, All, subst, Bool-cases, inl, inr,
  if_true, if_false,
}
use socket_io.Socketio.Error.{Result}
use socket_io.Socketio.External.{Json}
use socket_io.Socketio.Event.{Event}
use socket_io.Socketio.Payload.{Payload}
use socket_io.Socketio.Packet.{Packet, PacketType}
use socket_io.Socketio.Socket.{Socket, callback, Outcome}
use socket_io.Socketio.Handler.{
  Texts, Handled, finished, panicked, acknowledge, handle_ack, handle_event, handle_binary_event,
  handle_connect, handle_by_type, handle_socketio_packet, polled, poll_packet, after_packet,
  ack_error, event_error,
}

-- Whether a socket is connected behind a packet of a type.
abbrev pub connected_by : PacketType → Bool → Bool
connected_by PacketType.connect b = true
connected_by PacketType.disconnect b = false
connected_by PacketType.connect_error b = false
connected_by _ b = b

-- If a handler finishes, then in a state where the socket is connected or not, as given.
abbrev Leaves : {j : Json} → Bool → Handled j → Type 0
Leaves b (finished s r) = s.is_connected ≡ b
Leaves b panicked = Unit {0}

module _ (j : Json) where
  callback_connected :
      (s : Socket j) (e : Event) (p : Option (Payload j)) (i : Option ℕ)
      → (callback j s e p i).is_connected ≡ s.is_connected
  unfolding callback
  callback_connected s e p i = ground arith

  acknowledge_connected :
      (s : Socket j) (now : ℕ) (p : Option (Payload j)) (id : ℕ)
      → Leaves s.is_connected (acknowledge j s now p id)
  unfolding acknowledge
  acknowledge_connected s now p id = ground arith

  handle_ack_connected :
      (s : Socket j) (now : ℕ) (p : Packet j) (b : Bool)
      → Leaves s.is_connected (handle_ack j s now p b)
  unfolding handle_ack
  handle_ack_connected s now p b = ground (arith, acknowledge_connected s now)

  handle_event_connected :
      (s : Socket j) (p : Packet j) → (handle_event j s p).0.is_connected ≡ s.is_connected
  unfolding handle_event callback
  handle_event_connected s p = ground arith

  ack_error-Leaves :
      (texts : Texts j) (b : Bool) (h : Handled j) → Leaves b h → Leaves b (ack_error j texts h)
  ack_error-Leaves texts b (finished s (ok u)) l = l
  ack_error-Leaves texts b (finished s (err e)) l = callback_connected s _ _ _ ∙ l
  ack_error-Leaves texts b panicked l = tt

  event_error-Leaves :
      (texts : Texts j) (b : Bool) (o : Outcome j)
      → o.0.is_connected ≡ b
      → Leaves b (event_error j texts o)
  event_error-Leaves texts b (s, ok u) l = l
  event_error-Leaves texts b (s, err e) l = callback_connected s _ _ _ ∙ l

  by_type_Leaves :
      (texts : Texts j) (s : Socket j) (now : ℕ) (p : Packet j) (t : PacketType)
      → Leaves (connected_by t s.is_connected) (handle_by_type j texts s now p t)
  unfolding handle_by_type
  by_type_Leaves texts s now p PacketType.ack =
      ack_error-Leaves texts _ _ (handle_ack_connected s now p false)
  by_type_Leaves texts s now p PacketType.binary_ack =
      ack_error-Leaves texts _ _ (handle_ack_connected s now p true)
  by_type_Leaves texts s now p PacketType.event =
      event_error-Leaves texts _ _ (handle_event_connected s p)
  by_type_Leaves texts s now p PacketType.binary_event =
      event_error-Leaves texts _ _ (unfold handle_binary_event in callback_connected s _ _ _)
  by_type_Leaves texts s now p PacketType.connect =
      unfold handle_connect in callback_connected _ _ _ _
  by_type_Leaves texts s now p PacketType.disconnect = callback_connected _ _ _ _
  by_type_Leaves texts s now p PacketType.connect_error = callback_connected _ _ _ _

  -- When the handler of a packet finishes, the socket is connected as it was before, unless the
  -- packet is of the socket's namespace: then a connect packet has connected it, and a disconnect
  -- or a connect error has disconnected it.
  pub handle_connected :
      (texts : Texts j) (s s' : Socket j) (now : ℕ) (p : Packet j) (r : Result (Unit {0}))
      → handle_socketio_packet j texts s now p ≡ finished s' r
      → s'.is_connected
        ≡ (if list_eq p.nsp s.nsp then connected_by p.ptype s.is_connected else s.is_connected)
  unfolding handle_socketio_packet
  handle_connected texts s s' now p r h = elim (Bool-cases (list_eq p.nsp s.nsp)) [
    | inl e ↦
        subst (Leaves _) (sym (if_true _ _ _ e) ∙ h) (by_type_Leaves texts s now p p.ptype)
        ∙ sym (if_true _ _ _ e)
    | inr e ↦
        subst (Leaves s.is_connected) (sym (if_false _ _ _ e) ∙ h) refl ∙ sym (if_false _ _ _ e)
  ]

  after_packet_found :
      (texts : Texts j) (s' : Socket j) (q p : Packet j) (stream rest : List (Result (Packet j)))
      (h : Handled j)
      → after_packet j texts q stream h ≡ polled s' (some (ok p)) rest
      → (q ≡ p) × (stream ≡ rest) × ((r : Result (Unit {0})) × (h ≡ finished s' r))
  after_packet_found texts s' q p stream rest (finished s r) e = (cc e, cc e, (r, cc e))
  after_packet_found texts s' q p stream rest panicked e = cc e

  poll_own :
      (texts : Texts j) (s : Socket j) (now : ℕ) (q : Packet j) (stream : List (Result (Packet j)))
      → list_eq q.nsp s.nsp ≡ true
      → poll_packet j texts s now (ok q ∷ stream)
        ≡ after_packet j texts q stream (handle_socketio_packet j texts s now q)
  unfolding poll_packet
  poll_own texts s now q stream e = if_true _ _ _ e

  poll_foreign :
      (texts : Texts j) (s : Socket j) (now : ℕ) (q : Packet j) (stream : List (Result (Packet j)))
      → list_eq q.nsp s.nsp ≡ false
      → poll_packet j texts s now (ok q ∷ stream) ≡ poll_packet j texts s now stream
  unfolding poll_packet
  poll_foreign texts s now q stream e = if_false _ _ _ e

  -- A packet that `poll_packet` returns is the first of the socket's namespace in the stream: what
  -- is in front of it are packets of other namespaces, and the socket is the one that the handler
  -- of the packet leaves, which saw none of these.
  pub poll_packet_found :
      (texts : Texts j) (s s' : Socket j) (now : ℕ) (stream rest : List (Result (Packet j)))
      (p : Packet j)
      → poll_packet j texts s now stream ≡ polled s' (some (ok p)) rest
      → (skipped : List (Packet j)) × (stream ≡ map ok skipped ++ ok p ∷ rest)
        × All (λ q. q.nsp ≢ s.nsp) skipped
        × (p.nsp ≡ s.nsp)
        × ((r : Result (Unit {0})) × (handle_socketio_packet j texts s now p ≡ finished s' r))
  poll_packet_found texts s s' now [] rest p h = unfold poll_packet in cc h
  poll_packet_found texts s s' now (err e ∷ stream) rest p h = unfold poll_packet in cc h
  poll_packet_found texts s s' now (ok q ∷ stream) rest p h =
      elim (Bool-cases (list_eq q.nsp s.nsp)) [
        | inl e ↦
            let (eq, es, er) =
              after_packet_found texts s' q p stream rest _
                (sym (poll_own texts s now q stream e) ∙ h) in
            (
              [],
              (λ i. ok (eq i) ∷ es i),
              tt,
              sym (ap (λ x. x.nsp) eq) ∙ list_eq_sound q.nsp s.nsp e,
              subst
                  (λ x.
                    (r : Result (Unit {0})) × (handle_socketio_packet j texts s now x
                      ≡ finished s' r))
                  eq er,
            )
        | inr e ↦
            let (skipped, es, foreign, own, er) =
              poll_packet_found texts s s' now stream rest p
                (sym (poll_foreign texts s now q stream e) ∙ h) in
            (
              q ∷ skipped,
              ap (◌∷◌ (ok q)) es,
              ((λ f. cc (e, f, list_eq_refl s.nsp)), foreign),
              own,
              er,
            )
      ]
