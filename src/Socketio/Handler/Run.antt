-- ===== src/Socketio/Handler/Run.antt =====
-- socketio/src/socket.rs: the acks that a socket waits for, over all that its owner calls and all
-- that arrives.
use socket_io.Base.{
  ℕ, suc, ◌+◌, ◌%◌, ◌^◌, ◌<◌, ◌≡◌, refl, sym, ap, ◌∙◌, subst, List, [], ◌∷◌, arith, Bool, true,
  false, Option, none, some, ok, err, if◌then◌else◌, length, Bool-cases, inl, inr, Str, if_true,
  if_false,
}
use socket_io.Engineio.External.{Base64}
use socket_io.Engineio.Socket as Engine
use socket_io.Socketio.Error.{Result}
use socket_io.Socketio.External.{Json}
use socket_io.Socketio.Event.{Event}
use socket_io.Socketio.Payload.{Payload}
use socket_io.Socketio.Packet.{Packet, PacketType}
use socket_io.Socketio.Acks.{generate}
use socket_io.Socketio.Acks.Removal.{DistinctIds}
use socket_io.Socketio.Socket.{
  Socket, Outcome, send, emit, ack, emit_with_ack, wait_for, and_then, disconnect, raw_disconnect,
  control_packet, new_socket,
}
use socket_io.Socketio.Handler.{Texts, Handled, finished, panicked, handle_socketio_packet}
use socket_io.Socketio.Handler.Ready.{
  Waits, Waits-snoc, Keeps, Ready, Fine, Keeps-Ready, Ready-less, packet-Fine, lift-Keeps,
  send-Keeps,
}

module _ (j : Json) where
  wait_for-Ready :
      (k : ℕ) (b64 : Base64) (s : Socket j) (now timeout cb : ℕ)
      → Ready j (suc k) s
      → Ready j k (wait_for j b64 s now timeout cb)
  unfolding wait_for generate
  wait_for-Ready k b64 s now timeout cb r =
      let h : s.seq + suc k < 2 ^ 64 = r.room in
      let next : suc s.seq ≡ (s.seq + 1) % 2 ^ 64 = omega arith in
      record {
        waits = subst (Waits _) next (Waits-snoc s.outstanding_acks _ s.seq r.waits refl);
        room = omega arith;
      }

  emit_with_ack-Ready :
      (b64 : Base64) (k : ℕ) (s : Socket j) (now : ℕ) (event : Event) (payload : Payload j)
      (timeout cb : ℕ)
      → Ready j (suc k) s
      → Ready j k (emit_with_ack j b64 s now event payload timeout cb).0
  unfolding emit_with_ack
  emit_with_ack-Ready b64 k s now event payload timeout cb r = elim (Bool-cases s.is_connected) [
    | inl e ↦
        subst (λ (o : Outcome j). Ready j k o.0) (sym (if_true _ _ _ e))
          (Keeps-Ready j k (send-Keeps j b64 (wait_for j b64 s now timeout cb) _)
            (wait_for-Ready k b64 s now timeout cb r))
    | inr e ↦ subst (λ (o : Outcome j). Ready j k o.0) (sym (if_false _ _ _ e)) (Ready-less j k r)
  ]

  guarded-Keeps :
      (s : Socket j) (b : Bool) (o : Outcome j) (r : Result (Unit {0}))
      → Keeps j s o.0
      → Keeps j s (if b then o else (s, r)).0
  guarded-Keeps s true o r q = q
  guarded-Keeps s false o r q = record { acks = refl; drawn = refl }

  emit-Keeps :
      (b64 : Base64) (s : Socket j) (event : Event) (payload : Payload j)
      → Keeps j s (emit j b64 s event payload).0
  unfolding emit
  emit-Keeps b64 s event payload = guarded-Keeps s s.is_connected _ _ (send-Keeps j b64 s _)

  ack-Keeps :
      (b64 : Base64) (s : Socket j) (id : ℕ) (payload : Payload j)
      → Keeps j s (ack j b64 s id payload).0
  unfolding ack
  ack-Keeps b64 s id payload = guarded-Keeps s s.is_connected _ _ (send-Keeps j b64 s _)

  Keeps-after : (s t : Socket j) (o : Outcome j) → Keeps j s t → Keeps j t o.0 → Keeps j s o.0
  Keeps-after s t o a b = record { acks = b.acks ∙ a.acks; drawn = b.drawn ∙ a.drawn }

  and_then-Keeps :
      (s : Socket j) (o : Outcome j) (f : Socket j → Outcome j)
      → Keeps j s o.0
      → ((t : Socket j) → Keeps j t (f t).0)
      → Keeps j s (and_then j o f).0
  and_then-Keeps s (t, ok u) f q h = Keeps-after s t (f t) q (h t)
  and_then-Keeps s (t, err e) f q h = q

  raw_disconnect-Keeps : (b64 : Base64) (t : Socket j) → Keeps j t (raw_disconnect j b64 t).0
  raw_disconnect-Keeps b64 t = ground (arith, lift-Keeps j t (Engine.disconnect b64 t.engine))

  disconnect-Keeps : (b64 : Base64) (s : Socket j) → Keeps j s (disconnect j b64 s).0
  unfolding disconnect
  disconnect-Keeps b64 s =
      let s' : Socket j = record s { is_connected = false } in
      let p : Packet j = control_packet j PacketType.disconnect s.nsp none in
      let k = send-Keeps j b64 s' p in
      and_then-Keeps s (send j b64 s' p) (λ t. raw_disconnect j b64 t)
        (record { acks = k.acks; drawn = k.drawn }) (raw_disconnect-Keeps b64)

-- What the owner of a socket calls, and the packets that arrive.
pub data Call (j : Json) : Type 0 where
  emits : Event → Payload j → Call j
  acks : ℕ → Payload j → Call j
  emits_with_ack : ℕ → Event → Payload j → ℕ → ℕ → Call j
  disconnects : Call j
  arrives : ℕ → Packet j → Call j

module _ (j : Json) (b64 : Base64) (texts : Texts j) where
  -- The socket of a handler that finishes.
  abbrev pub state_of : Handled j → Option (Socket j)
  state_of (finished s r) = some s
  state_of panicked = none

  unfoldable pub after : Socket j → Call j → Option (Socket j)
  after s (emits event payload) = some (emit j b64 s event payload).0
  after s (acks id payload) = some (ack j b64 s id payload).0
  after s (emits_with_ack now event payload timeout cb) =
      some (emit_with_ack j b64 s now event payload timeout cb).0
  after s disconnects = some (disconnect j b64 s).0
  after s (arrives now p) = state_of (handle_socketio_packet j texts s now p)

  unfoldable pub run : Socket j → List (Call j) → Option (Socket j)
  unfolding after
  run s [] = some s
  run s (c ∷ cs) = elim (after s c) [ none ↦ none | some s' ↦ run s' cs ]

  state_of-Fine :
      (k : ℕ) (h : Handled j) → Fine j k h → (s : Socket j) × (state_of h ≡ some s) × Ready j k s
  state_of-Fine k (finished s r) f = (s, refl, f)
  state_of-Fine k panicked f = absurd f

  after-Ready :
      (k : ℕ) (s : Socket j) (c : Call j)
      → Ready j (suc k) s
      → (s' : Socket j) × (after s c ≡ some s') × Ready j k s'
  unfolding after
  after-Ready k s (emits event payload) r =
      (_, refl, Keeps-Ready j k (emit-Keeps j b64 s event payload) (Ready-less j k r))
  after-Ready k s (acks id payload) r =
      (_, refl, Keeps-Ready j k (ack-Keeps j b64 s id payload) (Ready-less j k r))
  after-Ready k s (emits_with_ack now event payload timeout cb) r =
      (_, refl, emit_with_ack-Ready j b64 k s now event payload timeout cb r)
  after-Ready k s disconnects r =
      (_, refl, Keeps-Ready j k (disconnect-Keeps j b64 s) (Ready-less j k r))
  after-Ready k s (arrives now p) r =
      state_of-Fine k _ (packet-Fine j texts k s now p (Ready-less j k r))

  run_step :
      (s s' : Socket j) (c : Call j) (cs : List (Call j))
      → after s c ≡ some s'
      → run s (c ∷ cs) ≡ run s' cs
  unfolding run
  run_step s s' c cs e = ap (λ o. elim o [ none ↦ none | some t ↦ run t cs ]) e

  run-Ready :
      (cs : List (Call j)) (s : Socket j)
      → Ready j (length cs) s
      → (s' : Socket j) × (run s cs ≡ some s') × DistinctIds s'.outstanding_acks
  run-Ready [] s r = (s, unfold run in refl, r.waits.0)
  run-Ready (c ∷ cs) s r =
      let (s', e, r') = after-Ready (length cs) s c r in
      let (t, f, d) = run-Ready cs s' r' in (t, run_step s s' c cs e ∙ f, d)

  -- Whatever the owner of a new socket calls and whatever packets arrive, if these are less than
  -- 2 ^ 64, no handler panics, and the acks that the socket waits for have distinct ids.
  pub run-DistinctIds :
      (is_server : Bool) (engine : Engine.Socket) (nsp : Str) (on : Event → Option ℕ)
      (cs : List (Call j))
      → length cs < 2 ^ 64
      → (s : Socket j) × (run (new_socket j is_server engine nsp on) cs ≡ some s)
        × DistinctIds s.outstanding_acks
  run-DistinctIds is_server engine nsp on cs h =
      run-Ready cs _ (unfold new_socket in record { waits = (tt, tt); room = omega arith })
