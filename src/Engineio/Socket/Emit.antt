-- ===== src/Engineio/Socket/Emit.antt =====
-- engineio/src/socket/socket.rs: what the transport gets from `emit` and `emit_multi`.
use socket_io.Base.{
  ℕ, suc, ◌≤◌, ◌≡◌, refl, sym, ap, subst, ◌∙◌, List, [], ◌∷◌, ◌++◌, map, append_assoc, append-nil,
  arith, Bool, true, false, ◌&&◌, ok, err, ◌==◌, if◌then◌else◌, take, length, if_true,
}
use socket_io.Engineio.Error.{Error}
use socket_io.Engineio.Error
use socket_io.Engineio.External.{Base64}
use socket_io.Engineio.Packet.{Packet}
use socket_io.Engineio.Transport.{Data, packet_data}
use socket_io.Engineio.Socket.{
  Socket, Outcome, and_then, transport_emit, report, reporting, send_event, emit, emit_each,
  emit_multi,
}

abbrev pub is_ok : {A : Type 0} → Error.Result A → Bool
is_ok (ok a) = true
is_ok (err e) = false

suc_test : (m n : ℕ) → (m == n) ≡ (suc m == suc n)
suc_test m n = ground arith

-- What one call of the transport does to what it has got, and to the connection.
abbrev Sends : Socket → Outcome → List Data → Type 0
Sends s o ds =
    (o.0.sent ≡ (if is_ok o.1 then s.sent ++ ds else s.sent)) × (o.0.connected ≡ s.connected)

transport-Sends : (s : Socket) (d : Data) → Sends s (reporting (transport_emit s d)) (d ∷ [])
unfolding reporting transport_emit report send_event
transport-Sends s d = (ground arith, ground arith)

module _ (b64 : Base64) where
  -- A packet is sent exactly when `emit` returns no error, which it does not do unless the socket
  -- is connected; the connection stays as it is.
  pub emit_sent :
      (s : Socket) (p : Packet)
      → ((emit b64 s p).0.sent
          ≡ (if is_ok (emit b64 s p).1 then s.sent ++ packet_data b64 p ∷ [] else s.sent))
        × ((emit b64 s p).0.connected ≡ s.connected)
        × (is_ok (emit b64 s p).1 ≡ (s.connected && is_ok (emit b64 s p).1))
  unfolding emit reporting transport_emit report send_event
  emit_sent s p = (ground arith, ground arith, ground arith)

  -- The packets before the first failure.
  abbrev SendsPrefix : Socket → Outcome → List Packet → Type 0
  SendsPrefix s o ps =
      (n : ℕ) × (n ≤ length ps)
      × (is_ok o.1 ≡ (n == length ps))
      × (o.0.sent ≡ s.sent ++ map (packet_data b64) (take n ps))

  -- A first packet, and then the others.
  and_then-SendsPrefix :
      (s : Socket) (p : Packet) (ps : List Packet) (f : Socket → Outcome) (o : Outcome)
      → Sends s o (packet_data b64 p ∷ [])
      → ((s' : Socket) → SendsPrefix s' (f s') ps)
      → SendsPrefix s (and_then o f) (p ∷ ps)
  and_then-SendsPrefix s p ps f (s', ok u) (e, _) ih =
      let (n, l, r, t) = ih s' in
      (
        suc n,
        omega arith,
        r ∙ suc_test n (length ps),
        t
            ∙ ap (λ l. l ++ map (packet_data b64) (take n ps)) e
            ∙ append_assoc s.sent (packet_data b64 p ∷ []) _,
      )
  and_then-SendsPrefix s p ps f (s', err x) (e, _) ih =
      (0, omega arith, ground arith, e ∙ sym (append-nil s.sent))

  emit_each-SendsPrefix : (ps : List Packet) (s : Socket) → SendsPrefix s (emit_each b64 s ps) ps
  unfolding emit_each
  emit_each-SendsPrefix [] s = (0, omega arith, refl, sym (append-nil s.sent))
  emit_each-SendsPrefix (p ∷ ps) s =
      and_then-SendsPrefix s p ps (λ s'. emit_each b64 s' ps) _
        (transport-Sends s (packet_data b64 p)) (emit_each-SendsPrefix ps)

  -- A connected socket sends the packets of `emit_multi` in order up to the first that fails: a
  -- prefix of them, which is all of them exactly when no error is returned.
  pub emit_multi_prefix :
      (s : Socket) (ps : List Packet)
      → s.connected ≡ true
      → (n : ℕ) × (n ≤ length ps)
        × (is_ok (emit_multi b64 s ps).1 ≡ (n == length ps))
        × ((emit_multi b64 s ps).0.sent ≡ s.sent ++ map (packet_data b64) (take n ps))
  emit_multi_prefix s ps c =
      subst (λ o. SendsPrefix s o ps) (sym open_path) (emit_each-SendsPrefix ps s)
    where
      open_path : emit_multi b64 s ps ≡ emit_each b64 s ps
      open_path = unfold emit_multi in ground arith

module _ (b64 : Base64) where
  -- A socket that has sent some more packets.
  abbrev pub with_sent : Socket → List Packet → Socket
  with_sent s ps = record s { sent = s.sent ++ map (packet_data b64) ps }

  transport_ok :
      (s : Socket) (d : Data)
      → s.faults ≡ []
      → reporting (transport_emit s d) ≡ (record s { sent = s.sent ++ d ∷ [] }, ok tt)
  unfolding reporting transport_emit
  transport_ok s d e =
      rw (transport_emit, e) (λ i. (record s { sent = s.sent ++ d ∷ []; faults = e i }, ok tt))

  -- Over a connected socket whose transport does not fail, all is sent.
  pub emit_all :
      (s : Socket) (p : Packet)
      → s.connected ≡ true
      → s.faults ≡ []
      → emit b64 s p ≡ (with_sent s (p ∷ []), ok tt)
  unfolding emit
  emit_all s p c e = if_true _ _ _ c ∙ transport_ok s (packet_data b64 p) e

  emit_each_all :
      (ps : List Packet) (s : Socket) → s.faults ≡ [] → emit_each b64 s ps ≡ (with_sent s ps, ok tt)
  unfolding emit_each
  emit_each_all [] s e = λ i. (record s { sent = sym (append-nil s.sent) i }, ok tt)
  emit_each_all (p ∷ ps) s e =
      ap (λ o. and_then o (λ s'. emit_each b64 s' ps)) (transport_ok s (packet_data b64 p) e)
      ∙ emit_each_all ps (with_sent s (p ∷ [])) e
      ∙ (λ i. (
        record s {
          sent = append_assoc s.sent (packet_data b64 p ∷ []) (map (packet_data b64) ps) i;
        },
        ok tt,
      ))

  pub emit_multi_all :
      (s : Socket) (ps : List Packet)
      → s.connected ≡ true
      → s.faults ≡ []
      → emit_multi b64 s ps ≡ (with_sent s ps, ok tt)
  unfolding emit_multi
  emit_multi_all s ps c e = if_true _ _ _ c ∙ emit_each_all ps s e
