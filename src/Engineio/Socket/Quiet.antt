-- ===== src/Engineio/Socket/Quiet.antt =====
-- engineio/src/socket/socket.rs: which operations tell a listener of a close, and how often.
use socket_io.Base.{
  ℕ, suc, ◌+◌, ◌≤◌, ◌≡◌, List, [], ◌∷◌, ◌++◌, arith, true, false, ◌&&◌, not, if◌then◌else◌, Bytes,
  ok, err,
}
use socket_io.Engineio.Error.{illegal_action_before_open}
use socket_io.Engineio.External.{Base64}
use socket_io.Engineio.Packet.{Packet, PacketType}
use socket_io.Engineio.Transport.{Data, packet_data}
use socket_io.Engineio.Socket.{
  pong, Socket, Event, Outcome, send_event, emit, emit_each, emit_multi, report, reporting,
  transport_emit, and_then, disconnect, handle_close, handle_data, handle_packet, react,
  handle_incoming_packet,
}
use socket_io.Engineio.Socket.Emit.{is_ok}

-- How many events tell of a close.
unfoldable pub closes : List Event → ℕ
closes [] = 0
closes (Event.on_close sid ∷ es) = suc (closes es)
closes (Event.on_open sid ∷ es) = closes es
closes (Event.on_data sid d ∷ es) = closes es
closes (Event.on_packet sid p ∷ es) = closes es
closes (Event.on_error sid e ∷ es) = closes es

pub closes-append : (xs ys : List Event) → closes (xs ++ ys) ≡ closes xs + closes ys
unfolding closes
closes-append [] ys = omega arith
closes-append (Event.on_close sid ∷ xs) ys = omega (arith, closes-append xs ys)
closes-append (Event.on_open sid ∷ xs) ys = closes-append xs ys
closes-append (Event.on_data sid d ∷ xs) ys = closes-append xs ys
closes-append (Event.on_packet sid p ∷ xs) ys = closes-append xs ys
closes-append (Event.on_error sid e ∷ xs) ys = closes-append xs ys

-- No fault is to come, and the closes that were told, with the one of a connection that is there,
-- are not more than a number.
pub record Inv (n : ℕ) (s : Socket) : Type 0 where
  pub no_fault : s.faults ≡ []
  pub told : closes s.events + (if s.connected then 1 else 0) ≤ n

-- The same connection, and no new event of a close.
pub record Quiet (s t : Socket) : Type 0 where
  pub same : t.connected ≡ s.connected
  pub calm : s.faults ≡ [] → t.faults ≡ []
  pub silent : closes t.events ≡ closes s.events

pub Quiet-Inv : {n : ℕ} {s t : Socket} → Quiet s t → Inv n s → Inv n t
Quiet-Inv q v = record { no_fault = q.calm v.no_fault; told = ground arith }

report-Quiet : (s : Socket) (e : _) → Quiet s (report s e)
unfolding report send_event closes
report-Quiet s e = ground (arith, closes-append s.events (Event.on_error s.sid e ∷ []))

reporting-Quiet : (s : Socket) (o : Outcome) → Quiet s o.0 → Quiet s (reporting o).0
unfolding reporting
reporting-Quiet s (t, ok u) q = q
reporting-Quiet s (t, err e) q = ground (arith, report-Quiet t e)

transport-Quiet : (s : Socket) (d : Data) → Quiet s (reporting (transport_emit s d)).0
transport-Quiet s d = reporting-Quiet s (transport_emit s d) (unfold transport_emit in ground arith)

and_then-Quiet :
    (s : Socket) (o : Outcome) (f : Socket → Outcome)
    → Quiet s o.0
    → ((t : Socket) → Quiet t (f t).0)
    → Quiet s (and_then o f).0
and_then-Quiet s (t, ok u) f q h = ground (arith, h t)
and_then-Quiet s (t, err e) f q h = q

abbrev close_packet : Packet
close_packet = record { ptype = PacketType.close; content = [] }

-- The event of a close adds one to their number, if it is sent at all.
send_close :
    (s : Socket)
    → let t = (send_event s (Event.on_close s.sid)).0 in
      (t.connected ≡ s.connected)
      × (t.faults ≡ s.faults)
      × (closes t.events ≤ closes s.events + 1)
      × (is_ok (send_event s (Event.on_close s.sid)).1 ≡ false → closes t.events ≡ closes s.events)
unfolding send_event closes
send_close s = (
  ground arith,
  ground arith,
  ground (arith, closes-append s.events (Event.on_close s.sid ∷ [])),
  λ h. ground (arith, closes-append s.events (Event.on_close s.sid ∷ [])),
)

pub raised : {n m : ℕ} {s : Socket} → n ≤ m → Inv n s → Inv m s
raised h v = record { no_fault = v.no_fault; told = ground (arith, v.told) }

module _ (b64 : Base64) where
  -- `disconnect` ends a connection exactly when it returns no error; where it returns one, the
  -- connection stays.
  pub disconnect_iff :
      (s : Socket)
      → (disconnect b64 s).0.connected ≡ (s.connected && not (is_ok (disconnect b64 s).1))
  unfolding disconnect emit reporting transport_emit report send_event
  disconnect_iff s = ground arith

  handle_packet-Quiet : (s : Socket) (p : Packet) → Quiet s (handle_packet b64 s p)
  unfolding handle_packet send_event closes
  handle_packet-Quiet s p = ground (arith, closes-append s.events (Event.on_packet s.sid p ∷ []))

  handle_data-Quiet : (s : Socket) (d : Bytes) → Quiet s (handle_data b64 s d)
  unfolding handle_data send_event closes
  handle_data-Quiet s d = ground (arith, closes-append s.events (Event.on_data s.sid d ∷ []))

  pub emit-Quiet : (s : Socket) (p : Packet) → Quiet s (emit b64 s p).0
  unfolding emit
  emit-Quiet s p =
      ground
        (arith, transport-Quiet s (packet_data b64 p), report-Quiet s illegal_action_before_open)

  emit_each-Quiet : (ps : List Packet) (s : Socket) → Quiet s (emit_each b64 s ps).0
  unfolding emit_each
  emit_each-Quiet [] s = ground arith
  emit_each-Quiet (p ∷ ps) s =
      and_then-Quiet s (reporting (transport_emit s (packet_data b64 p)))
        (λ s'. emit_each b64 s' ps) (transport-Quiet s (packet_data b64 p)) (emit_each-Quiet ps)

  pub emit_multi-Quiet : (s : Socket) (ps : List Packet) → Quiet s (emit_multi b64 s ps).0
  unfolding emit_multi
  emit_multi-Quiet s ps =
      ground (arith, emit_each-Quiet ps s, report-Quiet s illegal_action_before_open)

  emit_faultless :
      (s : Socket) (p : Packet) → s.connected ≡ true → s.faults ≡ [] → is_ok (emit b64 s p).1 ≡ true
  unfolding emit reporting transport_emit
  emit_faultless s p c f = ground arith

  handle_close-Inv : {n : ℕ} {s : Socket} → Inv n s → Inv n (handle_close b64 s)
  unfolding handle_close send_event closes
  handle_close-Inv {n} {s} v = ground (arith, closes-append s.events (Event.on_close s.sid ∷ []))

  pub disconnect-Inv : {n : ℕ} {s : Socket} → Inv n s → Inv n (disconnect b64 s).0
  unfolding disconnect
  disconnect-Inv {n} {s} v = ground (
    arith,
    send_close s,
    emit-Quiet (send_event s (Event.on_close s.sid)).0 close_packet,
    emit_faultless (send_event s (Event.on_close s.sid)).0 close_packet,
  )

  ping-Inv :
      {n : ℕ} {s : Socket} (now : ℕ) (d : Bytes)
      → Inv n s
      → Inv n (react b64 s now PacketType.ping d)
  unfolding react
  ping-Inv {n} {s} now d v = ground (arith, emit-Quiet (record s { last_ping = now }) (pong b64 d))

  react-Inv :
      {n : ℕ} {s : Socket} (now : ℕ) (t : PacketType) (d : Bytes)
      → Inv n s
      → Inv n (react b64 s now t d)
  react-Inv {n} {s} now PacketType.message d v = unfold react in Quiet-Inv (handle_data-Quiet s d) v
  react-Inv {n} {s} now PacketType.message_binary d v =
      unfold react in Quiet-Inv (handle_data-Quiet s d) v
  react-Inv {n} {s} now PacketType.close d v = unfold react in handle_close-Inv v
  react-Inv {n} {s} now PacketType.ping d v = ping-Inv now d v
  react-Inv {n} {s} now _ d v = unfold react in v

  pub incoming-Inv :
      {n : ℕ} {s : Socket} (now : ℕ) (p : Packet)
      → Inv n s
      → Inv n (handle_incoming_packet b64 s now p)
  unfolding handle_incoming_packet
  incoming-Inv {n} {s} now p v = react-Inv now p.ptype p.content (
      Quiet-Inv (handle_packet-Quiet (record s { last_pong = now }) p)
        (record { no_fault = v.no_fault; told = v.told }))
