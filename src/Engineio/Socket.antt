-- ===== src/Engineio/Socket.antt =====
-- engineio/src/socket/socket.rs: the state of a socket and its operations. The time of a call, the
-- event channel and the transport are the environment: the channel's receiver is there or not, and
-- `faults` says for each coming call of the transport's `emit` whether it fails. A wait for room in
-- the channel, and the locks, are left out: each operation runs by itself.
pub mod Emit
pub mod Incoming
pub mod Quiet
pub mod Close
pub mod Opening
pub mod Stream
pub mod Wire
use socket_io.Base.{
  ℕ, List, [], ◌∷◌, ◌++◌, Bool, true, false, Option, none, some, Bytes, Str, ok, err, if◌then◌else◌,
}
use socket_io.Engineio.Error.{Error, Result, event_send_error, illegal_action_before_open}
use socket_io.Engineio.External.{Base64}
use socket_io.Engineio.Packet.{Packet, PacketType}
use socket_io.Engineio.Transport.{Data, packet_data}

-- `on_error` carries the text of the error; here it is the error.
pub data Event : Type 0 where
  on_open on_close : Str → Event
  on_data : Str → Bytes → Event
  on_packet : Str → Packet → Event
  on_error : Str → Error → Event

pub record Socket : Type 0 where
  pub connected : Bool
  pub last_ping : ℕ
  pub last_pong : ℕ
  pub sid : Str
  pub server_end : Bool
  pub should_pong : Bool
  -- `event_tx` is there, and its receiver is.
  pub has_event_tx : Bool
  pub has_receiver : Bool
  -- What the environment got, and what its transport will answer.
  pub events : List Event
  pub sent : List Data
  pub faults : List (Option Error)

-- A method's state and result.
abbrev pub Outcome : Type 0
Outcome = Socket × Result (Unit {0})

-- `Socket::new`, at a time, for the id in the handshake, over an environment.
unfoldable pub new_socket : Str → ℕ → Bool → Bool → Bool → Bool → List (Option Error) → Socket
new_socket sid now should_pong server_end has_event_tx has_receiver faults = record {
  connected = false;
  last_ping = now;
  last_pong = now;
  sid = sid;
  server_end = server_end;
  should_pong = should_pong;
  has_event_tx = has_event_tx;
  has_receiver = has_receiver;
  events = [];
  sent = [];
  faults = faults;
}

-- `if let Some(ref event_tx) = self.event_tx { event_tx.send(event).await }`.
unfoldable pub send_event : Socket → Event → Outcome
send_event s e =
    if s.has_event_tx
    then (if s.has_receiver
        then (record s { events = s.events ++ e ∷ [] }, ok tt)
        else (s, err event_send_error))
    else (s, ok tt)

-- `transport.emit(data)`.
unfoldable pub transport_emit : Socket → Data → Outcome
transport_emit s d = elim s.faults [
  | [] ↦ (record s { sent = s.sent ++ d ∷ [] }, ok tt)
  | fault ∷ rest ↦ elim fault [
    | none ↦ (record s { sent = s.sent ++ d ∷ []; faults = rest }, ok tt)
    | some e ↦ (record s { faults = rest }, err e)
  ]
]

-- `Socket::on_error`.
unfoldable pub report : Socket → Error → Socket
report s e = (send_event s (Event.on_error s.sid e)).0

-- An error is reported before it is returned.
unfoldable pub reporting : Outcome → Outcome
reporting (s, ok u) = (s, ok u)
reporting (s, err e) = (report s e, err e)

-- `?` behind a method.
abbrev pub and_then : Outcome → (Socket → Outcome) → Outcome
and_then (s, ok u) f = f s
and_then (s, err e) f = (s, err e)

module _ (b64 : Base64) where
  unfoldable pub emit : Socket → Packet → Outcome
  emit s p =
      if s.connected
      then reporting (transport_emit s (packet_data b64 p))
      else (report s illegal_action_before_open, err illegal_action_before_open)

  -- The loop of `emit_multi`.
  unfoldable pub emit_each : Socket → List Packet → Outcome
  emit_each s [] = (s, ok tt)
  emit_each s (p ∷ ps) =
      and_then (reporting (transport_emit s (packet_data b64 p))) (λ s'. emit_each s' ps)

  unfoldable pub emit_multi : Socket → List Packet → Outcome
  emit_multi s ps =
      if s.connected
      then emit_each s ps
      else (report s illegal_action_before_open, err illegal_action_before_open)

  abbrev pub pong : Bytes → Packet
  pong d = record { ptype = PacketType.pong; content = d }

  unfoldable pub connect : Socket → ℕ → Outcome
  connect s now = and_then (send_event (record s { connected = true }) (Event.on_open s.sid)) λ s'.
      let s'' = record s' { last_ping = now } in
      if s''.server_end then (s'', ok tt) else emit s'' (pong [])

  unfoldable pub disconnect : Socket → Outcome
  disconnect s =
      if s.connected
      then and_then (send_event s (Event.on_close s.sid)) (λ s'.
        and_then (emit s' (record { ptype = PacketType.close; content = [] }))
          (λ s''. (record s'' { connected = false }, ok tt)))
      else (s, ok tt)

  unfoldable pub handle_close : Socket → Socket
  handle_close s =
      if s.connected
      then record (send_event s (Event.on_close s.sid)).0 { connected = false }
      else s

  unfoldable pub handle_data : Socket → Bytes → Socket
  handle_data s d = (send_event s (Event.on_data s.sid d)).0

  unfoldable pub handle_packet : Socket → Packet → Socket
  handle_packet s p = (send_event s (Event.on_packet s.sid p)).0

  -- What `handle_incoming_packet` does by the type of the packet.
  unfoldable pub react : Socket → ℕ → PacketType → Bytes → Socket
  react s now PacketType.message d = handle_data s d
  react s now PacketType.message_binary d = handle_data s d
  react s now PacketType.close d = handle_close s
  react s now PacketType.ping d =
      let s' = record s { last_ping = now } in if s.should_pong then (emit s' (pong d)).0 else s'
  react s now _ d = s

  unfoldable pub handle_incoming_packet : Socket → ℕ → Packet → Socket
  handle_incoming_packet s now p =
      react (handle_packet (record s { last_pong = now }) p) now p.ptype p.content
