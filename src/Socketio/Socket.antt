-- ===== src/Socketio/Socket.antt =====
-- socketio/src/socket.rs: the state of a socket, `Socket` with its `RawSocket`, and what its owner
-- calls. The callbacks are in the socket's environment: `on` finds the number of the one for an
-- event, and `called` has the calls in the order in which they were asked for; the tasks that do
-- them run in any order. The ids of acks are drawn from `seq`.
pub mod Send
use socket_io.Base.{
  ℕ, List, [], ◌∷◌, ◌++◌, map, Bool, true, false, Option, none, some, Bytes, Str, ok, err,
  if◌then◌else◌,
}
use socket_io.Engineio.External.{Base64}
use socket_io.Engineio.Error as EngineError
use socket_io.Engineio.Socket as Engine
use socket_io.Engineio.Packet as EnginePacket
use socket_io.Socketio.Error.{
  Error, Result, illegal_action_before_open, incomplete_response_from_engine_io,
}
use socket_io.Socketio.External.{Json}
use socket_io.Socketio.Event.{Event}
use socket_io.Socketio.Payload.{Payload}
use socket_io.Socketio.Packet.{Packet, PacketType, encode}
use socket_io.Socketio.Raw.{build_packet_for_payload}
use socket_io.Socketio.Attachments.{message, message_binary}
use socket_io.Socketio.Acks.{Ack, generate}

pub data Called (j : Json) : Type 0 where
  handler : ℕ → Option (Payload j) → Option ℕ → Called j
  acked : ℕ → Option (Payload j) → Called j

pub record Socket (j : Json) : Type 0 where
  pub nsp : Str
  pub is_server : Bool
  pub engine : Engine.Socket
  pub on : Event → Option ℕ
  pub outstanding_acks : List Ack
  pub is_connected : Bool
  pub seq : ℕ
  pub called : List (Called j)

-- A method's state and result.
abbrev pub Outcome : Json → Type 0
Outcome j = Socket j × Result (Unit {0})

-- An outcome of the engine.io socket, its error converted.
abbrev pub lift : (j : Json) → Socket j → Engine.Outcome → Outcome j
lift j s (e, ok u) = (record s { engine = e }, ok tt)
lift j s (e, err x) = (record s { engine = e }, err (incomplete_response_from_engine_io x))

-- `?` behind a method.
abbrev pub and_then : (j : Json) → Outcome j → (Socket j → Outcome j) → Outcome j
and_then j (s, ok u) f = f s
and_then j (s, err e) f = (s, err e)

module _ (j : Json) where
  -- `Socket::new`.
  unfoldable pub new_socket : Bool → Engine.Socket → Str → (Event → Option ℕ) → Socket j
  new_socket is_server engine nsp on = record {
    nsp = nsp;
    is_server = is_server;
    engine = engine;
    on = on;
    outstanding_acks = [];
    is_connected = true;
    seq = 0;
    called = [];
  }

  unfoldable pub callback : Socket j → Event → Option (Payload j) → Option ℕ → Socket j
  callback s event payload need_ack = elim (s.on event) [
    | none ↦ s
    | some c ↦ record s { called = s.called ++ Called.handler c payload need_ack ∷ [] }
  ]

  -- A packet with no data, id and attachments.
  abbrev pub control_packet : PacketType → Str → Option j.Value → Packet j
  control_packet t nsp content = record {
    ptype = t;
    nsp = nsp;
    content = content;
    id = none;
    attachment_count = 0;
    attachments = none;
  }

module _ (j : Json) (b64 : Base64) where
  -- What `send` calls, by the attachments.
  abbrev pub send_packets :
      Engine.Socket → EnginePacket.Packet → Option (List Bytes) → Engine.Outcome
  send_packets engine first none = Engine.emit b64 engine first
  send_packets engine first (some []) = Engine.emit b64 engine first
  send_packets engine first (some (a ∷ as')) =
      Engine.emit_multi b64 engine (first ∷ map message_binary (a ∷ as'))

  -- `RawSocket::send`.
  unfoldable pub send : Socket j → Packet j → Outcome j
  send s p =
      if s.engine.connected
      then lift j s (send_packets s.engine (message (encode j p)) p.attachments)
      else (s, err illegal_action_before_open)

  unfoldable pub emit : Socket j → Event → Payload j → Outcome j
  emit s event payload =
      if s.is_connected
      then send s (build_packet_for_payload j payload (some event) s.nsp none false)
      else (s, err illegal_action_before_open)

  unfoldable pub ack : Socket j → ℕ → Payload j → Outcome j
  ack s id payload =
      if s.is_connected
      then send s (build_packet_for_payload j payload none s.nsp (some id) true)
      else (s, err illegal_action_before_open)

  unfoldable pub handshake : Socket j → j.Value → Outcome j
  handshake s content =
      if s.is_connected
      then send s (control_packet j PacketType.connect s.nsp (some content))
      else (s, err illegal_action_before_open)

  -- `RawSocket::connect` and `RawSocket::disconnect`.
  abbrev pub raw_connect : Socket j → ℕ → Outcome j
  raw_connect s now = if s.is_server then (s, ok tt) else lift j s (Engine.connect b64 s.engine now)

  abbrev pub raw_disconnect : Socket j → Outcome j
  raw_disconnect s =
      if s.engine.connected then lift j s (Engine.disconnect b64 s.engine) else (s, ok tt)

  unfoldable pub connect : Socket j → ℕ → Outcome j
  connect s now =
      and_then j (raw_connect s now)
        (λ s'. send s' (control_packet j PacketType.connect s'.nsp none))

  unfoldable pub disconnect : Socket j → Outcome j
  disconnect s =
      and_then j
        (send (record s { is_connected = false })
          (control_packet j PacketType.disconnect s.nsp none))
        (λ s'. raw_disconnect s')

  -- The socket draws an id and waits for its ack before the packet is sent.
  unfoldable pub wait_for : Socket j → ℕ → ℕ → ℕ → Socket j
  unfolding generate
  wait_for s now timeout cb =
      let (id, seq) = generate s.seq in
      let a : Ack = record { id = id; timeout = timeout; time_started = now; callback = cb } in
      record s { seq = seq; outstanding_acks = s.outstanding_acks ++ a ∷ [] }

  unfoldable pub emit_with_ack : Socket j → ℕ → Event → Payload j → ℕ → ℕ → Outcome j
  unfolding generate wait_for
  emit_with_ack s now event payload timeout cb =
      if s.is_connected
      then send (wait_for s now timeout cb)
          (build_packet_for_payload j payload (some event) s.nsp (some (generate s.seq).0) false)
      else (s, err illegal_action_before_open)
