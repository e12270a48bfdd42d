-- ===== src/Engineio/Socket/Incoming.antt =====
-- engineio/src/socket/socket.rs: what `handle_incoming_packet` does, for every type of packet.
use socket_io.Base.{
  ℕ, ◌≡◌, [], ◌∷◌, ◌++◌, arith, Bool, true, false, ◌&&◌, not, if◌then◌else◌, Bytes,
}
use socket_io.Engineio.External.{Base64}
use socket_io.Engineio.Packet.{Packet, PacketType}
use socket_io.Engineio.Transport.{packet_data}
use socket_io.Engineio.Socket.{
  Socket, send_event, emit, pong, report, reporting, transport_emit, handle_packet, handle_data,
  handle_close, handle_incoming_packet, react,
}

abbrev pub is_close : PacketType → Bool
is_close PacketType.close = true
is_close _ = false

abbrev pub is_ping : PacketType → Bool
is_ping PacketType.ping = true
is_ping _ = false

module _ (b64 : Base64) where
  react_state :
      (s : Socket) (now : ℕ) (t : PacketType) (d : Bytes)
      → ((react b64 s now t d).connected ≡ (s.connected && not (is_close t)))
        × ((react b64 s now t d).last_pong ≡ s.last_pong)
        × ((react b64 s now t d).last_ping ≡ (if is_ping t then now else s.last_ping))
  unfolding react handle_data handle_close emit reporting transport_emit report send_event
  react_state s now PacketType.message d = ground arith
  react_state s now _ d = ground arith

  -- Telling the listener of a packet changes nothing but its events.
  handle_packet_frame :
      (s : Socket) (p : Packet)
      → ((handle_packet b64 s p).connected ≡ s.connected)
        × ((handle_packet b64 s p).last_pong ≡ s.last_pong)
        × ((handle_packet b64 s p).last_ping ≡ s.last_ping)
        × ((handle_packet b64 s p).sent ≡ s.sent)
        × ((handle_packet b64 s p).faults ≡ s.faults)
        × ((handle_packet b64 s p).should_pong ≡ s.should_pong)
  unfolding handle_packet send_event
  handle_packet_frame s p = ground arith

  react_sent :
      (s : Socket) (now : ℕ) (t : PacketType) (d : Bytes)
      → s.connected ≡ true
      → s.faults ≡ []
      → (react b64 s now t d).sent ≡ (
          if is_ping t && s.should_pong
          then s.sent ++ packet_data b64 (pong b64 d) ∷ []
          else s.sent)
  unfolding react handle_data emit reporting transport_emit report send_event handle_close
  react_sent s now PacketType.message d c f = ground arith
  react_sent s now _ d c f = ground arith

  -- Any packet is a sign of life, only a close packet closes, and only a ping renews the time of
  -- the last ping.
  pub incoming_state :
      (s : Socket) (now : ℕ) (p : Packet)
      → ((handle_incoming_packet b64 s now p).connected ≡ (s.connected && not (is_close p.ptype)))
        × ((handle_incoming_packet b64 s now p).last_pong ≡ now)
        × ((handle_incoming_packet b64 s now p).last_ping
            ≡ (if is_ping p.ptype then now else s.last_ping))
  unfolding handle_incoming_packet
  incoming_state s now p = ground (
    arith,
    handle_packet_frame (record s { last_pong = now }) p,
    react_state (handle_packet b64 (record s { last_pong = now }) p) now p.ptype p.content,
  )

  -- Over a connected socket whose transport does not fail, a ping is answered by a pong with the
  -- same data if the socket is to answer, and nothing else is.
  pub incoming_sent :
      (s : Socket) (now : ℕ) (p : Packet)
      → s.connected ≡ true
      → s.faults ≡ []
      → (handle_incoming_packet b64 s now p).sent ≡ (
          if is_ping p.ptype && s.should_pong
          then s.sent ++ packet_data b64 (pong b64 p.content) ∷ []
          else s.sent)
  unfolding handle_incoming_packet
  incoming_sent s now p c f = ground (
    arith,
    handle_packet_frame (record s { last_pong = now }) p,
    react_sent (handle_packet b64 (record s { last_pong = now }) p) now p.ptype p.content,
  )
