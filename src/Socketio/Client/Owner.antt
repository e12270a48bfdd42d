-- ===== src/Socketio/Client/Owner.antt =====
-- socketio/src/client/client.rs: what the owner of a client calls, which its socket does.
use socket_io.Base.{ℕ}
use socket_io.Engineio.External.{Base64}
use socket_io.Socketio.Error.{Result}
use socket_io.Socketio.Event.{Event}
use socket_io.Socketio.External.{Json}
use socket_io.Socketio.Payload.{Payload}
use socket_io.Socketio.Socket as Socket
use socket_io.Socketio.Client.{Client}

module _ (j : Json) (b64 : Base64) where
  abbrev with_socket : Client j → Socket.Outcome j → Client j × Result (Unit {0})
  with_socket c (s, r) = (record c { socket = s }, r)

  unfoldable pub emit : Client j → Event → Payload j → Client j × Result (Unit {0})
  unfolding Socket.emit
  emit c event payload = with_socket c (Socket.emit j b64 c.socket event payload)

  unfoldable pub emit_with_ack :
      Client j → ℕ → Event → Payload j → ℕ → ℕ → Client j × Result (Unit {0})
  unfolding Socket.emit_with_ack
  emit_with_ack c now event payload timeout cb =
      with_socket c (Socket.emit_with_ack j b64 c.socket now event payload timeout cb)

  unfoldable pub ack : Client j → ℕ → Payload j → Client j × Result (Unit {0})
  unfolding Socket.ack
  ack c id payload = with_socket c (Socket.ack j b64 c.socket id payload)
