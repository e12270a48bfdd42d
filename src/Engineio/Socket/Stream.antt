-- ===== src/Engineio/Socket/Stream.antt =====
-- engineio/src/socket/socket.rs: the stream of packets over what the transport yields, and the
-- `Stream` of a socket, which handles each packet that it passes on.
use socket_io.Base.{ℕ, ◌≡◌, ap, List, [], ◌∷◌, ◌++◌, map, Option, none, some, Bytes, ok, err}
use socket_io.Engineio.Error.{Result}
use socket_io.Engineio.External.{Base64}
use socket_io.Engineio.Packet.{Packet}
use socket_io.Engineio.Payload.{decode}
use socket_io.Engineio.Socket.{Socket, handle_incoming_packet}

module _ (b64 : Base64) where
  -- The packets of some bytes, in front of what else there is if there is no error.
  abbrev pub parsed : Result (List Packet) → List (Result Packet) → List (Result Packet)
  parsed (ok ps) rest = map ok ps ++ rest
  parsed (err e) rest = err e ∷ []

  -- `parse_payload`.
  unfoldable pub parse_payload : Bytes → List (Result Packet)
  unfolding decode
  parse_payload bytes = parsed (decode b64 bytes) []

  -- `Socket::stream`: the first error is passed on and ends it.
  unfoldable pub stream : List (Result Bytes) → List (Result Packet)
  unfolding decode
  stream [] = []
  stream (err e ∷ rest) = err e ∷ []
  stream (ok bytes ∷ rest) = parsed (decode b64 bytes) (stream rest)

  -- `poll_next`, at a time: the item, and the socket with what is still to come.
  unfoldable pub poll_next :
      Socket → ℕ → List (Result Packet) → Option (Result Packet) × Socket × List (Result Packet)
  unfolding handle_incoming_packet
  poll_next s now [] = (none, s, [])
  poll_next s now (err e ∷ rest) = (some (err e), s, rest)
  poll_next s now (ok p ∷ rest) = (some (ok p), handle_incoming_packet b64 s now p, rest)

  -- Bytes that are a payload come out as its packets.
  pub stream-decode :
      (bytes : Bytes) (ps : List Packet) (rest : List (Result Bytes))
      → decode b64 bytes ≡ ok ps
      → stream (ok bytes ∷ rest) ≡ map ok ps ++ stream rest
  unfolding stream
  stream-decode bytes ps rest e = ap (λ r. parsed r (stream rest)) e
