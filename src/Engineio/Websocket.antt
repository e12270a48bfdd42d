-- ===== src/Engineio/Websocket.antt =====
-- The upgrade of a connection to a websocket: `WebsocketTransport::upgrade` of
-- engineio/src/transports/websocket.rs, and `handle_probe` of engineio/src/server/http.rs.
use socket_io.Base.{
  List, [], ◌∷◌, ◌++◌, Bool, false, Option, none, some, Bytes, ok, err, if◌then◌else◌, list_eq,
}
use socket_io.Engineio.Error.{
  Error, Result, illegal_websocket_upgrade, invalid_packet, invalid_hand_shake,
}
use socket_io.Engineio.External.{Base64}
use socket_io.Engineio.Packet.{PacketType, encode}
use socket_io.Engineio.Transport.{Data, Message, to_message, poll_next}

-- One end of a websocket: what it will read, what it has sent, and how its sends will end.
pub record Websocket : Type 0 where
  pub incoming : List (Result Message)
  pub outgoing : List Message
  pub faults : List (Option Error)

abbrev pub Outcome : Type 0
Outcome = Websocket × Result (Unit {0})

unfoldable pub send : Websocket → Message → Outcome
send w m = elim w.faults [
  | [] ↦ (record w { outgoing = w.outgoing ++ m ∷ [] }, ok tt)
  | fault ∷ rest ↦ elim fault [
    | none ↦ (record w { outgoing = w.outgoing ++ m ∷ []; faults = rest }, ok tt)
    | some e ↦ (record w { faults = rest }, err e)
  ]
]

unfoldable pub next : Websocket → Option (Result Message) × Websocket
next w = elim w.incoming [ [] ↦ (none, w) | m ∷ rest ↦ (some m, record w { incoming = rest }) ]

-- The next item of `WebsocketTransport` itself, which passes over what is no data.
unfoldable pub next_bytes : Websocket → Option (Result Bytes) × Websocket
unfolding poll_next
next_bytes w = let (item, rest) = poll_next w.incoming in (item, record w { incoming = rest })

abbrev pub and_then : Outcome → (Websocket → Outcome) → Outcome
and_then (w, ok u) f = f w
and_then (w, err e) f = (w, err e)

abbrev pub into_data : Message → Bytes
into_data (Message.text d) = d
into_data (Message.binary d) = d
into_data (Message.other d) = d

abbrev pub probe : Bytes
probe = b'p' ∷ b'r' ∷ b'o' ∷ b'b' ∷ b'e' ∷ []

-- `WebsocketTransport::emit`.
unfoldable pub emit : Websocket → Data → Outcome
unfolding to_message send
emit w payload = elim (to_message payload) [ err e ↦ (w, err e) | ok m ↦ send w m ]

module _ (b64 : Base64) where
  -- The bytes of the packets of an upgrade; they are ASCII, so that `from_utf8` does not fail.
  unfoldable pub ping_probe : Bytes
  unfolding encode
  ping_probe = encode b64 (record { ptype = PacketType.ping; content = probe })

  unfoldable pub pong_probe : Bytes
  unfolding encode
  pong_probe = encode b64 (record { ptype = PacketType.pong; content = probe })

  unfoldable pub upgrade_packet : Bytes
  unfolding encode
  upgrade_packet = encode b64 (record { ptype = PacketType.upgrade; content = [] })

  -- The client's last step, on the answer to its probe.
  unfoldable pub finish_upgrade : Option (Result Message) × Websocket → Outcome
  unfolding pong_probe upgrade_packet send
  finish_upgrade (none, w) = (w, err illegal_websocket_upgrade)
  finish_upgrade (some (err e), w) = (w, err e)
  finish_upgrade (some (ok m), w) =
      if list_eq (into_data m) pong_probe
      then send w (Message.text upgrade_packet)
      else (w, err invalid_packet)

  -- `WebsocketTransport::upgrade`.
  unfoldable pub upgrade : Websocket → Outcome
  unfolding ping_probe send next finish_upgrade
  upgrade w = and_then (send w (Message.text ping_probe)) (λ w'. finish_upgrade (next w'))

  -- The first half of `handle_probe`: a probe is answered, and anything else is passed over.
  unfoldable pub answer_probe : Option (Result Message) × Websocket → Outcome
  unfolding pong_probe send
  answer_probe (some (ok (Message.text p)), w) =
      if list_eq p (b'2' ∷ probe) then send w (Message.text pong_probe) else (w, ok tt)
  answer_probe (_, w) = (w, ok tt)

-- The second half: whether the packet is the one for the upgrade.
unfoldable pub is_upgrade : Option (Result Message) → Bool
is_upgrade (some (ok (Message.text p))) = list_eq p (b'5' ∷ [])
is_upgrade _ = false

abbrev pub missing_packet : Error
missing_packet = invalid_hand_shake (
    b'u' ∷ b'p' ∷ b'g' ∷ b'r' ∷ b'a' ∷ b'd' ∷ b'e' ∷ b' ' ∷ b'm' ∷ b'i' ∷ b's' ∷ b's' ∷ b'i' ∷ b'n'
    ∷ b'g' ∷ b' ' ∷ b'p' ∷ b'a' ∷ b'c' ∷ b'k' ∷ b'e' ∷ b't' ∷ [])
