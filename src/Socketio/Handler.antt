-- ===== src/Socketio/Handler.antt =====
-- socketio/src/socket.rs: what a socket does with the packets that arrive.
pub mod Ack
pub mod Connectivity
pub mod Ready
pub mod Run
use socket_io.Base.{
  ℕ, List, [], ◌∷◌, ◌++◌, map, Bool, true, false, Option, none, some, Str, ok, err, if◌then◌else◌,
  list_eq,
}
use socket_io.Socketio.Error.{Error, Result}
use socket_io.Socketio.External.{Json}
use socket_io.Socketio.Event.{Event}
use socket_io.Socketio.Payload.{Payload, from_option}
use socket_io.Socketio.Packet.{Packet, PacketType}
use socket_io.Socketio.Incoming.{
  decode_binary_payload, decode_event_payload, event_of_contents, event_of_binary,
}
use socket_io.Socketio.Acks.{ack_loop, remove_all}
use socket_io.Socketio.Socket.{Socket, Called, Outcome, callback}

-- Texts that macros write: that of an error, and "Received an ConnectError frame" with its data.
pub record Texts (j : Json) : Type 0 where
  pub display : Error → Str
  pub connect_error : Option j.Value → Str

-- A state and a result, or the panic of a vector's `remove`.
pub data Handled (j : Json) : Type 0 where
  finished : Socket j → Result (Unit {0}) → Handled j
  panicked : Handled j

module _ (j : Json) where
  unfoldable pub ack_payload : Packet j → Bool → Option (Payload j)
  ack_payload p is_binary =
      if is_binary
      then decode_binary_payload j p.content p.attachments false
      else decode_event_payload j p.content false

  abbrev pub ack_call : Option (Payload j) → ℕ → Called j
  ack_call payload c = Called.acked c payload

  -- `handle_ack` behind `if let Some(id) = packet.id`.
  unfoldable pub acknowledge : Socket j → ℕ → Option (Payload j) → ℕ → Handled j
  unfolding ack_loop remove_all
  acknowledge s now payload id =
      let (to_be_removed, callbacks) = ack_loop id now 0 s.outstanding_acks in
      let called = s.called ++ map (ack_call payload) callbacks in
      elim (remove_all s.outstanding_acks to_be_removed) [
        | none ↦ panicked
        | some acks ↦ finished (record s { outstanding_acks = acks; called = called }) (ok tt)
      ]

  unfoldable pub handle_ack : Socket j → ℕ → Packet j → Bool → Handled j
  unfolding acknowledge ack_payload
  handle_ack s now p is_binary = elim p.id [
    | none ↦ finished s (ok tt)
    | some id ↦ acknowledge s now (ack_payload p is_binary) id
  ]

  unfoldable pub handle_binary_event : Socket j → Packet j → Outcome j
  handle_binary_event s p = (
    callback j s (event_of_binary j p.content)
        (decode_binary_payload j p.content p.attachments true) p.id,
    ok tt,
  )

  unfoldable pub handle_event : Socket j → Packet j → Outcome j
  handle_event s p = elim p.content [
    | none ↦ (s, ok tt)
    | some v ↦ elim (j.as_array v) [
      | none ↦ (s, ok tt)
      | some contents ↦ (
        callback j s (event_of_contents j contents) (decode_event_payload j p.content true) p.id,
        ok tt,
      )
    ]
  ]

  unfoldable pub handle_connect : Socket j → Option (Packet j) → Outcome j
  handle_connect s p =
      let payload : Option (Payload j) = elim p [
        | none ↦ none
        | some q ↦ some (from_option j q.content)
      ] in
      (callback j (record s { is_connected = true }) Event.connect payload none, ok tt)

module _ (j : Json) (texts : Texts j) where
  abbrev text_payload : Str → Option (Payload j)
  text_payload s = some (Payload.json (j.string s))

  -- An error of `handle_ack` is told of and returned.
  abbrev pub ack_error : Handled j → Handled j
  ack_error (finished s (ok u)) = finished s (ok tt)
  ack_error (finished s (err e)) = finished (callback j s Event.error none none) (err e)
  ack_error panicked = panicked

  -- An error of `handle_event` is told of.
  abbrev pub event_error : Outcome j → Handled j
  event_error (s, ok u) = finished s (ok tt)
  event_error (s, err e) =
      finished (callback j s Event.error (text_payload (texts.display e)) none) (ok tt)

  unfoldable pub handle_by_type : Socket j → ℕ → Packet j → PacketType → Handled j
  handle_by_type s now p PacketType.ack = ack_error (handle_ack j s now p false)
  handle_by_type s now p PacketType.binary_ack = ack_error (handle_ack j s now p true)
  handle_by_type s now p PacketType.event = event_error (handle_event j s p)
  handle_by_type s now p PacketType.binary_event = event_error (handle_binary_event j s p)
  handle_by_type s now p PacketType.connect =
      finished (handle_connect j s (some p)).0 (handle_connect j s (some p)).1
  handle_by_type s now p PacketType.disconnect =
      finished (callback j (record s { is_connected = false }) Event.close none none) (ok tt)
  handle_by_type s now p PacketType.connect_error =
      finished
        (callback j (record s { is_connected = false }) Event.error
          (text_payload (texts.connect_error p.content)) none)
        (ok tt)

  unfoldable pub handle_socketio_packet : Socket j → ℕ → Packet j → Handled j
  handle_socketio_packet s now p =
      if list_eq p.nsp s.nsp then handle_by_type s now p p.ptype else finished s (ok tt)

  -- What `poll_packet` returns, with the socket and the packets that are still to come.
  pub data Polled : Type 0 where
    polled : Socket j → Option (Result (Packet j)) → List (Result (Packet j)) → Polled
    panics : Polled

  abbrev after_packet : Packet j → List (Result (Packet j)) → Handled j → Polled
  after_packet p rest (finished s r) = polled s (some (ok p)) rest
  after_packet p rest panicked = panics

  -- The loop of `poll_packet` over what the `RawSocket` will yield.
  unfoldable pub poll_packet : Socket j → ℕ → List (Result (Packet j)) → Polled
  poll_packet s now [] = polled s none []
  poll_packet s now (err e ∷ rest) =
      polled (callback j s Event.error (text_payload (texts.display e)) none) (some (err e)) rest
  poll_packet s now (ok p ∷ rest) =
      let next = poll_packet s now rest in
      if list_eq p.nsp s.nsp then after_packet p rest (handle_socketio_packet s now p) else next
