-- ===== src/Engineio/Builder.antt =====
-- engineio/src/socket/builder.rs: how a client gets a socket. What the network will answer is the
-- environment's: a `Network` for each time that a builder starts from the beginning. Of a URL there
-- are the parts that are changed; of the headers, how their conversion ends.
pub mod Start
pub mod Fallback
pub mod Panics
use socket_io.Base.{
  ℕ, ◌≡◌, refl, List, [], ◌∷◌, ◌++◌, Bool, true, false, ◌||◌, Option, none, some, Bytes, Str, ok,
  err, ok_or, ◌>>=◌, if◌then◌else◌, list_eq,
}
use socket_io.Base.Case.{to_lowercase}
use socket_io.Engineio.Error.{Error, Result, incomplete_packet, illegal_websocket_upgrade}
use socket_io.Engineio.External.{Base64}
use socket_io.Engineio.Handshake.{HandshakeJson, HandshakePacket, read_handshake}
use socket_io.Engineio.Http.{websocket_text, polling_name, eio_text, sid_text, transport_text}
use socket_io.Engineio.Polling.{ClientPollingTransport, new_client, websocket_url}
use socket_io.Engineio.Url.{Url, UrlLibrary, append_pair}
use socket_io.Engineio.Websocket as Ws
use socket_io.Engineio.Websocket.{Websocket}

-- The fault is that of the conversion of the headers, if there are any.
pub record SocketBuilder : Type 0 where
  pub url : Url
  pub should_pong : Bool
  pub header_fault : Option Error
  pub handshake : Option HandshakePacket
  pub channel_size : ℕ

-- How making a polling transport ends, the first and the second time; what the first yields first;
-- and how connecting a websocket ends.
pub record Network : Type 0 where
  pub polling_fault : Option Error
  pub polling_again_fault : Option Error
  pub polling_first : Option (Result Bytes)
  pub websocket : Result Websocket

-- A websocket comes with the URL that it was asked for at.
pub data Transport : Type 0 where
  over_polling : ClientPollingTransport → Transport
  over_websocket : Url → Websocket → Transport

-- What `Socket::new` is given.
pub record Made : Type 0 where
  pub transport : Transport
  pub handshake : HandshakePacket
  pub should_pong : Bool

-- A socket or an error; or the panic of an `unwrap`.
pub data Built : Type 0 where
  built : Made → Built
  failed : Error → Built
  panicked : Built

abbrev engine_path : Str
engine_path = b'/' ∷ b'e' ∷ b'n' ∷ b'g' ∷ b'i' ∷ b'n' ∷ b'e' ∷ b'.' ∷ b'i' ∷ b'o' ∷ b'/' ∷ []

unfoldable pub new_builder : Url → Option Error → SocketBuilder
new_builder url header_fault =
    let url' = append_pair url eio_text (b'4' ∷ []) in
    record {
      url = if list_eq url'.path (b'/' ∷ []) then record url' { path = engine_path } else url';
      should_pong = true;
      header_fault = header_fault;
      handshake = none;
      channel_size = 100;
    }

abbrev pub fault_or : Option Error → Result (Unit {0})
fault_or none = ok tt
fault_or (some e) = err e

abbrev flatten : Result (Result Bytes) → Result Bytes
flatten (ok r) = r
flatten (err e) = err e

abbrev pub keep_handshake : SocketBuilder → HandshakePacket → SocketBuilder
keep_handshake b h = record b { handshake = some h; url = append_pair b.url sid_text h.sid }

abbrev pub any_websocket : List Str → Bool
any_websocket [] = false
any_websocket (u ∷ us) = list_eq (to_lowercase u) websocket_text || any_websocket us

unfoldable pub websocket_upgrade : SocketBuilder → Bool
unfolding to_lowercase
websocket_upgrade b = elim b.handshake [ none ↦ false | some h ↦ any_websocket h.upgrades ]

-- The end of a build, with the handshake that is there by then.
abbrev pub finish : SocketBuilder → Transport → Built
finish b transport = elim b.handshake [
  | none ↦ panicked
  | some h ↦ built (record { transport = transport; handshake = h; should_pong = b.should_pong })
]

-- `?` in front of the rest of a build.
abbrev pub and_build : {A : Type 0} → Result A → (A → Built) → Built
and_build (ok a) f = f a
and_build (err e) f = failed e

abbrev pub result_of : Ws.Outcome → Result Websocket
result_of (w, ok u) = ok w
result_of (w, err e) = err e

-- The second transport of `build_polling`: the conversion of the headers is unwrapped.
unfoldable pub second_polling : SocketBuilder → Network → Built
unfolding new_client
second_polling b net = elim b.header_fault [
  | some e ↦ panicked
  | none ↦
      and_build (fault_or net.polling_again_fault) (λ _. finish b (over_polling (new_client b.url)))
]

module _ (b64 : Base64) (json : HandshakeJson) where
  -- On what the transport yields first.
  unfoldable pub handshake_with_transport :
      SocketBuilder → Option (Result Bytes) → Result SocketBuilder
  unfolding read_handshake
  handshake_with_transport b first = elim b.handshake [
    | some h ↦ ok b
    | none ↦ flatten (ok_or first incomplete_packet) >>= λ bytes.
        read_handshake json b64 bytes >>= λ h. ok (keep_handshake b h)
  ]

  unfoldable pub handshake : SocketBuilder → Network → Result SocketBuilder
  unfolding handshake_with_transport
  handshake b net = elim b.handshake [
    | some h ↦ ok b
    | none ↦ fault_or b.header_fault >>= λ _.
        fault_or net.polling_fault >>= λ _. handshake_with_transport b net.polling_first
  ]

  -- With the websocket that was asked for at a URL.
  abbrev pub to_upgrade : SocketBuilder → Url → Websocket → Built
  to_upgrade b url w = elim b.handshake [
    | some h ↦ and_build (result_of (Ws.upgrade b64 w)) (λ w'. finish b (over_websocket url w'))
    | none ↦
        and_build (handshake_with_transport b (Ws.next_bytes w).0)
          (λ b'. finish b' (over_websocket url (Ws.next_bytes w).1))
  ]

  unfoldable pub build_polling : SocketBuilder → Network → Built
  unfolding handshake second_polling
  build_polling b net = and_build (handshake b net) (λ b'. second_polling b' net)

  module _ (urls : UrlLibrary) where
    unfoldable pub build_websocket : SocketBuilder → Network → Built
    unfolding Ws.upgrade Ws.next_bytes handshake_with_transport websocket_url
    build_websocket b net = and_build (fault_or b.header_fault) λ _.
        elim (websocket_url urls b.url) [
          | none ↦ panicked
          | some url ↦ and_build net.websocket (λ w. to_upgrade b url w)
        ]

    unfoldable pub build_websocket_with_upgrade : SocketBuilder → Network → Built
    unfolding handshake websocket_upgrade build_websocket
    build_websocket_with_upgrade b net = and_build (handshake b net) λ b'.
        if websocket_upgrade b' then build_websocket b' net else failed illegal_websocket_upgrade

    unfoldable pub build : SocketBuilder → Network → Built
    unfolding handshake websocket_upgrade build_websocket_with_upgrade build_polling
    build b net = and_build (handshake b net) λ b'.
        if websocket_upgrade b' then build_websocket_with_upgrade b' net else build_polling b' net

    -- The builder is cloned, and what the first build did to the network stays done.
    unfoldable pub build_with_fallback : SocketBuilder → Network → Network → Built
    unfolding build build_polling
    build_with_fallback b net again = elim (build b net) [
      | failed e ↦ build_polling b again
      | built m ↦ built m
      | panicked ↦ panicked
    ]
