-- ===== src/Socketio/Client/Connect.antt =====
-- socketio/src/client/builder.rs, `connect_socket`: what a client's socket is, for each transport.
use socket_io.Base.{
  ℕ, ◌≡◌, refl, ◌∙◌, List, arith, Bool, true, false, Option, none, some, ok, err, if◌then◌else◌, ap,
}
use socket_io.Engineio.Builder as Engine
use socket_io.Engineio.Url.{Url, UrlLibrary, IsLawfulUrls, is_web}
use socket_io.Engineio.Builder.{Network}
use socket_io.Engineio.Builder.Panics.{IsSafe, builds-IsSafe}
use socket_io.Engineio.Socket as EngineSocket
use socket_io.Socketio.Error.{invalid_url}
use socket_io.Engineio.Error as EngineError
use socket_io.Engineio.External.{Base64}
use socket_io.Engineio.Handshake.{HandshakeJson}
use socket_io.Socketio.Builder.{ClientBuilder}
use socket_io.Socketio.Event.{Event}
use socket_io.Socketio.External.{Json}
use socket_io.Socketio.Socket as Socket
use socket_io.Socketio.Socket.{Socket, new_socket, raw_connect, lift, send, control_packet}
use socket_io.Socketio.Packet.{Packet, PacketType}
use socket_io.Socketio.Client.{
  TransportType, Connected, connected, refused, panicked, connect_socket, over_engine, engine_build,
  engine_socket, opened, socket_url,
}

-- No panic; and a socket is a client's, in the namespace of the builder, and open.
abbrev pub Gives : (j : Json) → ClientBuilder → Connected (Socket j) → Type 0
Gives j b (connected s) = (s.nsp ≡ b.nsp) × (s.is_server ≡ false) × (s.is_connected ≡ true)
Gives j b (refused e) = Unit {0}
Gives j b panicked = ⊥

abbrev Keeps : (j : Json) → Socket j → Socket j → Type 0
Keeps j s t = (t.nsp ≡ s.nsp) × (t.is_server ≡ s.is_server) × (t.is_connected ≡ s.is_connected)

module _ (b64 : Base64) (hs : HandshakeJson) (urls : UrlLibrary) (j : Json) where
  send-Keeps : (s : Socket j) (p : Packet j) → Keeps j s (send j b64 s p).0
  unfolding send
  send-Keeps s p = ground arith

  lift-Keeps : (s : Socket j) (o : EngineSocket.Outcome) → Keeps j s (lift j s o).0
  lift-Keeps s (e, ok u) = (refl, refl, refl)
  lift-Keeps s (e, err x) = (refl, refl, refl)

  raw-Keeps :
      (s : Socket j) (b : Bool) (o : EngineSocket.Outcome)
      → Keeps j s (if b then (s, ok tt) else lift j s o).0
  raw-Keeps s true o = (refl, refl, refl)
  raw-Keeps s false o = lift-Keeps s o

  and_then-Keeps :
      (s : Socket j) (o : Socket.Outcome j) (f : Socket j → Socket.Outcome j)
      → Keeps j s o.0
      → ((t : Socket j) → Keeps j t (f t).0)
      → Keeps j s (Socket.and_then j o f).0
  and_then-Keeps s (t, ok u) f (e, g, h) k = let (e', g', h') = k t in (e' ∙ e, g' ∙ g, h' ∙ h)
  and_then-Keeps s (t, err x) f h k = h

  connect-Keeps : (s : Socket j) (now : ℕ) → Keeps j s (Socket.connect j b64 s now).0
  unfolding Socket.connect
  connect-Keeps s now =
      and_then-Keeps s (raw_connect j b64 s now)
        (λ s'. send j b64 s' (control_packet j PacketType.connect s'.nsp none))
        (raw-Keeps s s.is_server (EngineSocket.connect b64 s.engine now))
        (λ t. send-Keeps t (control_packet j PacketType.connect t.nsp none))

  opened-Gives :
      (b : ClientBuilder) (s : Socket j) (o : Socket.Outcome j)
      → s.nsp ≡ b.nsp
      → s.is_server ≡ false
      → s.is_connected ≡ true
      → Keeps j s o.0
      → Gives j b (opened b64 hs j o)
  opened-Gives b s (t, ok u) n c d (e, f, g) = (e ∙ n, f ∙ c, g ∙ d)
  opened-Gives b s (t, err x) n c d k = tt

  over-Gives :
      (b : ClientBuilder) (on : Event → Option ℕ) (now : ℕ)
      (faults : List (Option EngineError.Error)) (r : Engine.Built)
      → IsSafe r
      → Gives j b (over_engine b64 hs j b on now faults r)
  unfolding new_socket
  over-Gives b on now faults (Engine.built m) safe =
      let s = new_socket j false (engine_socket b64 hs j m now faults) b.nsp on in
      opened-Gives b s (Socket.connect j b64 s now) refl refl refl (connect-Keeps s now)
  over-Gives b on now faults (Engine.failed e) safe = tt
  over-Gives b on now faults Engine.panicked safe = safe

  engine_build-IsSafe :
      (t : TransportType) (b : Engine.SocketBuilder) (net again : Network)
      → IsLawfulUrls urls
      → is_web b.url.scheme ≡ true
      → b.handshake ≡ none
      → IsSafe (engine_build b64 hs urls t b net again)
  unfolding engine_build
  engine_build-IsSafe t b net again lawful web e =
      let (fallback, polling, websocket, upgrade) =
        builds-IsSafe b64 hs urls b net again lawful web e in
      elim t as (λ k. IsSafe (engine_build b64 hs urls k b net again)) [
        | TransportType.any ↦ fallback
        | TransportType.polling ↦ polling
        | TransportType.websocket ↦ websocket
        | TransportType.websocket_upgrade ↦ upgrade
      ]

  new_builder_fresh :
      (url : Url) (f : Option EngineError.Error) → (Engine.new_builder url f).handshake ≡ none
  unfolding Engine.new_builder
  new_builder_fresh url f = refl

  -- The engine.io builder has the scheme of the address.
  pub builder_scheme :
      (url : Url) (f : Option EngineError.Error)
      → (Engine.new_builder (socket_url url) f).url.scheme ≡ url.scheme
  unfolding Engine.new_builder socket_url
  builder_scheme url f = ground arith

  parsed-Gives :
      (b : ClientBuilder) (t : TransportType) (f : Option EngineError.Error) (on : Event → Option ℕ)
      (net again : Network) (now : ℕ) (faults : List (Option EngineError.Error)) (o : Option Url)
      → IsLawfulUrls urls
      → ((url : Url) → o ≡ some url → is_web url.scheme ≡ true)
      → Gives j b (elim o as (λ _. Connected (Socket j)) [
        | none ↦ refused invalid_url
        | some url ↦
            over_engine b64 hs j b on now faults
              (engine_build b64 hs urls t (Engine.new_builder (socket_url url) f) net again)
      ])
  parsed-Gives b t f on net again now faults none lawful web = tt
  parsed-Gives b t f on net again now faults (some url) lawful web = over-Gives b on now faults _ (
      engine_build-IsSafe t (Engine.new_builder (socket_url url) f) net again lawful
        (ap is_web (builder_scheme url f) ∙ web url refl) (new_builder_fresh (socket_url url) f))

  pub connect_socket-Gives :
      (b : ClientBuilder) (t : TransportType) (f : Option EngineError.Error) (on : Event → Option ℕ)
      (net again : Network) (now : ℕ) (faults : List (Option EngineError.Error))
      → IsLawfulUrls urls
      → ((url : Url) → urls.parse b.address ≡ some url → is_web url.scheme ≡ true)
      → Gives j b (connect_socket b64 hs j urls b t f on net again now faults)
  unfolding connect_socket
  connect_socket-Gives b t f on net again now faults lawful web =
      parsed-Gives b t f on net again now faults (urls.parse b.address) lawful web
