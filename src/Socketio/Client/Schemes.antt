-- ===== src/Socketio/Client/Schemes.antt =====
-- socketio/src/client/builder.rs, `connect_socket`, and `WebsocketTransport::connect` below it: which
-- addresses a websocket cannot be asked for at.
use mathlib.Core.Option
use socket_io.Base.{
  ℕ, ◌≡◌, ◌≢◌, ◌↔◌, refl, ap, ◌∙◌, inl, inr, arith, Bool-cases, false, List, Option, none, some,
  list_eq,
}
use socket_io.Engineio.Builder as Engine
use socket_io.Engineio.Builder.{Network}
use socket_io.Engineio.Builder.Fallback.{web_scheme}
use socket_io.Engineio.Error as EngineError
use socket_io.Engineio.External.{Base64}
use socket_io.Engineio.Handshake.{HandshakeJson}
use socket_io.Engineio.Http.{transport_text, websocket_text}
use socket_io.Engineio.Polling.{websocket_url}
use socket_io.Engineio.Url.{Url, UrlLibrary, IsLawfulUrls, is_web, append_pair, https_scheme}
use socket_io.Socketio.Builder.{ClientBuilder}
use socket_io.Socketio.Client.{
  TransportType, Connected, connected, refused, panicked, connect_socket, over_engine, engine_build,
  socket_url,
}
use socket_io.Socketio.Client.Connect.{Gives, connect_socket-Gives, builder_scheme}
use socket_io.Socketio.Error.{invalid_url}
use socket_io.Socketio.Event.{Event}
use socket_io.Socketio.External.{Json}
use socket_io.Socketio.Socket.{Socket}

module _ (b64 : Base64) (hs : HandshakeJson) (urls : UrlLibrary) (j : Json) where
  no_websocket_url :
      (url : Url) → IsLawfulUrls urls → is_web url.scheme ≡ false → websocket_url urls url ≡ none
  unfolding websocket_url
  no_websocket_url url lawful other =
      ap (Option.map (λ u. append_pair u transport_text websocket_text))
        (lawful.refuses url _ other (web_scheme (list_eq url.scheme https_scheme)))

  no_websocket :
      (b : Engine.SocketBuilder) (net : Network)
      → IsLawfulUrls urls
      → is_web b.url.scheme ≡ false
      → b.header_fault ≡ none
      → Engine.build_websocket b64 hs urls b net ≡ Engine.panicked
  unfolding Engine.build_websocket
  no_websocket b net lawful other e = ground (arith, no_websocket_url b.url lawful other)

  new_builder_headers :
      (url : Url) (f : Option EngineError.Error) → (Engine.new_builder url f).header_fault ≡ f
  unfolding Engine.new_builder
  new_builder_headers url f = refl

  Gives-panicked : (b : ClientBuilder) (r : Connected (Socket j)) → Gives j b r → r ≢ panicked
  Gives-panicked b (connected s) h = λ e. cc e
  Gives-panicked b (refused x) h = λ e. cc e
  Gives-panicked b panicked h = λ e. h

  -- Over a lawful library url, and if the address is that of a URL and the headers are fine, a client
  -- whose transport is a websocket from the start panics exactly if the URL is none of the web (with
  -- the scheme http, https, ws, wss or ftp).
  pub connect_socket_panics_iff :
      (b : ClientBuilder) (url : Url) (on : Event → Option ℕ) (net again : Network) (now : ℕ)
      (faults : List (Option EngineError.Error))
      → IsLawfulUrls urls
      → urls.parse b.address ≡ some url
      → (connect_socket b64 hs j urls b TransportType.websocket none on net again now faults
          ≡ panicked)
        ↔ (is_web url.scheme ≡ false)
  unfolding connect_socket engine_build
  connect_socket_panics_iff b url on net again now faults lawful parsed = (
    λ crash. elim (Bool-cases (is_web url.scheme)) [
      | inl web ↦ absurd (
          Gives-panicked b _
            (connect_socket-Gives b64 hs urls j b TransportType.websocket none on net again now
              faults lawful (λ u e. cc (parsed, e, web)))
            crash)
      | inr other ↦ other
    ],
    λ other.
        let eb = Engine.new_builder (socket_url url) none in
        ap
          (λ o. elim o as (λ _. Connected (Socket j)) [
            | none ↦ refused invalid_url
            | some u ↦ over_engine b64 hs j b on now faults (
                engine_build b64 hs urls TransportType.websocket
                  (Engine.new_builder (socket_url u) none) net again)
          ])
          parsed
        ∙ ap (over_engine b64 hs j b on now faults) (
            no_websocket eb net lawful (ap is_web (builder_scheme b64 hs urls j url none) ∙ other)
              (new_builder_headers (socket_url url) none)),
  )
