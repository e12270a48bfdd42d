-- ===== src/Examples/Builders.antt =====
-- The theorems about the builder of a client's socket, at a server that offers a websocket.
use socket_io.Base.{
  Bool, false, Option, Str, ◌&&◌, ◌↔◌, ◌∙◌, if◌then◌else◌, true, ◌≡◌, refl, [], ◌∷◌, arith, none,
  some, ok, err, ap, ◌>>=◌,
}
use socket_io.Engineio.Error.{ws_error}
use socket_io.Engineio.Handshake.{
  HandshakePacket, handshake_body, IsHandshake, read_handshake-handshake_body,
}
use socket_io.Engineio.Http.{websocket_text}
use socket_io.Engineio.Url.{Url, UrlLibrary, IsLawfulUrls, is_web}
use socket_io.Engineio.Builder.{
  SocketBuilder, Network, new_builder, handshake, handshake_with_transport, keep_handshake,
}
use socket_io.Socketio.Builder.{ClientBuilder}
use socket_io.Socketio.Client.{TransportType, connect_socket, panicked}
use socket_io.Socketio.Client.Schemes.{connect_socket_panics_iff}
use socket_io.Examples.Json.{Tree, trees}
use socket_io.Examples.Base64.{two_letters}
use socket_io.Examples.HandshakeText.{plain, plain-IsLawful}

abbrev base_url : Url
base_url = record { scheme = b'h' ∷ b't' ∷ b't' ∷ b'p' ∷ []; path = b'/' ∷ []; query = [] }

abbrev other_url : Url
other_url = record { scheme = b'f' ∷ b'o' ∷ b'o' ∷ []; path = b'/' ∷ []; query = [] }

-- A library that reads every address as the same URL, and changes schemes of the web.
abbrev changed : Bool → Url → Str → Option Url
changed web url s = if web then some (record url { scheme = s }) else none

abbrev reads : Url → UrlLibrary
reads url = record {
  parse = λ address. some url;
  set_scheme = λ u s. changed (is_web u.scheme && is_web s) u s;
}

reads-IsLawful : (url : Url) → IsLawfulUrls (reads url)
reads-IsLawful url = record {
  changes = λ u s a b. ap (λ w. changed (w && is_web s) u s) a ∙ ap (λ w. changed w u s) b;
  refuses = λ u s a b. ap (λ w. changed (w && is_web s) u s) a;
}

other_url-no_web : is_web other_url.scheme ≡ false
unfolding is_web
other_url-no_web = refl

abbrev offer : HandshakePacket
offer = record {
  sid = b'x' ∷ [];
  upgrades = websocket_text ∷ [];
  ping_interval = 5;
  ping_timeout = 4;
  max_payload = 9;
}

offer-IsHandshake : IsHandshake offer
offer-IsHandshake = record {
  sid_scalars = omega arith;
  upgrade_scalars = omega arith;
  interval_fits = omega arith;
  timeout_fits = omega arith;
  payload_fits = omega arith;
}

-- The polling answers give the handshake, and a websocket cannot be connected.
abbrev no_websocket : Network
no_websocket = record {
  polling_fault = none;
  polling_again_fault = none;
  polling_first = some (ok (handshake_body plain offer));
  websocket = err ws_error;
}

abbrev start : SocketBuilder
start = new_builder base_url none

handshake_works : handshake two_letters plain start no_websocket ≡ ok (keep_handshake start offer)
unfolding new_builder handshake handshake_with_transport
handshake_works =
    ap (λ r. r >>= λ h. ok (keep_handshake start h))
      (read_handshake-handshake_body plain two_letters offer plain-IsLawful offer-IsHandshake).0

abbrev client_builder : ClientBuilder
client_builder = record {
  address = b'a' ∷ [];
  nsp = b'/' ∷ [];
  reconnects = true;
  max_attempts = none;
  delay_min = 1000;
  delay_max = 5000;
}

panics_example :
    (connect_socket two_letters plain
        (trees Tree.null)
        (reads other_url)
        client_builder
        TransportType.websocket
        none
        (λ e. none)
        no_websocket
        no_websocket
        3
        []
      ≡ panicked)
    ↔ (is_web other_url.scheme ≡ false)
panics_example =
    connect_socket_panics_iff two_letters plain (reads other_url) (trees Tree.null) client_builder
      other_url (λ e. none) no_websocket no_websocket 3 [] (reads-IsLawful other_url) refl
