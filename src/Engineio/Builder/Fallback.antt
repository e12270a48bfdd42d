-- ===== src/Engineio/Builder/Fallback.antt =====
-- How the builds of engineio/src/socket/builder.rs end.
use socket_io.Base.{
  ◌≡◌, refl, sym, subst, ap, ◌∙◌, inl, inr, arith, Bool, true, false, none, some, ok, err,
  Bool-cases, if◌then◌else◌, if_true, if_false, list_eq,
}
use mathlib.Core.Option
use socket_io.Engineio.Error.{Error}
use socket_io.Engineio.External.{Base64}
use socket_io.Engineio.Handshake.{HandshakeJson, HandshakePacket}
use socket_io.Engineio.Http.{sid_text, transport_text, polling_name, websocket_text}
use socket_io.Engineio.Websocket as Ws
use socket_io.Engineio.Polling.{new_client, websocket_url}
use socket_io.Engineio.Url.{
  Url, UrlLibrary, IsLawfulUrls, is_web, append_pair, https_scheme, ws_scheme, wss_scheme,
}
use socket_io.Engineio.Builder.{
  SocketBuilder, Network, Transport, over_polling, over_websocket, Made, Built, built, failed,
  panicked, fault_or, keep_handshake, handshake, websocket_upgrade, any_websocket, finish,
  and_build, result_of, build_websocket, build_websocket_with_upgrade, second_polling,
  build_polling, build, build_with_fallback,
}
use socket_io.Engineio.Builder.Start.{
  Makes, and_build-Makes, handshake_again, handshake_cases, polled, polling_made,
}

-- Whether a socket is over a websocket, and the URL that its transport was made for.
unfoldable pub is_websocket : Transport → Bool
is_websocket (over_polling t) = false
is_websocket (over_websocket url w) = true

unfoldable pub transport_url : Transport → Url
transport_url (over_polling t) = t.url
transport_url (over_websocket url w) = url

-- The URL of a websocket at an HTTP URL, and that of polling.
abbrev pub over_ws : Url → Url
over_ws url =
    append_pair
      (record url { scheme = if list_eq url.scheme https_scheme then wss_scheme else ws_scheme })
      transport_text websocket_text

abbrev pub over_http : Url → Url
over_http url = append_pair url transport_text polling_name

-- The URL has the session id, and a transport is a websocket if one was offered and only then.
abbrev pub IsFor : SocketBuilder → Made → Type 0
IsFor b m =
    let url = append_pair b.url sid_text m.handshake.sid in
    (is_websocket m.transport ≡ any_websocket m.handshake.upgrades)
    × (transport_url m.transport
        ≡ (if any_websocket m.handshake.upgrades then over_ws url else over_http url))

pub web_scheme : (b : Bool) → is_web (if b then wss_scheme else ws_scheme) ≡ true
unfolding is_web
web_scheme true = refl
web_scheme false = refl

pub websocket_url-web :
    (urls : UrlLibrary) (url : Url)
    → IsLawfulUrls urls
    → is_web url.scheme ≡ true
    → websocket_url urls url ≡ some (over_ws url)
unfolding websocket_url
websocket_url-web urls url lawful web =
    ap (Option.map (λ u. append_pair u transport_text websocket_text))
      (lawful.changes url _ web (web_scheme (list_eq url.scheme https_scheme)))

-- What a fallback makes of the first build.
abbrev fallback : Built → Built → Built
fallback r polling = elim r [ failed e ↦ polling | built m ↦ built m | panicked ↦ panicked ]

fallback_makes :
    (r : Built) (P : Made → Type 0) (polling : Built) (m : Made)
    → Makes r P
    → polling ≡ built m
    → (n : Made) × (fallback r polling ≡ built n)
fallback_makes (built n) P polling m makes e = (n, refl)
fallback_makes (failed x) P polling m makes e = (m, e)
fallback_makes panicked P polling m makes e = elim makes [ ]

module _ (b64 : Base64) (json : HandshakeJson) (urls : UrlLibrary) where
  -- What a build is once the handshake is there.
  pub upgraded :
      (b : SocketBuilder) (net : Network) (h : HandshakePacket)
      → IsLawfulUrls urls
      → is_web b.url.scheme ≡ true
      → b.header_fault ≡ none
      → let b' = keep_handshake b h in
        build_websocket b64 json urls b' net
        ≡ and_build net.websocket (λ w.
          and_build
            (result_of (Ws.upgrade b64 w))
            (λ w'. finish b' (over_websocket (over_ws b'.url) w')))
  unfolding build_websocket
  upgraded b net h lawful web e =
      ground (arith, websocket_url-web urls (keep_handshake b h).url lawful web)

  build_made :
      (b : SocketBuilder) (net : Network) (h : HandshakePacket)
      → handshake b64 json b net ≡ ok (keep_handshake b h)
      → build b64 json urls b net ≡ (
          if any_websocket h.upgrades
          then build_websocket b64 json urls (keep_handshake b h) net
          else second_polling (keep_handshake b h) net)
  unfolding build build_websocket_with_upgrade build_polling websocket_upgrade
  build_made b net h e = ground (arith, handshake_again b64 json b net h)

  pub build_failed :
      (b : SocketBuilder) (net : Network) (x : Error)
      → handshake b64 json b net ≡ err x
      → build b64 json urls b net ≡ failed x
  unfolding build
  build_failed b net x e = ground arith

  made_ends :
      (b : SocketBuilder) (net : Network) (h : HandshakePacket)
      → IsLawfulUrls urls
      → is_web b.url.scheme ≡ true
      → b.header_fault ≡ none
      → Makes
          (if any_websocket h.upgrades
            then build_websocket b64 json urls (keep_handshake b h) net
            else second_polling (keep_handshake b h) net)
          (IsFor b)
  unfolding is_websocket transport_url new_client
  made_ends b net h lawful web q = elim (Bool-cases (any_websocket h.upgrades)) [
    | inl u ↦
        subst
          (λ t.
            Makes
              (if t
                then build_websocket b64 json urls (keep_handshake b h) net
                else second_polling (keep_handshake b h) net)
              (IsFor b))
          (sym u)
          (subst (λ r. Makes r (IsFor b)) (sym (upgraded b net h lawful web q))
            (and_build-Makes net.websocket _ (IsFor b) (λ w.
              and_build-Makes (result_of (Ws.upgrade b64 w)) _ (IsFor b)
                (λ w'. (sym u, sym (if_true _ _ _ u))))))
    | inr u ↦
        subst
          (λ t.
            Makes
              (if t
                then build_websocket b64 json urls (keep_handshake b h) net
                else second_polling (keep_handshake b h) net)
              (IsFor b))
          (sym u)
          (subst (λ r. Makes r (IsFor b)) (sym (polled b64 json b net h q))
            (and_build-Makes (fault_or net.polling_again_fault) _ (IsFor b)
              (λ _. (sym u, sym (if_false _ _ _ u)))))
  ]

  pub build_ends :
      (b : SocketBuilder) (net : Network)
      → IsLawfulUrls urls
      → is_web b.url.scheme ≡ true
      → b.handshake ≡ none
      → Makes (build b64 json urls b net) (IsFor b)
  build_ends b net lawful web e = elim (handshake_cases b64 json b net e) [
    | inl (x, p) ↦ subst (λ r. Makes r (IsFor b)) (sym (build_failed b net x p)) tt
    | inr (h, p, q) ↦
        subst (λ r. Makes r (IsFor b)) (sym (build_made b net h p)) (made_ends b net h lawful web q)
  ]

  polling_built :
      (b : SocketBuilder) (net : Network) (h : HandshakePacket)
      → b.header_fault ≡ none
      → net.polling_again_fault ≡ none
      → second_polling (keep_handshake b h) net
        ≡ built (record {
          transport = over_polling (new_client (append_pair b.url sid_text h.sid));
          handshake = h;
          should_pong = b.should_pong;
        })
  unfolding second_polling
  polling_built b net h p q = ground arith

  -- If a new builder's handshake succeeds and both its polling transports can be made, then a build
  -- with the fallback gives a socket, whatever becomes of the first build.
  pub fallback_built :
      (b : SocketBuilder) (net again : Network) (made : SocketBuilder)
      → IsLawfulUrls urls
      → is_web b.url.scheme ≡ true
      → b.handshake ≡ none
      → handshake b64 json b again ≡ ok made
      → again.polling_again_fault ≡ none
      → (m : Made) × (build_with_fallback b64 json urls b net again ≡ built m)
  unfolding build_with_fallback
  fallback_built b net again made lawful web e works p = elim (handshake_cases b64 json b again e) [
    | inl (x, q) ↦ absurd (cc (works, q))
    | inr (h, q, f) ↦
        fallback_makes (build b64 json urls b net) (IsFor b) _ _ (build_ends b net lawful web e)
          (polling_made b64 json b again h q ∙ polling_built b again h f p)
  ]
