-- ===== src/Engineio/Builder/Panics.antt =====
-- That no build of engineio/src/socket/builder.rs panics, from a new builder.
use socket_io.Base.{
  ◌≡◌, sym, subst, ap, ◌∙◌, inl, inr, arith, Bool, true, false, Option, none, some, Bytes, ok, err,
  if◌then◌else◌, ◌>>=◌, ok_or,
}
use socket_io.Engineio.Error.{Result, incomplete_packet, illegal_websocket_upgrade}
use socket_io.Engineio.External.{Base64}
use socket_io.Engineio.Handshake.{HandshakeJson, HandshakePacket, read_handshake}
use socket_io.Engineio.Websocket.{Websocket}
use socket_io.Engineio.Websocket as Ws
use socket_io.Engineio.Builder.{
  SocketBuilder, Network, Transport, over_websocket, Made, Built, built, failed, panicked, fault_or,
  flatten, keep_handshake, handshake_with_transport, websocket_upgrade, finish, and_build,
  result_of, to_upgrade, build_websocket, build_websocket_with_upgrade, second_polling,
  build_polling, build, build_with_fallback,
}
use socket_io.Engineio.Url.{Url, UrlLibrary, IsLawfulUrls, is_web}
use socket_io.Engineio.Builder.Start.{Makes, and_build-Makes, handshake_cases, polling_made, polled}
use socket_io.Engineio.Builder.Fallback.{over_ws, websocket_url-web, IsFor, upgraded, build_ends}

-- A build that does not panic.
abbrev pub IsSafe : Built → Type 0
IsSafe r = Makes r (λ m. Unit {0})

weaken : (r : Built) (P : Made → Type 0) → Makes r P → IsSafe r
weaken (built m) P h = tt
weaken (failed e) P h = tt
weaken panicked P h = h

fallback-IsSafe :
    (r polling : Built)
    → IsSafe r
    → IsSafe polling
    → IsSafe
        (elim r as (λ _. Built) [ failed e ↦ polling | built m ↦ built m | panicked ↦ panicked ])
fallback-IsSafe (built m) polling h k = tt
fallback-IsSafe (failed e) polling h k = k
fallback-IsSafe panicked polling h k = h

finish-IsSafe :
    (b : SocketBuilder) (h : HandshakePacket) (t : Transport)
    → b.handshake ≡ some h
    → IsSafe (finish b t)
finish-IsSafe b h t e =
    subst
      (λ o. IsSafe (elim o as (λ _. Built) [
        | none ↦ panicked
        | some g ↦ built (record { transport = t; handshake = g; should_pong = b.should_pong })
      ]))
      (sym e) tt

kept-IsSafe :
    (b : SocketBuilder) (r : Result HandshakePacket) (t : SocketBuilder → Transport)
    → IsSafe (and_build (r >>= λ h. ok (keep_handshake b h)) (λ b'. finish b' (t b')))
kept-IsSafe b (ok h) t = tt
kept-IsSafe b (err e) t = tt

module _ (b64 : Base64) (json : HandshakeJson) (urls : UrlLibrary) where
  read_kept-IsSafe :
      (b : SocketBuilder) (r : Result Bytes) (t : SocketBuilder → Transport)
      → IsSafe (
          and_build
            (r >>= λ bytes. read_handshake json b64 bytes >>= λ h. ok (keep_handshake b h))
            (λ b'. finish b' (t b')))
  read_kept-IsSafe b (ok bs) t = kept-IsSafe b (read_handshake json b64 bs) t
  read_kept-IsSafe b (err e) t = tt

  transport_step :
      (b : SocketBuilder) (first : Option (Result Bytes))
      → b.handshake ≡ none
      → handshake_with_transport b64 json b first ≡ (
          flatten (ok_or first incomplete_packet) >>= λ bytes.
          read_handshake json b64 bytes >>= λ h. ok (keep_handshake b h))
  unfolding handshake_with_transport
  transport_step b first e = ground arith

  upgrade_step :
      (b : SocketBuilder) (url : Url) (w : Websocket)
      → b.handshake ≡ none
      → to_upgrade b64 json b url w
        ≡ and_build
            (handshake_with_transport b64 json b (Ws.next_bytes w).0)
            (λ b'. finish b' (over_websocket url (Ws.next_bytes w).1))
  upgrade_step b url w e = ground arith

  asked_for-IsSafe :
      (b : SocketBuilder) (net : Network) (url : Url)
      → b.handshake ≡ none
      → IsSafe (and_build net.websocket (λ w. to_upgrade b64 json b url w))
  asked_for-IsSafe b net url e = and_build-Makes net.websocket _ _ (λ w.
      subst IsSafe
        (sym (
          upgrade_step b url w e
          ∙ ap (λ r. and_build r (λ b'. finish b' (over_websocket url (Ws.next_bytes w).1)))
              (transport_step b (Ws.next_bytes w).0 e)))
        (read_kept-IsSafe b (flatten (ok_or (Ws.next_bytes w).0 incomplete_packet))
          (λ b'. over_websocket url (Ws.next_bytes w).1)))

  websocket-IsSafe :
      (b : SocketBuilder) (net : Network)
      → IsLawfulUrls urls
      → is_web b.url.scheme ≡ true
      → b.handshake ≡ none
      → IsSafe (build_websocket b64 json urls b net)
  unfolding build_websocket
  websocket-IsSafe b net lawful web e = and_build-Makes (fault_or b.header_fault) _ _ (λ _.
      subst
        (λ o. IsSafe (elim o as (λ _. Built) [
          | none ↦ panicked
          | some url ↦ and_build net.websocket (λ w. to_upgrade b64 json b url w)
        ]))
        (sym (websocket_url-web urls b.url lawful web)) (asked_for-IsSafe b net (over_ws b.url) e))

  polling-IsSafe :
      (b : SocketBuilder) (net : Network)
      → b.handshake ≡ none
      → IsSafe (build_polling b64 json b net)
  unfolding build_polling
  polling-IsSafe b net e = elim (handshake_cases b64 json b net e) [
    | inl (x, p) ↦ subst (λ r. IsSafe (and_build r (λ b'. second_polling b' net))) (sym p) tt
    | inr (h, p, q) ↦
        subst IsSafe (sym (polling_made b64 json b net h p ∙ polled b64 json b net h q))
          (and_build-Makes (fault_or net.polling_again_fault) _ _ (λ _. tt))
  ]

  asked-IsSafe :
      (t : Bool) (r : Built) → IsSafe r → IsSafe (if t then r else failed illegal_websocket_upgrade)
  asked-IsSafe true r h = h
  asked-IsSafe false r h = tt

  upgrading-IsSafe :
      (b : SocketBuilder) (net : Network)
      → IsLawfulUrls urls
      → is_web b.url.scheme ≡ true
      → b.handshake ≡ none
      → IsSafe (build_websocket_with_upgrade b64 json urls b net)
  unfolding build_websocket_with_upgrade
  upgrading-IsSafe b net lawful web e = elim (handshake_cases b64 json b net e) [
    | inl (x, p) ↦
        subst
          (λ r. IsSafe (
            and_build r (λ b'.
              if websocket_upgrade b'
              then build_websocket b64 json urls b' net
              else failed illegal_websocket_upgrade)))
          (sym p) tt
    | inr (h, p, q) ↦
        subst
          (λ r. IsSafe (
            and_build r (λ b'.
              if websocket_upgrade b'
              then build_websocket b64 json urls b' net
              else failed illegal_websocket_upgrade)))
          (sym p)
          (asked-IsSafe (websocket_upgrade (keep_handshake b h))
            (build_websocket b64 json urls (keep_handshake b h) net)
            (subst IsSafe (sym (upgraded b64 json urls b net h lawful web q)) (
              and_build-Makes net.websocket _ _
                (λ w. and_build-Makes (result_of (Ws.upgrade b64 w)) _ _ (λ w'. tt)))))
  ]

  -- From a new builder of a URL of the web no build panics.
  pub builds-IsSafe :
      (b : SocketBuilder) (net again : Network)
      → IsLawfulUrls urls
      → is_web b.url.scheme ≡ true
      → b.handshake ≡ none
      → IsSafe (build_with_fallback b64 json urls b net again)
        × IsSafe (build_polling b64 json b net)
        × IsSafe (build_websocket b64 json urls b net)
        × IsSafe (build_websocket_with_upgrade b64 json urls b net)
  unfolding build_with_fallback
  builds-IsSafe b net again lawful web e = (
    fallback-IsSafe (build b64 json urls b net) (build_polling b64 json b again)
        (weaken _ (IsFor b) (build_ends b64 json urls b net lawful web e))
        (polling-IsSafe b again e),
    polling-IsSafe b net e,
    websocket-IsSafe b net lawful web e,
    upgrading-IsSafe b net lawful web e,
  )
