-- ===== src/Engineio/Server/Http/Peek.antt =====
-- engineio/src/server/http.rs, `handle_http`: which handler gets a request that is peeked at first.
use socket_io.Base.{
  ℕ, ◌≡◌, ◌≢◌, ◌↔◌, ◌⊎◌, inl, inr, refl, sym, ap, ◌∙◌, true, false, Option, Bytes, Str, take,
}
use socket_io.Engineio.External.{Base64, HttpLibrary}
use socket_io.Engineio.Handshake.{HandshakeJson}
use socket_io.Engineio.Http.{
  ws_upgrade, polling_open, polling_get, polling_post, Parsed, found, refused, panicked,
  parse_request_type,
}
use socket_io.Engineio.Http.Peeks.{peek_calm}
use socket_io.Engineio.Http.Requests.{parse_peek_iff}
use socket_io.Engineio.Server.{Server}
use socket_io.Engineio.Server.Http.{
  Handled, over_websocket, responded, crashed, max_payload, handle_websocket, handle_polling,
  read_again, handle_peeked, handle_http,
}
use socket_io.Engineio.Websocket.{Websocket}

-- No request for a websocket.
abbrev pub IsOther : Parsed → Type 0
IsOther r = (sid : Option Str) → r ≢ found (ws_upgrade sid)

module _ (b64 : Base64) (json : HandshakeJson) (server : Server) (w : Websocket) (now : ℕ) where
  -- What the handlers make of a request: that of websockets, or that of polling.
  abbrev pub by_websocket : Option Str → Handled
  by_websocket sid =
      let (server', w', result) = handle_websocket b64 json server sid w now in
      over_websocket server' w' result

  abbrev pub by_polling : Parsed → Handled
  by_polling r =
      let (server', response) = handle_polling b64 json server r now in responded server' response

  -- A request for a websocket is handled as one, and another by polling, unless to read it panics.
  abbrev pub Split : Parsed → Handled → Type 0
  Split r h =
      ((sid : Option Str) × (r ≡ found (ws_upgrade sid)) × (h ≡ by_websocket sid))
      ⊎ (IsOther r × (r ≢ panicked) × (h ≡ by_polling r))
      ⊎ ((r ≡ panicked) × (h ≡ crashed))

  read_cases : (r : Parsed) → IsOther r → Split r (read_again b64 json server r now)
  unfolding read_again
  read_cases (found x) other = inr (inl (other, (λ e. cc e), refl))
  read_cases refused other = inr (inl (other, (λ e. cc e), refl))
  read_cases panicked other = inr (inr (refl, refl))

  peeked_cases :
      (p r : Parsed)
      → p ≢ panicked
      → ((sid : Option Str) → (p ≡ found (ws_upgrade sid)) ↔ (r ≡ found (ws_upgrade sid)))
      → Split r (handle_peeked b64 json server p r w now)
  unfolding handle_peeked
  peeked_cases (found (ws_upgrade sid)) r calm same = inl (sid, (same sid).0 refl, refl)
  peeked_cases (found polling_open) r calm same = read_cases r (λ sid e. cc ((same sid).1 e))
  peeked_cases (found (polling_get s)) r calm same = read_cases r (λ sid e. cc ((same sid).1 e))
  peeked_cases (found (polling_post s b)) r calm same = read_cases r (λ sid e. cc ((same sid).1 e))
  peeked_cases refused r calm same = read_cases r (λ sid e. cc ((same sid).1 e))
  peeked_cases panicked r calm same = absurd (calm refl)

  -- If what is there when the server peeks at a request is, up to the size of its buffer, what it
  -- reads then: either the request that is read is one for a websocket, and is handled as one with
  -- the id that is read; or it is none, or refused, and is handled by polling; or to read it panics,
  -- and so does the task.
  pub handle_http_cases :
      (http : HttpLibrary) (peeked stream : Bytes) (addr : Str)
      → take max_payload peeked ≡ take max_payload stream
      → Split
          (parse_request_type http (take max_payload stream) addr false)
          (handle_http b64 json http server peeked stream addr w now)
  unfolding handle_http
  handle_http_cases http peeked stream addr same = peeked_cases _ _ (peek_calm http _ addr) (λ sid.
      let e = ap (λ buf. parse_request_type http buf addr true) same in
      let (to, back) = parse_peek_iff http (take max_payload stream) addr sid in
      ((λ p. to (sym e ∙ p)), (λ r. e ∙ back r)))
