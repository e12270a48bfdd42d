-- ===== src/Engineio/Polling.antt =====
-- engineio/src/transports/polling.rs, the polling transports, and the URL of `connect` in
-- engineio/src/transports/websocket.rs. What a request for something comes to is the environment's:
-- an error, or the pieces in which the body of the response arrives.
pub mod Pieces
use mathlib.Core.Option
use socket_io.Base.{
  ℕ, List, [], ◌∷◌, ◌++◌, Bool, Option, none, some, Bytes, Str, ok, err, ◌>>=◌, list_eq,
  if◌then◌else◌,
}
use socket_io.Base.Decimal.{to_string}
use socket_io.Engineio.Error.{Result, send_error}
use socket_io.Engineio.External.{Base64}
use socket_io.Engineio.Http.{websocket_text, polling_name, transport_text}
use socket_io.Engineio.Transport.{Data, polling_body, post_status}
use socket_io.Engineio.Url.{Url, UrlLibrary, append_pair, https_scheme, ws_scheme, wss_scheme}

abbrev pub Fetched : Type 0
Fetched = Result (List (Result Bytes))

pub record ClientPollingTransport : Type 0 where
  pub url : Url

-- `ClientPollingTransport::new`, where the client of the crate reqwest can be made.
unfoldable pub new_client : Url → ClientPollingTransport
new_client url = record { url = append_pair url transport_text polling_name }

-- `append_hash`, with the hash of the time.
unfoldable pub append_hash : Url → ℕ → Url
unfolding to_string
append_hash url hash = append_pair url (b't' ∷ []) (to_string hash)

-- The pieces of one response, and then what the loop goes on with; an error ends the stream.
unfoldable pub yield_pieces : List (Result Bytes) → List (Result Bytes) → List (Result Bytes)
yield_pieces [] next = next
yield_pieces (err e ∷ pieces) next = err e ∷ []
yield_pieces (ok bytes ∷ pieces) next = ok bytes ∷ yield_pieces pieces next

-- `ClientPollingTransport::stream`, over what the requests come to, one after the other.
unfoldable pub client_stream : List Fetched → List (Result Bytes)
unfolding yield_pieces
client_stream [] = []
client_stream (err e ∷ requests) = err e ∷ []
client_stream (ok pieces ∷ requests) = yield_pieces pieces (client_stream requests)

module _ (b64 : Base64) where
  -- `emit` of the client, with the post to a URL, which comes to a status.
  unfoldable pub client_emit :
      ClientPollingTransport → Data → ℕ → (Url → Bytes → Result ℕ) → Result (Unit {0})
  unfolding append_hash polling_body post_status
  client_emit t payload hash post =
      post (append_hash t.url hash) (polling_body b64 payload) >>= post_status

  -- `emit` of the server, into a channel whose receiver is there or not.
  unfoldable pub server_emit : List Bytes → Bool → Data → List Bytes × Result (Unit {0})
  unfolding polling_body
  server_emit sent has_receiver payload =
      if has_receiver
      then (sent ++ polling_body b64 payload ∷ [], ok tt)
      else (sent, err send_error)

-- `poll_next` of the server, over what its channel has before it is closed.
unfoldable pub server_poll_next : List Bytes → Option (Result Bytes) × List Bytes
server_poll_next [] = (none, [])
server_poll_next (bytes ∷ rest) = (some (ok bytes), rest)

-- `connect` of a websocket up to the URL that it asks for; `none` is the panic of an `unwrap`.
unfoldable pub websocket_url : UrlLibrary → Url → Option Url
websocket_url urls url =
    let scheme : Str = if list_eq url.scheme https_scheme then wss_scheme else ws_scheme in
    Option.map (λ u. append_pair u transport_text websocket_text) (urls.set_scheme url scheme)
